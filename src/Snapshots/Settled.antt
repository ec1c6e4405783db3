-- ===== src/Snapshots/Settled.antt =====
-- A delivery is claimed only when nothing in it moved: src/application/echohoard.ts.
use echohoard.Base.{
  Bool-cases, List, Option, String, [], arith, inl, inr, nat_eq, none, refl, string_eq, subst, true,
  ◌∷◌, ◌≡◌, ◌≢◌, ◌⊎◌,
}
use echohoard.Jobs.States.{DeliveryFile}
use echohoard.Snapshots.{same_file, same_files, settle_and_claim}

same_file-eq : (a b : DeliveryFile) → same_file a b ≡ true → a ≡ b
same_file-eq a b h =
    let names = (string_eq.same_iff b.name a.name).0 (ground arith) in
    let sizes = (nat_eq.same_iff b.size a.size).0 (ground arith) in
    let times = (nat_eq.same_iff b.modified_at a.modified_at).0 (ground arith) in
    cc (names, sizes, times)

same_file_refl : (a : DeliveryFile) → same_file a a ≡ true
same_file_refl a =
    rw
      (
        (string_eq.same_iff a.name a.name).1 refl,
        (nat_eq.same_iff a.size a.size).1 refl,
        (nat_eq.same_iff a.modified_at a.modified_at).1 refl,
      )
      refl

same_files-eq : (xs ys : List DeliveryFile) → same_files xs ys ≡ true → xs ≡ ys
unfolding same_files
same_files-eq [] [] h = refl
same_files-eq [] (y ∷ ys) h = cc
same_files-eq (x ∷ xs) [] h = cc
same_files-eq (x ∷ xs) (y ∷ ys) h =
    let first = same_file-eq x y (ground arith) in
    let rest = same_files-eq xs ys (ground arith) in cc (first, rest)

same_files_refl : (xs : List DeliveryFile) → same_files xs xs ≡ true
unfolding same_files
same_files_refl [] = refl
same_files_refl (x ∷ xs) = rw (same_file_refl x) (same_files_refl xs)

-- A delivery is given to the claim exactly when it has files and shows the same names, sizes and
-- times in the same order before and after the quiet period; otherwise nothing is claimed.
pub settle_and_claim-stable :
    (before after : List DeliveryFile) (claim : Option String)
    → ((before ≢ []) × (before ≡ after) × (settle_and_claim before after claim ≡ claim))
      ⊎ (((before ≡ []) ⊎ (before ≢ after)) × (settle_and_claim before after claim ≡ none))
unfolding settle_and_claim
settle_and_claim-stable [] after claim = inr (inl refl, refl)
settle_and_claim-stable (f ∷ before) after claim =
    elim (Bool-cases (same_files (f ∷ before) after)) [
      | inl same ↦ inl ((λ e. cc), same_files-eq _ _ same, rw same refl)
      | inr moved ↦ inr (
        inr (λ (e : (f ∷ before) ≡ after). cc (
          subst (λ (x : List DeliveryFile). same_files (f ∷ before) x ≡ true) e
              (same_files_refl (f ∷ before)),
          moved,
        )),
        rw moved refl,
      )
    ]
