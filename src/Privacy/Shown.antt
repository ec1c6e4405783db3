-- ===== src/Privacy/Shown.antt =====
-- Which conversations a reader of the web delivery is shown: src/infrastructure/db/ui-privacy.ts.
use echohoard.Base.{
  All, Any, Bool, Bool-cases, List, String, [], any, arith, false, if◌then◌else◌, inl, inr, nat_eq,
  refl, string_eq, true, ℕ, ◌&&◌, ◌==◌, ◌↔◌, ◌∷◌, ◌≡◌,
}
use echohoard.Privacy.{Conversation, Tables}
use echohoard.Privacy.Predicates.{
  effective_policy_rank, expected_rank, in_group, is_hidden, is_locked, is_unauthorized, max_rank,
  presentation_conversation_id, ui_conversation_predicate,
}
use echohoard.Reads.Requests.{UiReadMode, hidden, locked, ordinary}

pub any-Any : {A : Type 0} (p : A → Bool) (xs : List A) → any p xs ≡ true → Any (λ x. p x ≡ true) xs
any-Any p [] h = cc h
any-Any p (x ∷ xs) h = elim (Bool-cases (p x)) [
  | inl e ↦ inl e
  | inr e ↦ inr (any-Any p xs (ground (arith, h, e)))
]

pub Any-any : {A : Type 0} (p : A → Bool) (xs : List A) → Any (λ x. p x ≡ true) xs → any p xs ≡ true
Any-any p [] h = elim h [ ]
Any-any p (x ∷ xs) (inl e) = ground (arith, e)
Any-any p (x ∷ xs) (inr k) = let rest = Any-any p xs k in ground (arith, rest)

pub none_iff :
    {A : Type 0} (p : A → Bool) (xs : List A) → (any p xs ≡ false) ↔ (Any (λ x. p x ≡ true) xs → ⊥)
none_iff p xs = (
  λ h k. let found = Any-any p xs k in cc (h, found),
  λ h. elim (Bool-cases (any p xs)) [ inl e ↦ absurd (h (any-Any p xs e)) | inr e ↦ e ],
)

module _ (test : Conversation → Bool) where
  abbrev some_locked : List Conversation → Bool
  some_locked = any (λ p. test p && is_locked p)

  abbrev some_hidden : List Conversation → Bool
  some_hidden = any (λ p. test p && is_hidden p)

  -- What the greatest rank says of the policies.
  max_rank-values :
      (ps : List Conversation)
      → max_rank test ps ≡ (if some_locked ps then 2 else if some_hidden ps then 1 else 0)
  unfolding max_rank
  max_rank-values [] = refl
  max_rank-values (p ∷ ps) =
      let rest = max_rank-values ps in
      elim (Bool-cases (test p)) [
        | inr out ↦ rw out rest
        | inl inside ↦ rw inside (ground (arith, rest))
      ]

-- The view of a rank, from whether there are locked and hidden policies.
rank_iff :
    (mode : UiReadMode) (m : ℕ) (some_l some_h : Bool)
    → m ≡ (if some_l then 2 else if some_h then 1 else 0)
    → ((m == expected_rank mode) ≡ true) ↔ (elim mode [
      | ordinary ↦ (some_l ≡ false) × (some_h ≡ false)
      | hidden ↦ (some_l ≡ false) × (some_h ≡ true)
      | locked ↦ some_l ≡ true
    ])
rank_iff ordinary m true some_h e = rw e (λ h. cc h, λ h. cc (h.0))
rank_iff ordinary m false true e = rw e (λ h. cc h, λ h. cc (h.1))
rank_iff ordinary m false false e = rw e (λ h. (refl, refl), λ h. refl)
rank_iff hidden m true some_h e = rw e (λ h. cc h, λ h. cc (h.0))
rank_iff hidden m false true e = rw e (λ h. (refl, refl), λ h. refl)
rank_iff hidden m false false e = rw e (λ h. cc h, λ h. cc (h.1))
rank_iff locked m true some_h e = rw e (λ h. refl, λ h. refl)
rank_iff locked m false true e = rw e (λ h. cc h, λ h. cc h)
rank_iff locked m false false e = rw e (λ h. cc h, λ h. cc h)

abbrev IsAuthorized : List String → Conversation → Type 0
IsAuthorized ids p = Any (λ i. (p.id == i) ≡ true) ids

unauthorized-IsAuthorized :
    (ids : List String) (p : Conversation) → is_unauthorized ids p ≡ false → IsAuthorized ids p
unauthorized-IsAuthorized [] p h = cc h
unauthorized-IsAuthorized (i ∷ ids) p h = any-Any (λ j. p.id == j) (i ∷ ids) (ground (arith, h))

authorized-unauthorized :
    (ids : List String) (p : Conversation) → IsAuthorized ids p → is_unauthorized ids p ≡ false
authorized-unauthorized [] p h = elim h [ ]
authorized-unauthorized (i ∷ ids) p h =
    let found = Any-any (λ j. p.id == j) (i ∷ ids) h in ground (arith, found)

module _ (test : Conversation → Bool) (ids : List String) where
  all-IsAuthorized :
      (ps : List Conversation)
      → any (λ p. test p && is_locked p && is_unauthorized ids p) ps ≡ false
      → All (λ p. (test p && is_locked p) ≡ true → IsAuthorized ids p) ps
  all-IsAuthorized [] h = tt
  all-IsAuthorized (p ∷ ps) h = (
    λ l. unauthorized-IsAuthorized ids p (ground (arith, h, l)),
    all-IsAuthorized ps (ground (arith, h)),
  )

  authorized-all :
      (ps : List Conversation)
      → All (λ p. (test p && is_locked p) ≡ true → IsAuthorized ids p) ps
      → any (λ p. test p && is_locked p && is_unauthorized ids p) ps ≡ false
  authorized-all [] h = refl
  authorized-all (p ∷ ps) h =
      let rest = authorized-all ps h.1 in
      elim (Bool-cases (test p && is_locked p)) [
        | inr out ↦ ground (arith, out, rest)
        | inl there ↦
            let known = authorized-unauthorized ids p (h.0 there) in ground (arith, known, rest)
      ]

module _ (db : Tables) (archive id : String) where
  -- The group of the conversation, and its policies.
  abbrev pub group : Conversation → Bool
  group = in_group db archive (presentation_conversation_id db archive id)

  abbrev pub Locked : Conversation → Type 0
  Locked p = (group p && is_locked p) ≡ true

  abbrev pub Hidden : Conversation → Type 0
  Hidden p = (group p && is_hidden p) ≡ true

  module _ (ids : List String) where
    -- What each view of the archive promises of the conversations in it.
    abbrev pub IsShown : UiReadMode → Type 0
    IsShown ordinary = (Any Locked db.conversations → ⊥) × (Any Hidden db.conversations → ⊥)
    IsShown hidden = (Any Locked db.conversations → ⊥) × Any Hidden db.conversations
    IsShown locked =
        Any Locked db.conversations × All (λ p. Locked p → IsAuthorized ids p) db.conversations

    -- A reader is shown a conversation in the ordinary view exactly if no policy of its group is hidden
    -- or locked, in the hidden view exactly if one is hidden and none locked, and in the locked view
    -- exactly if one is locked and the reader is authorized for every locked one.
    pub ui_conversation-IsShown :
        (mode : UiReadMode)
        → (ui_conversation_predicate mode ids db archive id ≡ true) ↔ IsShown mode
    unfolding ui_conversation_predicate effective_policy_rank
    ui_conversation-IsShown ordinary =
        let rank =
          rank_iff ordinary (effective_policy_rank db archive id)
            (some_locked group db.conversations) (some_hidden group db.conversations)
            (max_rank-values group db.conversations) in
        let lock = none_iff (λ p. group p && is_locked p) db.conversations in
        let hide = none_iff (λ p. group p && is_hidden p) db.conversations in
        (
          λ h. let (l, f) = rank.0 (ground (arith, h)) in (lock.0 l, hide.0 f),
          λ h. let known = rank.1 (lock.1 h.0, hide.1 h.1) in ground (arith, known),
        )
    ui_conversation-IsShown hidden =
        let rank =
          rank_iff hidden (effective_policy_rank db archive id) (some_locked group db.conversations)
            (some_hidden group db.conversations) (max_rank-values group db.conversations) in
        let lock = none_iff (λ p. group p && is_locked p) db.conversations in
        (
          λ h.
              let (l, f) = rank.0 (ground (arith, h)) in
              (lock.0 l, any-Any (λ p. group p && is_hidden p) db.conversations f),
          λ h.
              let found = Any-any (λ p. group p && is_hidden p) db.conversations h.1 in
              let known = rank.1 (lock.1 h.0, found) in ground (arith, known),
        )
    ui_conversation-IsShown locked =
        let rank =
          rank_iff locked (effective_policy_rank db archive id) (some_locked group db.conversations)
            (some_hidden group db.conversations) (max_rank-values group db.conversations) in
        (
          λ h.
              let found = rank.0 (ground (arith, h)) in
              (
                any-Any (λ p. group p && is_locked p) db.conversations found,
                all-IsAuthorized group ids db.conversations (ground (arith, h)),
              ),
          λ h.
              let known = rank.1 (Any-any (λ p. group p && is_locked p) db.conversations h.0) in
              let free = authorized-all group ids db.conversations h.1 in
              ground (arith, known, free),
        )
