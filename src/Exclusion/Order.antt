-- ===== src/Exclusion/Order.antt =====
-- `>` on texts is a strict total order: src/application/import-exclusion.ts.
use echohoard.Base.{Bool-cases, List, [], arith, false, inl, inr, refl, true, ℕ, ◌∷◌, ◌≡◌}
use echohoard.Exclusion.{units_gt}

pub units_gt_irrefl : (xs : List ℕ) → units_gt xs xs ≡ false
unfolding units_gt
units_gt_irrefl [] = refl
units_gt_irrefl (x ∷ xs) = ground (arith, units_gt_irrefl xs)

pub units_gt_trans :
    (xs ys zs : List ℕ) → units_gt xs ys ≡ true → units_gt ys zs ≡ true → units_gt xs zs ≡ true
unfolding units_gt
units_gt_trans [] ys zs p q = cc
units_gt_trans (x ∷ xs) [] zs p q = cc
units_gt_trans (x ∷ xs) (y ∷ ys) [] p q = refl
units_gt_trans (x ∷ xs) (y ∷ ys) (z ∷ zs) p q = ground (arith, units_gt_trans xs ys zs)

-- Of two texts that are not the same one is greater.
pub units_gt-total : (xs ys : List ℕ) → units_gt xs ys ≡ false → units_gt ys xs ≡ false → xs ≡ ys
unfolding units_gt
units_gt-total [] [] p q = refl
units_gt-total [] (y ∷ ys) p q = cc
units_gt-total (x ∷ xs) [] p q = cc
units_gt-total (x ∷ xs) (y ∷ ys) p q = ground (arith, units_gt-total xs ys)

pub units_gt-cotrans :
    (xs ys zs : List ℕ) → units_gt xs zs ≡ true → units_gt xs ys ≡ false → units_gt ys zs ≡ true
units_gt-cotrans xs ys zs p q = elim (Bool-cases (units_gt ys xs)) [
  | inl greater ↦ units_gt_trans ys xs zs greater p
  | inr other ↦ rw (← units_gt-total xs ys q other) p
]
