-- ===== src/Base/Suffixes.antt =====
-- Ends of lists, and lists taken apart at a place.
use Prim.Native.Nat.{ℕ, zero, suc, ◌+◌, ◌-◌, ◌≤◌, ◌<◌}
use mathlib.Core.Path.{◌≡◌, ◌∙◌, refl, ap, subst}
use mathlib.Core.Logic.{◌⊎◌, inl, inr}
use mathlib.Core.Option.{Option, none, some}
use mathlib.Core.List.{List, [], ◌∷◌, ◌++◌, map}
use native.Mathlib.Omega.{arith}
use echohoard.Base.Lists.{Any, length, take}

-- `items.at(-1)`
abbrev pub last : {A : Type 0} → List A → Option A
last [] = none
last (x ∷ []) = some x
last (x ∷ y ∷ xs) = last (y ∷ xs)

-- The first list ends the second one.
abbrev pub IsSuffix : {A : Type 0} → List A → List A → Type 0
IsSuffix xs [] = xs ≡ []
IsSuffix xs (y ∷ ys) = (xs ≡ (y ∷ ys)) ⊎ IsSuffix xs ys

abbrev pub drop : {A : Type 0} → ℕ → List A → List A
drop zero xs = xs
drop (suc n) [] = []
drop (suc n) (x ∷ xs) = drop n xs

last-take-suc :
    {A : Type 0} (k : ℕ) (xs : List A)
    → suc k < length xs
    → (r : A) × (last (take (suc k) xs) ≡ some r) × IsSuffix (r ∷ drop (suc k) xs) xs
last-take-suc k [] h = absurd (omega arith)
last-take-suc zero (x ∷ xs) h = (x, refl, inl refl)
last-take-suc (suc k) (x ∷ []) h = absurd (omega arith)
last-take-suc (suc k) (x ∷ y ∷ xs) h =
    let (r, shown, there) = last-take-suc k (y ∷ xs) (omega arith) in (r, shown, inr there)

pub suffix_trans :
    {A : Type 0} (xs ys zs : List A) → IsSuffix xs ys → IsSuffix ys zs → IsSuffix xs zs
suffix_trans xs ys [] h k = subst (IsSuffix xs) k h
suffix_trans xs ys (z ∷ zs) h (inl e) = subst (IsSuffix xs) e h
suffix_trans xs ys (z ∷ zs) h (inr k) = inr (suffix_trans xs ys zs h k)

pub suffix_refl : {A : Type 0} (xs : List A) → IsSuffix xs xs
suffix_refl [] = refl
suffix_refl (x ∷ xs) = inl refl

pub suffix_tail : {A : Type 0} (x : A) (xs ys : List A) → IsSuffix (x ∷ xs) ys → IsSuffix xs ys
suffix_tail x xs ys h = suffix_trans xs (x ∷ xs) ys (inr (suffix_refl xs)) h

pub take-drop :
    {A B : Type 0} (f : A → B) (n : ℕ) (xs : List A)
    → (map f (take n xs) ++ map f (drop n xs)) ≡ map f xs
take-drop f zero xs = refl
take-drop f (suc n) [] = refl
take-drop f (suc n) (x ∷ xs) = ap (λ r. f x ∷ r) (take-drop f n xs)

pub length-drop : {A : Type 0} (n : ℕ) (xs : List A) → length (drop n xs) ≡ length xs - n
length-drop zero xs = omega arith
length-drop (suc n) [] = omega arith
length-drop (suc n) (x ∷ xs) = omega (arith, length-drop n xs)

pub take_all : {A : Type 0} (n : ℕ) (xs : List A) → length xs ≤ n → take n xs ≡ xs
take_all zero [] h = refl
take_all zero (x ∷ xs) h = absurd (omega arith)
take_all (suc n) [] h = refl
take_all (suc n) (x ∷ xs) h = ap (λ r. x ∷ r) (take_all n xs (omega arith))

take-take-suc : {A : Type 0} (n : ℕ) (xs : List A) → take n (take (suc n) xs) ≡ take n xs
take-take-suc zero xs = refl
take-take-suc (suc n) [] = refl
take-take-suc (suc n) (x ∷ xs) = ap (λ r. x ∷ r) (take-take-suc n xs)

pub last-take :
    {A : Type 0} (n : ℕ) (xs : List A)
    → 0 < n
    → n < length xs
    → (r : A) × (last (take n xs) ≡ some r) × IsSuffix (r ∷ drop n xs) xs
last-take zero xs p h = absurd (omega arith)
last-take (suc k) xs p h = last-take-suc k xs h

pub take-take : {A : Type 0} (n : ℕ) (xs : List A) → take n (take (n + 1) xs) ≡ take n xs
take-take n xs =
    let one : n + 1 ≡ suc n = omega arith in ap (λ m. take n (take m xs)) one ∙ take-take-suc n xs

pub suffix-Any : {A : Type 0} (x : A) (xs ys : List A) → IsSuffix (x ∷ xs) ys → Any (λ y. x ≡ y) ys
suffix-Any x xs [] h = cc h
suffix-Any x xs (y ∷ ys) (inl e) = inl (cc e)
suffix-Any x xs (y ∷ ys) (inr h) = inr (suffix-Any x xs ys h)
