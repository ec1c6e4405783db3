-- ===== src/Numbers.antt =====
-- The numbers of JavaScript, as src/domain/health.ts and src/application/reads.ts use them: a finite
-- one is a fraction with a sign.
use echohoard.Base.{
  Bool, List, Option, [], false, if◌then◌else◌, leb, ltb, nat_eq, none, not, some, string_eq, true,
  ℕ, ◌%◌, ◌&&◌, ◌*◌, ◌+◌, ◌-◌, ◌/◌, ◌==◌, ◌^◌, ◌||◌,
}

-- `finite s n d` is n / (d + 1), negative if `s` is true; `infinite s` likewise.
pub data Number : Type 0 where
  nan : Number
  infinite : Bool → Number
  finite : Bool → ℕ → ℕ → Number

abbrev pub nought : Number
nought = finite false 0 0

-- `a < b`
abbrev pub less : Number → Number → Bool
less nan b = false
less (infinite s) nan = false
less (infinite s) (infinite t) = s && not t
less (infinite s) (finite t n d) = s
less (finite s n d) nan = false
less (finite s n d) (infinite t) = not t
less (finite false n d) (finite false m e) = ltb (n * (e + 1)) (m * (d + 1))
less (finite false n d) (finite true m e) = false
less (finite true n d) (finite false m e) = ltb 0 n || ltb 0 m
less (finite true n d) (finite true m e) = ltb (m * (d + 1)) (n * (e + 1))

-- `Number.isFinite(a)`
abbrev pub is_finite : Number → Bool
is_finite (finite s n d) = true
is_finite _ = false

-- `a === 0`
abbrev pub is_nought : Number → Bool
is_nought (finite s n d) = n == 0
is_nought _ = false

-- `a - b` of two times.
abbrev pub difference : ℕ → ℕ → Number
difference a b = if leb b a then finite false (a - b) 0 else finite true (b - a) 0

-- `a === k` for a natural number.
abbrev pub is_number : ℕ → Number → Bool
is_number k (finite false n d) = n == k * (d + 1)
is_number k (finite true n d) = n == 0 && k == 0
is_number k _ = false

-- The value of a safe integer: its sign and size. `none` if `Number.isSafeInteger(a)` does not hold.
abbrev pub safe_integer : Number → Option (Bool × ℕ)
safe_integer (finite s n d) =
    if n % (d + 1) == 0 && ltb (n / (d + 1)) (2 ^ 53) then some (s, n / (d + 1)) else none
safe_integer _ = none

-- `nonNegativeCount`
unfoldable pub non_negative_count : Number → ℕ
non_negative_count (finite false n d) = n / (d + 1)
non_negative_count _ = 0

abbrev pub or_none {ℓ} : {A : Type ℓ} → Option (List A) → List A
or_none none = []
or_none (some xs) = xs
