-- ===== src/Live/Wire.antt =====
-- src/application/live-event-intake.ts: how a live event is signed, timed and digested in transit.
pub mod Framing
use echohoard.Base.{
  Bool, List, Option, String, [], all, codes, if◌then◌else◌, leb, length, ltb, nat_eq, none,
  same_units, some, string_eq, suc, take, zero, ℕ, ◌%◌, ◌&&◌, ◌*◌, ◌++◌, ◌+◌, ◌-◌, ◌/◌, ◌==◌, ◌||◌,
  ◌∷◌,
}

-- The bytes of a text in UTF-8.
abbrev pub utf8_bytes : ℕ → List ℕ
utf8_bytes c =
    if ltb c 0x80
    then c ∷ []
    else if ltb c 0x800
    then (0xc0 + c / 0x40) ∷ (0x80 + c % 0x40) ∷ []
    else if ltb c 0x10000
    then (0xe0 + c / 0x1000) ∷ (0x80 + c / 0x40 % 0x40) ∷ (0x80 + c % 0x40) ∷ []
    else (0xf0 + c / 0x40000)
      ∷ (0x80 + c / 0x1000 % 0x40)
      ∷ (0x80 + c / 0x40 % 0x40)
      ∷ (0x80 + c % 0x40)
      ∷ []

unfoldable pub encode : List ℕ → List ℕ
encode [] = []
encode (c ∷ cs) = utf8_bytes c ++ encode cs

unfoldable pub utf8 : String → List ℕ
unfolding encode
utf8 s = encode (codes s)

-- `/^\d{1,12}$/`
abbrev is_digit : ℕ → Bool
is_digit c = leb 48 c && leb c 57

unfoldable pub number_from : ℕ → List ℕ → ℕ
number_from n [] = n
number_from n (c ∷ cs) = number_from (n * 10 + (c - 48)) cs

-- A number of twelve digits is always a safe integer.
unfoldable pub parse_timestamp : Option String → Option ℕ
unfolding number_from
parse_timestamp none = none
parse_timestamp (some s) =
    if leb 1 (length (codes s)) && leb (length (codes s)) 12 && all is_digit (codes s)
    then some (number_from 0 (codes s))
    else none

-- `String(timestamp)` of a number with at most as many digits as there is fuel.
unfoldable pub decimal : ℕ → ℕ → List ℕ
decimal zero n = []
decimal (suc fuel) n =
    let rest = decimal fuel (n / 10) in
    if ltb n 10 then (48 + n) ∷ [] else rest ++ ((48 + n % 10) ∷ [])

-- What `signLiveEvent` hashes: 46 is the dot.
unfoldable pub signed_bytes : List ℕ → ℕ → String → List ℕ
unfolding decimal utf8 encode
signed_bytes body timestamp account_key =
    decimal 12 timestamp ++ (46 ∷ (utf8 account_key ++ (46 ∷ body)))

abbrev pub drop_front : ℕ → List ℕ → List ℕ
drop_front zero cs = cs
drop_front (suc n) [] = []
drop_front (suc n) (c ∷ cs) = drop_front n cs

unfoldable pub is_hex : ℕ → Bool
is_hex c = (leb 48 c && leb c 57) || (leb 97 c && leb c 102)

-- `/^sha256=[0-9a-f]{64}$/`
unfoldable pub is_signature : String → Bool
unfolding is_hex
is_signature header =
    same_units (take 7 (codes header)) (codes "sha256=")
    && (length (codes header) == 71)
    && all is_hex (drop_front 7 (codes header))

abbrev hex_value : ℕ → ℕ
hex_value c = if leb 97 c then c - 87 else c - 48

-- `Buffer.from(text, "hex")` stops at the first pair that is not two digits.
unfoldable pub from_hex : List ℕ → List ℕ
unfolding is_hex
from_hex (a ∷ b ∷ cs) =
    let rest = from_hex cs in
    if is_hex a && is_hex b then (hex_value a * 16 + hex_value b) ∷ rest else []
from_hex _ = []

-- The bytes that `verifySignature` compares.
unfoldable pub supplied_bytes : String → List ℕ
unfolding from_hex is_hex
supplied_bytes header = from_hex (drop_front 7 (codes header))
