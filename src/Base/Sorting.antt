-- ===== src/Base/Sorting.antt =====
-- How statements order rows.
use Prim.Native.Nat.{ℕ}
use mathlib.Core.Bool.{◌&&◌, ◌||◌}
use mathlib.Core.List.{List, [], ◌∷◌}
use echohoard.Base.Tests.{if◌then◌else◌, leb, ltb, nat_eq, string_eq, ◌==◌}

-- `ORDER BY time ASC, id ASC`, of rows that show a time and an id.
module _ {R : Type 0} (time id : R → ℕ) where
  unfoldable pub insert_by : R → List R → List R
  insert_by r [] = r ∷ []
  insert_by r (q ∷ rows) =
      if ltb (time r) (time q) || (time r == time q && leb (id r) (id q))
      then r ∷ q ∷ rows
      else q ∷ insert_by r rows

  unfoldable pub sort_by : List R → List R
  unfolding insert_by
  sort_by [] = []
  sort_by (r ∷ rows) = insert_by r (sort_by rows)
