-- ===== src/Common/Rows.antt =====
-- A table as the list of its rows, and what SQL statements do to it: SELECT with a condition,
-- ORDER BY with LIMIT 1, UPDATE, and the number of rows that a condition fits.
use Prim.Native.Nat.{ℕ, suc, ◌+◌}
use mathlib.Core.Bool.{Bool, false, ◌||◌}
use mathlib.Core.List.{List, [], ◌∷◌}
use mathlib.Core.Option.{Option, none, some}
use umodel_sre_rca.Common.Tests.{if◌then◌else◌}

module _ {ℓ} {A : Type ℓ} where
  abbrev pub length : List A → ℕ
  length [] = 0
  length (x ∷ xs) = suc (length xs)

  abbrev pub All {κ} : (A → Type κ) → List A → Type κ
  All P [] = Unit
  All P (x ∷ xs) = P x × All P xs

  -- SELECT … WHERE p, for its first row
  unfoldable pub find_where : (A → Bool) → List A → Option A
  find_where p [] = none
  find_where p (x ∷ xs) = if p x then some x else find_where p xs

  -- EXISTS (SELECT 1 … WHERE p)
  unfoldable pub exists_where : (A → Bool) → List A → Bool
  exists_where p [] = false
  exists_where p (x ∷ xs) = p x || exists_where p xs

  -- The number of rows that p fits: RowsAffected of an UPDATE … WHERE p.
  unfoldable pub count_where : (A → Bool) → List A → ℕ
  count_where p [] = 0
  count_where p (x ∷ xs) = (if p x then 1 else 0) + count_where p xs

  -- UPDATE … SET f WHERE p
  unfoldable pub update_where : (A → Bool) → (A → A) → List A → List A
  update_where p f [] = []
  update_where p f (x ∷ xs) = (if p x then f x else x) ∷ update_where p f xs

  unfoldable pub better : (A → A → Bool) → A → Option A → Option A
  better before x none = some x
  better before x (some y) = if before y x then some y else some x

  -- SELECT … WHERE p ORDER BY before LIMIT 1
  unfoldable pub first_by : (A → A → Bool) → (A → Bool) → List A → Option A
  unfolding better
  first_by before p [] = none
  first_by before p (x ∷ xs) =
      let rest = first_by before p xs in if p x then better before x rest else rest
