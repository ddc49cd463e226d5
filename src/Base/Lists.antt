-- ===== src/Base/Lists.antt =====
-- Lists as database tables: rows in the order they were inserted, found, updated and chosen by a
-- Boolean test (a `WHERE` clause), and put in order by a Boolean comparison (an `ORDER BY` clause).
use bcars_portal.Base.Tests.{if◌then◌else◌}
use Prim.Native.Nat.{ℕ, suc, max}
use mathlib.Core.Bool.{Bool, false, ◌||◌}
use mathlib.Core.Option.{Option, none, some}
use mathlib.Core.List.{List, [], ◌∷◌}

module _ {ℓ} {A : Type ℓ} where
  abbrev pub length : List A → ℕ
  length [] = 0
  length (x ∷ xs) = suc (length xs)

  -- the first row that passes
  unfoldable pub find_by : (A → Bool) → List A → Option A
  find_by p [] = none
  find_by p (x ∷ xs) = if p x then some x else find_by p xs

  -- all rows that pass
  unfoldable pub select : (A → Bool) → List A → List A
  select p [] = []
  select p (x ∷ xs) = let rest = select p xs in if p x then x ∷ rest else rest

  -- `UPDATE`: rewrites the rows that pass
  unfoldable pub update_where : (A → Bool) → (A → A) → List A → List A
  update_where p f [] = []
  update_where p f (x ∷ xs) = (if p x then f x else x) ∷ update_where p f xs

  -- `DELETE`: drops the rows that pass
  unfoldable pub delete_where : (A → Bool) → List A → List A
  delete_where p [] = []
  delete_where p (x ∷ xs) = let rest = delete_where p xs in if p x then rest else x ∷ rest

  unfoldable pub exists_by : (A → Bool) → List A → Bool
  exists_by p [] = false
  exists_by p (x ∷ xs) = p x || exists_by p xs

  unfoldable pub insert_by : (A → A → Bool) → A → List A → List A
  insert_by before x [] = x ∷ []
  insert_by before x (y ∷ ys) = if before y x then y ∷ insert_by before x ys else x ∷ y ∷ ys

  -- `ORDER BY`: a stable insertion sort; `before y x` is "y may stay in front of x"
  unfoldable pub order_by : (A → A → Bool) → List A → List A
  unfolding insert_by
  order_by before [] = []
  order_by before (x ∷ xs) = insert_by before x (order_by before xs)

  abbrev pub head? : List A → Option A
  head? [] = none
  head? (x ∷ xs) = some x

  abbrev pub All {κ} : (A → Type κ) → List A → Type κ
  All P [] = Unit
  All P (x ∷ xs) = P x × All P xs

-- The largest key, 0 for no row.
unfoldable pub max_of {ℓ} : {A : Type ℓ} → (A → ℕ) → List A → ℕ
max_of key [] = 0
max_of key (x ∷ xs) = max (key x) (max_of key xs)
