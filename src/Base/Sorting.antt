-- ===== src/Base/Sorting.antt =====
-- The order of a query's rows: `before x y` says that x may go before y. Rows that the order does
-- not tell apart keep the order of the table.
pub mod Selection
use Prim.Native.Nat.{ℕ, zero, suc}
use mathlib.Core.Bool.{Bool, true, false}
use mathlib.Core.Option.{Option, none, some}
use mathlib.Core.List.{List, [], ◌∷◌}
use yitu.Base.Tests.{if◌then◌else◌}

module _ {ℓ} {A : Type ℓ} where
  module _ (before : A → A → Bool) where
    abbrev pub insert_by : A → List A → List A
    insert_by x [] = x ∷ []
    insert_by x (y ∷ ys) = let rest = insert_by x ys in if before x y then x ∷ y ∷ ys else y ∷ rest

    -- `order_by`
    unfoldable pub sort_by : List A → List A
    sort_by [] = []
    sort_by (x ∷ xs) = insert_by x (sort_by xs)

  -- `offset`
  abbrev pub skip : ℕ → List A → List A
  skip zero xs = xs
  skip (suc n) [] = []
  skip (suc n) (x ∷ xs) = skip n xs

  -- `limit`
  abbrev pub limit_to : ℕ → List A → List A
  limit_to zero xs = []
  limit_to (suc n) [] = []
  limit_to (suc n) (x ∷ xs) = x ∷ limit_to n xs

  -- `limit(1)`
  abbrev pub first_of : List A → Option A
  first_of [] = none
  first_of (x ∷ xs) = some x
