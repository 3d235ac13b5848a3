-- ===== src/Base/Table.antt =====
-- A database table as the list of its rows, in the order in which they were added: the row with a
-- key, the change of that row, and the row with the largest value of a column.
use Prim.Native.Nat.{ℕ}
use mathlib.Core.Path.{◌≡◌, refl}
use mathlib.Core.Logic.{◌≢◌}
use mathlib.Core.Bool.{true}
use mathlib.Core.Option.{Option, none, some}
use mathlib.Core.List.{List, [], ◌∷◌, ◌++◌}
use native.Mathlib.Omega.{arith}
use yitu.Base.Tests.{ltb, ◌==◌, if◌then◌else◌, is_some, ==_self}

module _ {ℓ} {A : Type ℓ} (key : A → ℕ) where
  unfoldable pub by_key : ℕ → List A → Option A
  by_key k [] = none
  by_key k (x ∷ xs) = if key x == k then some x else by_key k xs

  -- The row with the key is given anew.
  unfoldable pub put_row : A → List A → List A
  put_row r [] = []
  put_row r (x ∷ xs) = (if key x == key r then r else x) ∷ put_row r xs

  -- The first row whose value no later row exceeds.
  abbrev pub latest_by : List A → Option A
  latest_by [] = none
  latest_by (x ∷ xs) = elim (latest_by xs) [
    | none ↦ some x
    | some y ↦ if ltb (key x) (key y) then some y else some x
  ]

  pub by_key-put_row_self :
      (r : A) (xs : List A)
      → is_some (by_key (key r) xs) ≡ true
      → by_key (key r) (put_row r xs) ≡ some r
  unfolding by_key put_row
  by_key-put_row_self r [] h = cc
  by_key-put_row_self r (x ∷ xs) h = ground (arith, by_key-put_row_self r xs)

  pub by_key-put_row_ne :
      (k : ℕ) (r : A) (xs : List A) → k ≢ key r → by_key k (put_row r xs) ≡ by_key k xs
  unfolding by_key put_row
  by_key-put_row_ne k r [] h = refl
  by_key-put_row_ne k r (x ∷ xs) h = ground (arith, by_key-put_row_ne k r xs)

  pub by_key_found : (k : ℕ) (xs : List A) {r : A} → by_key k xs ≡ some r → key r ≡ k
  unfolding by_key
  by_key_found k [] h = cc
  by_key_found k (x ∷ xs) {r} h = ground (arith, by_key_found k xs {r = r})

  pub by_key-append :
      (k : ℕ) (xs ys : List A) {r : A} → by_key k xs ≡ some r → by_key k (xs ++ ys) ≡ some r
  unfolding by_key
  by_key-append k [] ys h = cc
  by_key-append k (x ∷ xs) ys {r} h = ground (arith, by_key-append k xs ys {r = r})

  pub by_key-snoc_new :
      (r : A) (xs : List A) → by_key (key r) xs ≡ none → by_key (key r) (xs ++ r ∷ []) ≡ some r
  unfolding by_key
  by_key-snoc_new r [] h = ground (arith, ==_self (key r))
  by_key-snoc_new r (x ∷ xs) h = ground (arith, by_key-snoc_new r xs)

  pub by_key-snoc_ne :
      (k : ℕ) (r : A) (xs : List A) → k ≢ key r → by_key k (xs ++ r ∷ []) ≡ by_key k xs
  unfolding by_key
  by_key-snoc_ne k r [] h = ground arith
  by_key-snoc_ne k r (x ∷ xs) h = ground (arith, by_key-snoc_ne k r xs)
