-- ===== src/Base/Sorting/Selection.antt =====
-- A query may select its rows before or after it orders them: an order by a number, the largest
-- first, keeps selections.
use Prim.Native.Nat.{ℕ}
use mathlib.Core.Path.{◌≡◌, refl}
use mathlib.Core.Logic.{inl, inr}
use mathlib.Core.Bool.{Bool, true, false, ◌&&◌}
use mathlib.Core.List.{List, [], ◌∷◌}
use native.Mathlib.Omega.{arith}
use yitu.Base.Lists.{select, all_of}
use yitu.Base.Sorting.{insert_by, sort_by}
use yitu.Base.Tests.{leb, Bool-cases}

module _ {A : Type 0} where
  pub select-select :
      (p q : A → Bool) (xs : List A) → select (λ x. p x && q x) xs ≡ select p (select q xs)
  select-select p q [] = refl
  select-select p q (x ∷ xs) = ground (arith, select-select p q xs)

module _ {A : Type 0} (key : A → ℕ) where
  abbrev pub larger : A → A → Bool
  larger x y = leb (key y) (key x)

  abbrev descending : List A → Bool
  descending [] = true
  descending (x ∷ xs) = all_of (larger x) xs && descending xs

  all_of-larger :
      (x y : A) (ys : List A)
      → larger x y ≡ true
      → all_of (larger y) ys ≡ true
      → all_of (larger x) ys ≡ true
  all_of-larger x y [] h a = refl
  all_of-larger x y (z ∷ zs) h a = ground (arith, all_of-larger x y zs)

  all_of-insert :
      (q : A → Bool) (x : A) (ys : List A)
      → q x ≡ true
      → all_of q ys ≡ true
      → all_of q (insert_by larger x ys) ≡ true
  all_of-insert q x [] h a = ground arith
  all_of-insert q x (y ∷ ys) h a = ground (arith, all_of-insert q x ys)

  insert-descending :
      (x : A) (ys : List A) → descending ys ≡ true → descending (insert_by larger x ys) ≡ true
  insert-descending x [] d = refl
  insert-descending x (y ∷ ys) d =
      ground (arith, insert-descending x ys, all_of-larger x y ys, all_of-insert (larger y) x ys)

  sort-descending : (xs : List A) → descending (sort_by larger xs) ≡ true
  unfolding sort_by
  sort-descending [] = refl
  sort-descending (x ∷ xs) = insert-descending x (sort_by larger xs) (sort-descending xs)

  module _ (p : A → Bool) where
    all_of-select :
        (q : A → Bool) (ys : List A) → all_of q ys ≡ true → all_of q (select p ys) ≡ true
    all_of-select q [] a = refl
    all_of-select q (y ∷ ys) a = ground (arith, all_of-select q ys)

    insert_front :
        (x : A) (ys : List A) → all_of (larger x) ys ≡ true → insert_by larger x ys ≡ x ∷ ys
    insert_front x [] a = refl
    insert_front x (y ∷ ys) a = ground arith

    select-insert_hit :
        (x : A) (ys : List A)
        → descending ys ≡ true
        → p x ≡ true
        → select p (insert_by larger x ys) ≡ insert_by larger x (select p ys)
    select-insert_hit x [] d h = ground arith
    select-insert_hit x (y ∷ ys) d h = elim (Bool-cases (larger x y)) [
      | inl l ↦
          let front =
            insert_front x (select p (y ∷ ys))
              (all_of-select (larger x) (y ∷ ys) (ground (arith, all_of-larger x y ys))) in
          ground (arith, front)
      | inr l ↦ ground (arith, select-insert_hit x ys)
    ]

    select-insert_miss :
        (x : A) (ys : List A) → p x ≡ false → select p (insert_by larger x ys) ≡ select p ys
    select-insert_miss x [] h = ground arith
    select-insert_miss x (y ∷ ys) h = ground (arith, select-insert_miss x ys)

    -- The rows of an ordered table that pass a test are the rows that pass it, ordered.
    pub select-sort_by : (xs : List A) → select p (sort_by larger xs) ≡ sort_by larger (select p xs)
    unfolding sort_by
    select-sort_by [] = refl
    select-sort_by (x ∷ xs) = elim (Bool-cases (p x)) [
      | inl h ↦
          ground (
            arith,
            select-sort_by xs,
            select-insert_hit x (sort_by larger xs) (sort-descending xs) h,
          )
      | inr h ↦ ground (arith, select-sort_by xs, select-insert_miss x (sort_by larger xs) h)
    ]
