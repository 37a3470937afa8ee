-- ===== src/Delivery/Spec.antt =====
-- What a delivery is to achieve, stated without the table: sub-lists of the orders, their weights
-- and values, and the recursive 0-1 knapsack value.
use snake_42tokyo_tuning.Base.{
  ℕ, ◌+◌, ◌-◌, ◌≤◌, ◌<◌, max, ◌≡◌, refl, List, [], ◌∷◌, ◌++◌, reverse, length, length-append,
  int_min, append-nil, arith, leb, if◌then◌else◌,
}
use mathlib.Core.List.{reverse-append}
use snake_42tokyo_tuning.Model.{Order}

-- The exact sums.
unfoldable pub weights : List Order → ℕ
weights [] = 0
weights (o ∷ os) = o.weight + weights os

unfoldable pub values : List Order → ℕ
values [] = 0
values (o ∷ os) = o.value + values os

-- `Sub ys xs`: `ys` is `xs` with some orders left out.
pub data Sub : List Order → List Order → Type 0 where
  done : Sub [] []
  skip : {o : Order} {ys xs : List Order} → Sub ys xs → Sub ys (o ∷ xs)
  keep : {o : Order} {ys xs : List Order} → Sub ys xs → Sub (o ∷ ys) (o ∷ xs)

pub Sub-nil : (xs : List Order) → Sub [] xs
Sub-nil [] = done
Sub-nil (x ∷ xs) = skip (Sub-nil xs)

pub Sub-refl : (xs : List Order) → Sub xs xs
Sub-refl [] = done
Sub-refl (x ∷ xs) = keep (Sub-refl xs)

pub Sub-append : {ys xs vs us : List Order} → Sub ys xs → Sub vs us → Sub (ys ++ vs) (xs ++ us)
Sub-append done t = t
Sub-append (skip s) t = skip (Sub-append s t)
Sub-append (keep s) t = keep (Sub-append s t)

pub reverse-cons : (o : Order) (os : List Order) → reverse (o ∷ os) ≡ reverse os ++ o ∷ []
reverse-cons o os = reverse-append (o ∷ []) os

pub Sub-reverse : {ys xs : List Order} → Sub ys xs → Sub (reverse ys) (reverse xs)
Sub-reverse done = done
Sub-reverse (skip {o} {ys} {xs} s) =
    rw (reverse-cons o xs, ← append-nil (reverse ys)) (Sub-append (Sub-reverse s) (Sub-nil _))
Sub-reverse (keep {o} {ys} {xs} s) =
    rw (reverse-cons o xs, reverse-cons o ys) (Sub-append (Sub-reverse s) (Sub-refl _))

pub weights-append : (xs ys : List Order) → weights (xs ++ ys) ≡ weights xs + weights ys
unfolding weights
weights-append [] ys = omega arith
weights-append (x ∷ xs) ys = omega (arith, weights-append xs ys)

pub values-append : (xs ys : List Order) → values (xs ++ ys) ≡ values xs + values ys
unfolding values
values-append [] ys = omega arith
values-append (x ∷ xs) ys = omega (arith, values-append xs ys)

pub weights-reverse : (xs : List Order) → weights (reverse xs) ≡ weights xs
unfolding weights
weights-reverse [] = refl
weights-reverse (x ∷ xs) =
    rw (reverse-cons x xs) (omega (arith, weights-append (reverse xs) (x ∷ []), weights-reverse xs))

pub values-reverse : (xs : List Order) → values (reverse xs) ≡ values xs
unfolding values
values-reverse [] = refl
values-reverse (x ∷ xs) =
    rw (reverse-cons x xs) (omega (arith, values-append (reverse xs) (x ∷ []), values-reverse xs))

pub Sub-weights : {ys xs : List Order} → Sub ys xs → weights ys ≤ weights xs
unfolding weights
Sub-weights done = omega arith
Sub-weights (skip s) = omega (arith, Sub-weights s)
Sub-weights (keep s) = omega (arith, Sub-weights s)

pub Sub-values : {ys xs : List Order} → Sub ys xs → values ys ≤ values xs
unfolding values
Sub-values done = omega arith
Sub-values (skip s) = omega (arith, Sub-values s)
Sub-values (keep s) = omega (arith, Sub-values s)

-- The most that orders of total weight at most `c` are worth.
unfoldable pub knapsack : List Order → ℕ → ℕ
knapsack [] c = 0
knapsack (o ∷ os) c =
    if leb o.weight c
    then max (knapsack os c) (knapsack os (c - o.weight) + o.value)
    else knapsack os c

pub knapsack_mono : (os : List Order) (c d : ℕ) → c ≤ d → knapsack os c ≤ knapsack os d
unfolding knapsack
knapsack_mono [] c d h = omega arith
knapsack_mono (o ∷ os) c d h =
    ground (arith, knapsack_mono os c d, knapsack_mono os (c - o.weight) (d - o.weight))

pub knapsack-le-values : (os : List Order) (c : ℕ) → knapsack os c ≤ values os
unfolding knapsack values
knapsack-le-values [] c = omega arith
knapsack-le-values (o ∷ os) c =
    ground (arith, knapsack-le-values os c, knapsack-le-values os (c - o.weight))

-- No selection within the capacity is worth more.
pub values-le-knapsack :
    {ys xs : List Order} → Sub ys xs → (c : ℕ) → weights ys ≤ c → values ys ≤ knapsack xs c
unfolding knapsack values weights
values-le-knapsack done c h = omega arith
values-le-knapsack (skip {o} {ys} {xs} s) c h = ground (arith, values-le-knapsack s c)
values-le-knapsack (keep {o} {ys} {xs} s) c h = ground (arith, values-le-knapsack s (c - o.weight))

pub knapsack-cons_le :
    (o : Order) (os : List Order) (c : ℕ)
    → o.weight ≤ c
    → knapsack (o ∷ os) c ≡ max (knapsack os c) (knapsack os (c - o.weight) + o.value)
unfolding knapsack
knapsack-cons_le o os c h = ground arith

pub knapsack-cons_lt :
    (o : Order) (os : List Order) (c : ℕ) → c < o.weight → knapsack (o ∷ os) c ≡ knapsack os c
unfolding knapsack
knapsack-cons_lt o os c h = ground arith

-- What the split guarantees of the orders that go into the table.
abbrev pub ArePositive : List Order → Type 0
ArePositive [] = Unit
ArePositive (o ∷ os) = (0 < o.weight) × (o.weight < int_min) × ArePositive os

pub length-reverse : (os : List Order) → length (reverse os) ≡ length os
length-reverse [] = refl
length-reverse (o ∷ os) =
    rw (reverse-cons o os) (omega (arith, length-append (reverse os) (o ∷ []), length-reverse os))
