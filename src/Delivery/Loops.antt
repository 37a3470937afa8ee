-- ===== src/Delivery/Loops.antt =====
-- The loops of `selectOrdersForDelivery` that follow the table: the search for the best capacity,
-- the fallback, and the swaps.
use snake_42tokyo_tuning.Base.{
  ℕ, zero, suc, ◌+◌, ◌-◌, ◌≤◌, ◌<◌, ◌≡◌, ◌≢◌, refl, sym, ap, Option, none, some, List, [], ◌∷◌,
  ◌++◌, append_assoc, reverse, subst, arith, ◌⊎◌, inl, inr, length, length-append, get_elem?,
  get_or, set, get_elem?-eq-get_or, get_elem?-append_length, set-append_length, int_min,
  lt_int_small, le_int_small, add_int_small, max_ints, leb, true, false, ltb, Bool-cases, ltb→lt,
  ltb→le, le→ltb, lt→ltb, ok, store-eq-ok,
}
use mathlib.Core.List.{reverse-append}
use native.Mathlib.Decide.{ℕ_discrete}
use snake_42tokyo_tuning.Model.{Order, Error}
use snake_42tokyo_tuning.Delivery.Table.{find_best}
use snake_42tokyo_tuning.Delivery.Select.{better, consider, fallback, swap_ends}
use snake_42tokyo_tuning.Delivery.Spec.{reverse-cons}
use snake_42tokyo_tuning.Delivery.Halves.{AllLe}

module _ (best : List ℕ) (effective_cap : ℕ) (room : effective_cap < max_ints)
    (size : length best ≡ effective_cap + 1) where
  abbrev pub IsMaximal : ℕ → Type 0
  IsMaximal b =
      (b ≤ effective_cap) × ((d : ℕ) → d ≤ effective_cap → get_or best d 0 ≤ get_or best b 0)

  leb→le : (c : ℕ) → leb c effective_cap ≡ true → c ≤ effective_cap
  leb→le c h = ground arith

  leb→lt : (c : ℕ) → leb c effective_cap ≡ false → effective_cap < c
  leb→lt c h = ground arith

  pub find_best-IsMaximal :
      ((d : ℕ) → d ≤ effective_cap → get_or best d 0 < int_min)
      → (fuel c b m : ℕ) → c + fuel ≡ effective_cap + 2
      → c ≤ effective_cap + 1
      → b ≤ effective_cap
      → m ≤ get_or best b 0
      → m < int_min
      → ((d : ℕ) → d < c → get_or best d 0 ≤ m)
      → (b' : ℕ) × (find_best best effective_cap fuel c b m ≡ ok b') × IsMaximal b'
  unfolding find_best
  find_best-IsMaximal small zero c b m e c-le b-le m-le m-lt seen = absurd (omega arith)
  find_best-IsMaximal small (suc fuel) c b m e c-le b-le m-le m-lt seen =
      rw (le_int_small c effective_cap (omega arith) (omega arith))
        (elim (Bool-cases (leb c effective_cap)) [
          | inr past ↦ rw past (b, refl, (b-le, λ d d-le. omega (arith, seen d, leb→lt c past)))
          | inl inside ↦
              let c-in : c ≤ effective_cap = leb→le c inside in
              rw
                (
                  inside,
                  get_elem?-eq-get_or best c 0 (omega arith),
                  lt_int_small m (get_or best c 0) m-lt (small c c-in),
                  add_int_small c 1 (omega arith),
                )
                (elim (Bool-cases (ltb m (get_or best c 0))) [
                  | inl more ↦ rw more (
                      find_best-IsMaximal small fuel (c + 1) c (get_or best c 0) (omega arith)
                        (omega arith) c-in (omega arith) (small c c-in) (raised (ltb→lt _ _ more)))
                  | inr less ↦ rw less (
                      find_best-IsMaximal small fuel (c + 1) b m (omega arith) (omega arith) b-le
                        m-le m-lt (kept (ltb→le _ _ less)))
                ])
        ])
    where
      raised : m < get_or best c 0 → (d : ℕ) → d < c + 1 → get_or best d 0 ≤ get_or best c 0
      raised more d lt = elim (ℕ_discrete d c) [
        | yes same ↦ rw same (omega arith)
        | no other ↦ omega (arith, seen d)
      ]

      kept : get_or best c 0 ≤ m → (d : ℕ) → d < c + 1 → get_or best d 0 ≤ m
      kept less d lt = elim (ℕ_discrete d c) [
        | yes same ↦ rw same less
        | no other ↦ seen d (omega arith)
      ]

module _ (positives : List Order) (effective_cap : ℕ) (small : effective_cap < int_min) where
  -- An index of an order, as `some`.
  abbrev pub Points : Option ℕ → Type 0
  Points none = ⊥
  Points (some k) = (o : Order) × (get_elem? positives k ≡ some o)

  consider-Points :
      (i : ℕ) (o : Order) (found : Option ℕ)
      → get_elem? positives i ≡ some o
      → (found ≡ none) ⊎ Points found
      → (r : Option ℕ) × (consider positives i o found ≡ ok r) × Points r
  unfolding consider
  consider-Points i o none at p = (some i, refl, (o, at))
  consider-Points i o (some k) at (inl e) = absurd (cc)
  consider-Points i o (some k) at (inr (best, e)) = elim (Bool-cases (better o best)) [
    | inl more ↦ (some i, rw (e, more), (o, at))
    | inr less ↦ (some k, rw (e, less), (best, e))
  ]

  pub fallback-Points :
      (before os : List Order) (found : Option ℕ)
      → positives ≡ before ++ os
      → AllLe effective_cap os
      → (os ≢ []) ⊎ Points found
      → (found ≡ none) ⊎ Points found
      → (r : Option ℕ) × (fallback positives effective_cap (length before) os found ≡ ok r)
        × Points r
  unfolding fallback
  fallback-Points before [] found e fit (inl h) p = absurd (h refl)
  fallback-Points before [] found e fit (inr h) p = (found, refl, h)
  fallback-Points before (o ∷ os) found e fit h p =
      let at : get_elem? positives (length before) ≡ some o =
        rw e (get_elem?-append_length before os o) in
      let longer : suc (length before) ≡ length (before ++ o ∷ []) =
        omega (arith, length-append before (o ∷ [])) in
      let (r, run, q) = consider-Points (length before) o found at p in
      let (r', run', q') =
        fallback-Points (before ++ o ∷ []) os r (rw (append_assoc before (o ∷ []) os) e) fit.1
          (inr q) (inr q) in
      (
        r',
        rw
            (
              lt_int_small effective_cap o.weight small (omega arith),
              le→ltb effective_cap o.weight fit.0,
              run,
            )
            (rw longer run'),
        q',
      )

-- A list with its last element named.
snoc-cases :
    (m : ℕ) (xs : List Order)
    → length xs ≡ suc m
    → (inner : List Order) × (z : Order) × (xs ≡ inner ++ z ∷ []) × (length inner ≡ m)
snoc-cases zero (y ∷ []) h = ([], y, refl, refl)
snoc-cases (suc m) (y ∷ ys) h =
    let (inner, z, e, l) = snoc-cases m ys (omega arith) in
    (y ∷ inner, z, ap (◌∷◌ y) e, omega arith)
snoc-cases m xs h = absurd (omega arith)

module _ (a : List Order) (x z : Order) (inner c : List Order) where
  get-back : get_elem? (a ++ (x ∷ (inner ++ z ∷ c))) (length (a ++ x ∷ inner)) ≡ some z
  get-back =
      rw (← append_assoc a (x ∷ inner) (z ∷ c)) (get_elem?-append_length (a ++ x ∷ inner) c z)

  set-back :
      set (a ++ (z ∷ (inner ++ z ∷ c))) (length (a ++ x ∷ inner)) x ≡ a ++ (z ∷ (inner ++ x ∷ c))
  set-back =
      rw (← append_assoc a (z ∷ inner) (z ∷ c), ← append_assoc a (z ∷ inner) (x ∷ c), same)
        (set-append_length (a ++ z ∷ inner) c z x)
    where
      same : length (a ++ x ∷ inner) ≡ length (a ++ z ∷ inner)
      same = omega (arith, length-append a (x ∷ inner), length-append a (z ∷ inner))

  -- One swap.
  swap_ends-step :
      (fuel : ℕ)
      → swap_ends (suc fuel) (length a) (length (a ++ x ∷ inner)) (a ++ (x ∷ (inner ++ z ∷ c)))
        ≡ swap_ends fuel
            (suc (length a))
            (length (a ++ x ∷ inner) - 1)
            (a ++ (z ∷ (inner ++ x ∷ c)))
  unfolding swap_ends
  swap_ends-step fuel = rw (
    lt→ltb (length a) (length (a ++ x ∷ inner)) (omega (arith, length-append a (x ∷ inner))),
    get_elem?-append_length a (inner ++ z ∷ c) x,
    get-back,
    store-eq-ok {E = Error} (a ++ (x ∷ (inner ++ z ∷ c))) (length a) z
        (omega (arith, length-append a (x ∷ (inner ++ z ∷ c)))),
    set-append_length a (inner ++ z ∷ c) x z,
    store-eq-ok {E = Error} (a ++ (z ∷ (inner ++ z ∷ c))) (length (a ++ x ∷ inner)) x (
        omega (
          arith,
          length-append a (x ∷ inner),
          length-append a (z ∷ (inner ++ z ∷ c)),
          length-append inner (z ∷ c),
        )),
    set-back,
  )

  reverse-around : reverse (x ∷ (inner ++ z ∷ [])) ++ c ≡ z ∷ (reverse inner ++ x ∷ c)
  reverse-around = rw (
    reverse-cons x (inner ++ z ∷ []),
    reverse-append inner (z ∷ []),
    append_assoc (reverse inner) (x ∷ []) c,
  )

  -- A swap followed by the swaps inside.
  swap_ends-around :
      (fuel j : ℕ)
      → j ≡ length (a ++ x ∷ inner)
      → ((k : ℕ)
          → k ≡ length (a ++ z ∷ []) + length inner - 1
          → swap_ends fuel (length (a ++ z ∷ [])) k ((a ++ z ∷ []) ++ (inner ++ x ∷ c))
            ≡ ok ((a ++ z ∷ []) ++ (reverse inner ++ x ∷ c)))
      → swap_ends (suc fuel) (length a) j (a ++ ((x ∷ (inner ++ z ∷ [])) ++ c))
        ≡ ok (a ++ (reverse (x ∷ (inner ++ z ∷ [])) ++ c))
  swap_ends-around fuel j e ih =
      rw (reverse-around, e, append_assoc inner (z ∷ []) c, swap_ends-step fuel) inside
    where
      longer : length (a ++ z ∷ []) ≡ suc (length a)
      longer = omega (arith, length-append a (z ∷ []))

      inside :
          swap_ends fuel
            (suc (length a))
            (length (a ++ x ∷ inner) - 1)
            (a ++ (z ∷ (inner ++ x ∷ c)))
          ≡ ok (a ++ (z ∷ (reverse inner ++ x ∷ c)))
      inside =
          rw
            (
              longer,
              append_assoc a (z ∷ []) (inner ++ x ∷ c),
              append_assoc a (z ∷ []) (reverse inner ++ x ∷ c),
            )
            at
            (ih (length (a ++ x ∷ inner) - 1)
              (omega (arith, length-append a (x ∷ inner), length-append a (z ∷ []))))

-- The swaps at the end of `selectOrdersForDelivery`, from the first index of a part of a list to its
-- last, reverse this part and leave the rest, without a panic, with more fuel than the part is long.
pub swap_ends-reverse :
    (fuel : ℕ) (a mid c : List Order) (j : ℕ)
    → length mid < fuel
    → j ≡ length a + length mid - 1
    → swap_ends fuel (length a) j (a ++ (mid ++ c)) ≡ ok (a ++ (reverse mid ++ c))
unfolding swap_ends
swap_ends-reverse zero a mid c j h e = absurd (omega arith)
swap_ends-reverse (suc fuel) a [] c j h e = rw (le→ltb (length a) j (omega arith))
swap_ends-reverse (suc fuel) a (x ∷ []) c j h e = rw (le→ltb (length a) j (omega arith))
swap_ends-reverse (suc fuel) a (x ∷ y ∷ mid) c j h e =
    let (inner, z, whole, l) = snoc-cases (length mid) (y ∷ mid) refl in
    subst
      (λ m.
        swap_ends (suc fuel) (length a) j (a ++ ((x ∷ m) ++ c)) ≡ ok (a ++ (reverse (x ∷ m) ++ c)))
      (sym whole)
      (swap_ends-around a x z inner c fuel j (omega (arith, length-append a (x ∷ inner)))
        (λ k. swap_ends-reverse fuel (a ++ z ∷ []) inner (x ∷ c) k (omega arith)))
