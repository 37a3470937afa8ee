-- ===== src/Cache/Oldest.antt =====
-- `evictOldestLocked` of webapp/backend/internal/service/auth.go: which entry it takes.
use Prim.Native.String.{String}
use text.Mathlib.Text.{◌==◌ as str_eq}
use text.Mathlib.TextEquality.{eq_iff}
use text.Mathlib.TextPositions.{eq_refl}
use snake_42tokyo_tuning.Base.{
  ℕ, ◌≤◌, ◌≡◌, ◌≢◌, refl, sym, subst, ◌⊎◌, inl, inr, false, none, some, [], ◌∷◌, ltb, Bool-cases,
  ltb→lt, ltb→le, arith,
}
use snake_42tokyo_tuning.Base.Dict.{Dict, lookup, delete, Distinct}
use snake_42tokyo_tuning.Cache.Defs.{Entry, Cache, Range, find_oldest, evict_oldest}
use snake_42tokyo_tuning.Cache.Evict.{Has, IsRange}

module _ {V : Type 0} where
  -- The loop ends with a key that it holds or visits, whose time no other undercuts.
  record IsOldest (vs : Dict (Entry V)) (key : String) (time : ℕ) (result : String) : Type 0 where
    least : ℕ
    source :
        ((result ≡ key) × (least ≡ time))
        ⊎ ((e : Entry V) × Has result e vs × (e.expires_at ≡ least))
    below : least ≤ time
    minimal : (j : String) (d : Entry V) → Has j d vs → least ≤ d.expires_at

  find_oldest-IsOldest :
      (vs : Dict (Entry V)) (key : String) (time : ℕ)
      → key ≢ ""
      → ((d : Entry V) → ¬ Has "" d vs)
      → IsOldest vs key time (find_oldest vs key time)
  unfolding find_oldest
  find_oldest-IsOldest [] key time ne named = record {
    least = time;
    source = inl (refl, refl);
    below = omega arith;
    minimal = λ j d h. absurd h;
  }
  find_oldest-IsOldest ((k, e) ∷ vs) key time ne named = elim (Bool-cases (ltb e.expires_at time)) [
    | inl older ↦
        rw (not_empty, older)
          (step_older (omega (arith, ltb→lt e.expires_at time older)) (
            find_oldest-IsOldest vs k e.expires_at (λ empty. named e (inl (empty, refl)))
              (λ d h. named d (inr h))))
    | inr newer ↦
        rw (not_empty, newer)
          (step_newer (ltb→le _ _ newer)
            (find_oldest-IsOldest vs key time ne (λ d h. named d (inr h))))
  ]
    where
      not_empty : str_eq key "" ≡ false
      not_empty = ground (arith, eq_iff key "", ne)

      step_older :
          {result : String}
          → e.expires_at ≤ time
          → IsOldest vs k e.expires_at result
          → IsOldest ((k, e) ∷ vs) key time result
      step_older h p = record {
        least = p.least;
        source = elim p.source [
          | inl (same, at) ↦ inr (e, inl (sym same, refl), sym at)
          | inr (d, has, at) ↦ inr (d, inr has, at)
        ];
        below = omega (arith, p.below);
        minimal = λ j d has. elim has [
          | inl (_, same) ↦ subst (λ (x : Entry V). p.least ≤ x.expires_at) same p.below
          | inr later ↦ p.minimal j d later
        ];
      }

      step_newer :
          {result : String}
          → time ≤ e.expires_at
          → IsOldest vs key time result
          → IsOldest ((k, e) ∷ vs) key time result
      step_newer h p = record {
        least = p.least;
        source = elim p.source [ inl same ↦ inl same | inr (d, has, at) ↦ inr (d, inr has, at) ];
        below = p.below;
        minimal = λ j d has. elim has [
          | inl (_, same) ↦
              subst (λ (x : Entry V). p.least ≤ x.expires_at) same (omega (arith, p.below))
          | inr later ↦ p.minimal j d later
        ];
      }

  -- From the start of the loop, over at least one entry.
  find_oldest_start :
      (vs : Dict (Entry V))
      → vs ≢ []
      → ((d : Entry V) → ¬ Has "" d vs)
      → (e : Entry V) × Has (find_oldest vs "" 0) e vs
        × ((j : String) (d : Entry V) → Has j d vs → e.expires_at ≤ d.expires_at)
  unfolding find_oldest
  find_oldest_start [] h named = absurd (h refl)
  find_oldest_start ((k, e) ∷ vs) h named =
      let p =
        find_oldest-IsOldest vs k e.expires_at (λ empty. named e (inl (empty, refl)))
          (λ d has. named d (inr has)) in
      elim p.source [
        | inl (same, at) ↦ (
          e,
          inl (sym same, refl),
          λ j d has. elim has [
            | inl (_, eq) ↦ subst (λ (x : Entry V). e.expires_at ≤ x.expires_at) eq (omega arith)
            | inr later ↦ omega (arith, p.minimal j d later, at)
          ],
        )
        | inr (e', has', at) ↦ (
          e',
          inr has',
          λ j d has. elim has [
            | inl (_, eq) ↦
                subst (λ (x : Entry V). e'.expires_at ≤ x.expires_at) eq
                  (omega (arith, p.below, at))
            | inr later ↦ omega (arith, p.minimal j d later, at)
          ],
        )
      ]

  some_key : (m : Dict (Entry V)) → m ≢ [] → (k : String) × (e : Entry V) × (lookup k m ≡ some e)
  unfolding lookup
  some_key [] h = absurd (h refl)
  some_key ((k, e) ∷ m) h = (k, e, rw (eq_refl k))

  -- From a map that is not empty, holds each key once and has no empty key, `evictOldestLocked`
  -- deletes the entry of one key, and no entry expires before that one, in whatever order `range`
  -- visits the entries.
  pub evict_oldest-minimal :
      (range : Range V)
      → IsRange range
      → (c : Cache V) → Distinct c.entries
      → c.entries ≢ []
      → lookup "" c.entries ≡ none
      → (k : String) × (e : Entry V) × (lookup k c.entries ≡ some e)
        × (evict_oldest range c ≡ record c { entries = delete k c.entries })
        × ((j : String) (d : Entry V) → lookup j c.entries ≡ some d → e.expires_at ≤ d.expires_at)
  unfolding evict_oldest
  evict_oldest-minimal range r c distinct some_entry named =
      let (e, has, minimal) = find_oldest_start (range c.entries) (nonempty some_entry) no_empty in
      (
        find_oldest (range c.entries) "" 0,
        e,
        (r.visits c.entries distinct _ e).0 has,
        rw (named_key _ ((r.visits c.entries distinct _ e).0 has)),
        λ j d found. minimal j d ((r.visits c.entries distinct j d).1 found),
      )
    where
      no_empty : (d : Entry V) → ¬ Has "" d (range c.entries)
      no_empty d has = cc ((r.visits c.entries distinct "" d).0 has)

      nonempty : c.entries ≢ [] → range c.entries ≢ []
      nonempty h empty =
          let (k, e, found) = some_key c.entries h in
          subst (λ vs. Has k e vs) empty ((r.visits c.entries distinct k e).1 found)

      named_key : (k : String) {e : Entry V} → lookup k c.entries ≡ some e → str_eq k "" ≡ false
      named_key k {e} found = elim (Bool-cases (str_eq k "")) [
        | inl empty ↦
            absurd (cc (subst (λ j. lookup j c.entries ≡ some e) ((eq_iff k "").0 empty) found))
        | inr other ↦ other
      ]
