-- ===== src/Cache/Race.antt =====
-- Concurrent use of a cache: goroutines interleave whole critical sections of `mx`. `get` reads under
-- `RLock`, and deletes an expired entry under a later `Lock`, when another goroutine may have written
-- the key anew.
use Prim.Native.String.{String}
use text.Mathlib.Text.{◌==◌ as str_eq}
use text.Mathlib.TextEquality.{eq_iff}
use text.Mathlib.TextPositions.{eq_refl}
use mathlib.Core.Option.{some-injective}
use snake_42tokyo_tuning.Base.{
  ℕ, ◌+◌, ◌≤◌, ◌<◌, ◌≡◌, ◌≢◌, refl, sym, ◌∙◌, ap, subst, ◌⊎◌, inl, inr, true, false, Option, none,
  some, List, [], ◌∷◌, if◌then◌else◌, Bool-cases, arith,
}
use snake_42tokyo_tuning.Base.Dict.{
  lookup, delete, lookup-delete, delete-Distinct, length-delete-le,
}
use snake_42tokyo_tuning.Cache.Defs.{Entry, Cache, Range, new_cache, forget, get, set}
use snake_42tokyo_tuning.Cache.Evict.{IsRange}
use snake_42tokyo_tuning.Cache.Room.{IsValid}
use snake_42tokyo_tuning.Cache.Laws.{set-IsValid, set-ttl, lookup-set, get-hit}

-- A `set` that has happened: its key, its value and the time of its write.
pub record Write (V : Type 0) : Type 0 where
  pub key : String
  pub value : V
  pub at : ℕ

module _ {V : Type 0} where
  -- The latest write of a key, in a history whose latest write stands first.
  unfoldable pub last_write : String → List (Write V) → Option (Write V)
  last_write k [] = none
  last_write k (w ∷ ws) = if str_eq w.key k then some w else last_write k ws

  -- The caches that critical sections, in any order, make of a new one, with the writes so far. Any
  -- goroutine may delete any key at any time: what it read before may be out of date.
  pub data Reach (range : Range V) (ttl max_entries : ℕ) : List (Write V) → Cache V → Type 0 where
    start : Reach range ttl max_entries [] (new_cache ttl max_entries)
    wrote :
        {ws : List (Write V)} {c : Cache V} (w : Write V) (now : ℕ)
        → w.key ≢ ""
        → Reach range ttl max_entries ws c
        → Reach range ttl max_entries (w ∷ ws) (set range now w.at w.key w.value c)
    forgot :
        {ws : List (Write V)} {c : Cache V} (k : String)
        → Reach range ttl max_entries ws c
        → Reach range ttl max_entries ws (forget k c)

  -- An entry stands for the latest write of its key.
  abbrev pub Recorded : ℕ → List (Write V) → Cache V → String → Type 0
  Recorded ttl ws c k =
      (lookup k c.entries ≡ none)
      ⊎ ((w : Write V) × (last_write k ws ≡ some w)
          × (lookup k c.entries ≡ some (record { value = w.value; expires_at = w.at + ttl })))

  pub record IsSound (ttl : ℕ) (ws : List (Write V)) (c : Cache V) : Type 0 where
    pub valid : IsValid c
    pub same_ttl : c.ttl ≡ ttl
    pub recorded : (k : String) → Recorded ttl ws c k

  module _ (range : Range V) (r : IsRange range) (ttl max_entries : ℕ)
      (positive : 0 < max_entries) where
    new_cache-IsSound : IsSound ttl [] (new_cache {V = V} ttl max_entries)
    unfolding new_cache lookup
    new_cache-IsSound = record {
      valid = record { distinct = tt; named = refl; bounded = omega arith; positive = positive };
      same_ttl = refl;
      recorded = λ k. inl refl;
    }

    forget-IsSound :
        (k : String) (ws : List (Write V)) (c : Cache V)
        → IsSound ttl ws c
        → IsSound ttl ws (forget k c)
    unfolding forget
    forget-IsSound k ws c s = record {
      valid = record {
        distinct = delete-Distinct k c.entries s.valid.distinct;
        named = gone "" (inl s.valid.named);
        bounded = omega (arith, length-delete-le k c.entries, s.valid.bounded);
        positive = s.valid.positive;
      };
      same_ttl = s.same_ttl;
      recorded = λ j. elim (Bool-cases (str_eq k j)) [
        | inl same ↦ inl (gone j (inr same))
        | inr other ↦
            subst
              (λ o.
                (o ≡ none)
                ⊎ ((w : Write V) × (last_write j ws ≡ some w)
                    × (o ≡ some (record { value = w.value; expires_at = w.at + ttl }))))
              (sym (kept j other)) (s.recorded j)
      ];
    }
      where
        gone :
            (j : String)
            → (lookup j c.entries ≡ none) ⊎ (str_eq k j ≡ true)
            → lookup j (delete k c.entries) ≡ none
        gone j (inl h) = ground (arith, lookup-delete k j c.entries)
        gone j (inr h) = rw (lookup-delete k j c.entries, h)

        kept :
            (j : String) → str_eq k j ≡ false → lookup j (delete k c.entries) ≡ lookup j c.entries
        kept j other = rw (lookup-delete k j c.entries, other)

    set-IsSound :
        (w : Write V) (now : ℕ) (ws : List (Write V)) (c : Cache V)
        → w.key ≢ ""
        → IsSound ttl ws c
        → IsSound ttl (w ∷ ws) (set range now w.at w.key w.value c)
    set-IsSound w now ws c ne s = record {
      valid = set-IsValid range r now w.at w.key w.value c ne s.valid;
      same_ttl = set-ttl range r now w.at w.key w.value c s.valid ∙ s.same_ttl;
      recorded = λ j. elim (Bool-cases (str_eq w.key j)) [
        | inl same ↦ subst (Recorded ttl (w ∷ ws) after) ((eq_iff w.key j).0 same) newest
        | inr other ↦ older j other
      ];
    }
      where
        after : Cache V
        after = set range now w.at w.key w.value c

        read :
            (lookup w.key after.entries
              ≡ some (record { value = w.value; expires_at = w.at + c.ttl }))
            × ((j : String)
                → j ≢ w.key
                → (lookup j after.entries ≡ none) ⊎ (lookup j after.entries ≡ lookup j c.entries))
        read = lookup-set range r now w.at w.key w.value c s.valid

        newest : Recorded ttl (w ∷ ws) after w.key
        newest = inr (
          w,
          unfold last_write in rw (eq_refl w.key),
          read.0 ∙ ap (λ t. some (record { value = w.value; expires_at = w.at + t })) s.same_ttl,
        )

        older : (j : String) → str_eq w.key j ≡ false → Recorded ttl (w ∷ ws) after j
        older j other = elim (read.1 j (λ e. cc ((eq_iff w.key j).1 (sym e)))) [
          | inl gone ↦ inl gone
          | inr kept ↦ elim (s.recorded j) [
            | inl missing ↦ inl (kept ∙ missing)
            | inr (w', last, entry) ↦ inr (w', (unfold last_write in rw (other) last), kept ∙ entry)
          ]
        ]

    pub Reach-IsSound :
        {ws : List (Write V)} {c : Cache V} → Reach range ttl max_entries ws c → IsSound ttl ws c
    Reach-IsSound start = new_cache-IsSound
    Reach-IsSound (wrote w now ne h) = set-IsSound w now _ _ ne (Reach-IsSound h)
    Reach-IsSound (forgot k h) = forget-IsSound k _ _ (Reach-IsSound h)

    -- In a cache that critical sections in any order have made of a new one with room for an entry,
    -- by writes under keys that are not empty and by deletions, a value that `get` returns is that of
    -- the latest write of its key, and that write is at most the time to live old. `range` visits each
    -- entry.
    pub get_bounded_staleness :
        {ws : List (Write V)} {c : Cache V}
        → Reach range ttl max_entries ws c
        → (now : ℕ) (k : String) (v : V) → (get now k c).1 ≡ some v
        → (w : Write V) × (last_write k ws ≡ some w) × (w.value ≡ v) × (now ≤ w.at + ttl)
    get_bounded_staleness {c} h now k v hit =
        let (e, found, same, fresh) = get-hit now k c hit in
        elim ((Reach-IsSound h).recorded k) [
          | inl missing ↦ absurd (cc)
          | inr (w, last, entry) ↦
              let known : e ≡ record { value = w.value; expires_at = w.at + ttl } =
                some-injective _ _ (sym found ∙ entry) in
              (
                w,
                last,
                sym (ap (λ (x : Entry V). x.value) known) ∙ same,
                subst (λ (x : Entry V). now ≤ x.expires_at) known fresh,
              )
        ]
