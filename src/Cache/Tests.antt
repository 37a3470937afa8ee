-- ===== src/Cache/Tests.antt =====
-- The caches on concrete entries.
use Prim.Native.String.{String}
use text.Mathlib.Text.{◌==◌ as str_eq}
use text.Mathlib.TextEquality.{eq_iff}
use mathlib.Core.Option.{some-injective}
use snake_42tokyo_tuning.Base.{
  ℕ, ◌+◌, ◌≤◌, ◌≡◌, ◌≢◌, refl, ap, subst, ◌⊎◌, inl, inr, none, some, [], ◌∷◌, Bool-cases, arith,
}
use snake_42tokyo_tuning.Base.Dict.{Dict, lookup, insert, delete, Distinct}
use snake_42tokyo_tuning.Cache.Defs.{
  Entry, Cache, Range, new_cache, is_expired, forget, get, drop_expired, evict_expired, find_oldest,
  evict_oldest, is_full, make_room, set,
}
use snake_42tokyo_tuning.Cache.Evict.{Has, IsRange, unexpired, lookup-evict_expired}
use snake_42tokyo_tuning.Cache.Oldest.{evict_oldest-minimal}
use snake_42tokyo_tuning.Cache.Room.{IsValid}
use snake_42tokyo_tuning.Cache.Laws.{set-IsValid, lookup-set}
use snake_42tokyo_tuning.Cache.Race.{Write, last_write, start, wrote, get_bounded_staleness}

-- Unfolds the whole cache.
program : Unit {0}
unfolding lookup insert delete new_cache is_expired forget get drop_expired evict_expired
    find_oldest evict_oldest is_full make_room set unexpired last_write
program = tt

-- The loop visits the entries as they are listed.
abbrev in_order : Range ℕ
in_order m = m

Has-lookup :
    (m : Dict (Entry ℕ)) (k : String) (e : Entry ℕ) → Distinct m → Has k e m → lookup k m ≡ some e
unfolding lookup
Has-lookup [] k e d h = absurd h
Has-lookup ((j, x) ∷ m) k e d (inl (same, entry)) = rw ((eq_iff j k).1 same, lookup) (ap some entry)
Has-lookup ((j, x) ∷ m) k e d (inr h) = elim (Bool-cases (str_eq j k)) [
  | inl same ↦
      absurd
        (twice (subst (λ i. lookup i m ≡ none) ((eq_iff j k).0 same) d.0) (Has-lookup m k e d.1 h))
  | inr differs ↦ rw (differs, lookup) (Has-lookup m k e d.1 h)
]
  where
    twice : lookup k m ≡ none → lookup k m ≡ some e → ⊥
    twice a b = absurd (cc)

lookup-Has : (m : Dict (Entry ℕ)) (k : String) (e : Entry ℕ) → lookup k m ≡ some e → Has k e m
unfolding lookup
lookup-Has [] k e h = absurd (cc)
lookup-Has ((j, x) ∷ m) k e h = elim (Bool-cases (str_eq j k)) [
  | inl same ↦ inl ((eq_iff j k).0 same, some-injective _ _ (rw (same, lookup) at h))
  | inr differs ↦ inr (lookup-Has m k e (rw (differs, lookup) at h))
]

in_order-IsRange : IsRange in_order
in_order-IsRange = record { visits = λ m d k e. (Has-lookup m k e d, lookup-Has m k e) }

abbrev entry : ℕ → ℕ → Entry ℕ
entry v t = record { value = v; expires_at = t }

-- Full, with one expired entry at time 5.
abbrev sample : Cache ℕ
sample = record { entries = ("a", entry 1 3) ∷ ("b", entry 2 9) ∷ []; ttl = 10; max_entries = 2 }

sample-IsValid : IsValid sample
unfolding program
sample-IsValid = record {
  distinct = (refl, (refl, tt));
  named = refl;
  bounded = omega arith;
  positive = omega arith;
}

lookup-evict_expired_example :
    lookup "a" (evict_expired in_order 5 sample).entries ≡ unexpired 5 (some (entry 1 3))
unfolding program
lookup-evict_expired_example =
    lookup-evict_expired in_order in_order-IsRange 5 sample "a" (refl, (refl, tt))

evict_oldest-minimal_example :
    (k : String) × (e : Entry ℕ) × (lookup k sample.entries ≡ some e)
    × (evict_oldest in_order sample ≡ record sample { entries = delete k sample.entries })
    × ((j : String) (d : Entry ℕ) → lookup j sample.entries ≡ some d → e.expires_at ≤ d.expires_at)
unfolding program
evict_oldest-minimal_example =
    evict_oldest-minimal in_order in_order-IsRange sample (refl, (refl, tt)) (cc) refl

set-IsValid_example : IsValid (set in_order 5 6 "c" 3 sample)
set-IsValid_example = set-IsValid in_order in_order-IsRange 5 6 "c" 3 sample (cc) sample-IsValid

lookup-set_example :
    (lookup "c" (set in_order 5 6 "c" 3 sample).entries ≡ some (entry 3 16))
    × ((j : String)
        → j ≢ "c"
        → (lookup j (set in_order 5 6 "c" 3 sample).entries ≡ none)
          ⊎ (lookup j (set in_order 5 6 "c" 3 sample).entries ≡ lookup j sample.entries))
lookup-set_example = lookup-set in_order in_order-IsRange 5 6 "c" 3 sample sample-IsValid

-- One write, of the key "a" at time 4.
abbrev write : Write ℕ
write = record { key = "a"; value = 7; at = 4 }

get_bounded_staleness_example :
    (w : Write ℕ) × (last_write "a" (write ∷ []) ≡ some w) × (w.value ≡ 7) × (8 ≤ w.at + 10)
unfolding program
get_bounded_staleness_example =
    get_bounded_staleness in_order in_order-IsRange 10 2 (omega arith) (wrote write 4 (cc) start) 8
      "a" 7 refl
