-- ===== src/Cache/Evict.antt =====
-- The two evictions of the caches of webapp/backend/internal/service/auth.go and
-- webapp/backend/internal/repository/session.go.
use Prim.Native.String.{String}
use text.Mathlib.Text.{◌==◌ as str_eq}
use text.Mathlib.TextEquality.{eq_iff}
use mathlib.Core.Option.{some-injective}
use snake_42tokyo_tuning.Base.{
  ℕ, ◌≡◌, refl, sym, ◌∙◌, subst, ◌↔◌, ◌⊎◌, inl, inr, true, false, Option, none, some, [], ◌∷◌,
  if◌then◌else◌, Bool-cases, Option-cases, arith,
}
use snake_42tokyo_tuning.Base.Dict.{Dict, lookup, delete, Distinct, lookup-delete}
use snake_42tokyo_tuning.Cache.Defs.{Entry, Cache, Range, is_expired, drop_expired, evict_expired}

module _ {V : Type 0} where
  abbrev pub Has : String → Entry V → Dict (Entry V) → Type 0
  Has k e [] = ⊥
  Has k e ((j, d) ∷ m) = ((j ≡ k) × (d ≡ e)) ⊎ Has k e m

  -- What the Go specification says of `range`: the loop visits exactly the entries of the map.
  pub record IsRange (range : Range V) : Type 0 where
    pub visits :
        (m : Dict (Entry V))
        → Distinct m
        → (k : String) (e : Entry V) → Has k e (range m) ↔ (lookup k m ≡ some e)

  -- What is left of the entry of a key when the expired entries go.
  unfoldable pub unexpired : ℕ → Option (Entry V) → Option (Entry V)
  unexpired now none = none
  unexpired now (some e) = if is_expired now e then none else some e

  drop_expired-none :
      (now : ℕ) (k : String) (vs m : Dict (Entry V))
      → lookup k m ≡ none
      → lookup k (drop_expired now vs m) ≡ none
  unfolding drop_expired
  drop_expired-none now k [] m h = h
  drop_expired-none now k ((j, d) ∷ vs) m h =
      drop_expired-none now k vs _ (ground (arith, lookup-delete j k m))

  drop_expired-visited :
      (now : ℕ) (k : String) (e : Entry V) (vs m : Dict (Entry V))
      → Has k e vs
      → is_expired now e ≡ true
      → lookup k (drop_expired now vs m) ≡ none
  unfolding drop_expired
  drop_expired-visited now k e [] m h old = absurd h
  drop_expired-visited now k e ((j, d) ∷ vs) m (inl (same, same')) old =
      drop_expired-none now k vs _ (
        rw (
          subst (λ x. is_expired now x ≡ true) (sym same') old,
          lookup-delete j k m,
          (eq_iff j k).1 same,
        ))
  drop_expired-visited now k e ((j, d) ∷ vs) m (inr h) old = drop_expired-visited now k e vs _ h old

  drop_expired-kept :
      (now : ℕ) (k : String) (vs m : Dict (Entry V))
      → ((d : Entry V) → Has k d vs → is_expired now d ≡ false)
      → lookup k (drop_expired now vs m) ≡ lookup k m
  unfolding drop_expired
  drop_expired-kept now k [] m fresh = refl
  drop_expired-kept now k ((j, d) ∷ vs) m fresh = elim (Bool-cases (is_expired now d)) [
    | inl old ↦ rw old (drop_expired-kept now k vs _ (λ e h. fresh e (inr h)) ∙ deleted old)
    | inr young ↦ rw young (drop_expired-kept now k vs _ (λ e h. fresh e (inr h)))
  ]
    where
      deleted : is_expired now d ≡ true → lookup k (delete j m) ≡ lookup k m
      deleted old = elim (Bool-cases (str_eq j k)) [
        | inl same ↦ absurd (cc (fresh d (inl ((eq_iff j k).0 same, refl))))
        | inr other ↦ rw (lookup-delete j k m, other)
      ]

  module _ (range : Range V) (r : IsRange range) where
    -- In a map that holds each key once, `evictExpiredLocked` keeps exactly the entries that have not
    -- expired, in whatever order `range` visits the entries.
    pub lookup-evict_expired :
        (now : ℕ) (c : Cache V) (k : String)
        → Distinct c.entries
        → lookup k (evict_expired range now c).entries ≡ unexpired now (lookup k c.entries)
    unfolding evict_expired unexpired
    lookup-evict_expired now c k d = elim (Option-cases (lookup k c.entries)) [
      | inl missing ↦ rw (missing, drop_expired-none now k (range c.entries) c.entries missing)
      | inr (e, found) ↦ elim (Bool-cases (is_expired now e)) [
        | inl old ↦ rw (
          found,
          old,
          drop_expired-visited now k e (range c.entries) c.entries
              ((r.visits c.entries d k e).1 found) old,
        )
        | inr young ↦
            rw (found, unexpired, young)
              (drop_expired-kept now k (range c.entries) c.entries (λ d' h.
                  subst (λ x. is_expired now x ≡ false)
                    (some-injective e d' (sym found ∙ (r.visits c.entries d k d').0 h)) young)
                ∙ found)
      ]
    ]

  pub unexpired-cases :
      (now : ℕ) (o : Option (Entry V)) → (unexpired now o ≡ none) ⊎ (unexpired now o ≡ o)
  unfolding unexpired
  unexpired-cases now none = inl refl
  unexpired-cases now (some e) = elim (Bool-cases (is_expired now e)) [
    | inl old ↦ inl (rw old)
    | inr young ↦ inr (rw young)
  ]
