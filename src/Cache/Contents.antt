-- ===== src/Cache/Contents.antt =====
-- What a cache holds was put there: a predicate on keys and entries that holds of every write holds of
-- everything that is cached, whatever is evicted.
use Prim.Native.String.{String}
use text.Mathlib.Text.{◌==◌ as str_eq}
use text.Mathlib.TextEquality.{eq_iff}
use mathlib.Core.Option.{some-injective}
use snake_42tokyo_tuning.Base.{
  ℕ, ◌+◌, ◌≡◌, subst, false, some, [], ◌∷◌, if◌then◌else◌, Bool-cases, Option-cases, inl, inr,
}
use snake_42tokyo_tuning.Base.Dict.{Dict, lookup, insert, delete, lookup-insert, lookup-delete}
use snake_42tokyo_tuning.Cache.Defs.{
  Entry, Cache, Range, is_expired, forget, get, drop_expired, evict_expired, evict_oldest,
  find_oldest, is_full, make_room, set,
}

module _ {ℓ} {V : Type 0} (P : String → Entry V → Type ℓ) where
  -- Every entry of the dictionary satisfies the predicate.
  abbrev pub AllEntries : Dict (Entry V) → Type ℓ
  AllEntries m = (k : String) (e : Entry V) → lookup k m ≡ some e → P k e

  delete-AllEntries : (k : String) (m : Dict (Entry V)) → AllEntries m → AllEntries (delete k m)
  delete-AllEntries k m h j e found = elim (Bool-cases (str_eq k j)) [
    | inl same ↦ absurd (cc (rw (lookup-delete k j m, same) at found))
    | inr other ↦ h j e (rw (lookup-delete k j m, other) at found)
  ]

  drop_expired-AllEntries :
      (now : ℕ) (vs m : Dict (Entry V)) → AllEntries m → AllEntries (drop_expired now vs m)
  unfolding drop_expired
  drop_expired-AllEntries now [] m h = h
  drop_expired-AllEntries now ((k, e) ∷ vs) m h = elim (Bool-cases (is_expired now e)) [
    | inl old ↦ rw old (drop_expired-AllEntries now vs (delete k m) (delete-AllEntries k m h))
    | inr young ↦ rw young (drop_expired-AllEntries now vs m h)
  ]

  evict_oldest-AllEntries :
      (range : Range V) (c : Cache V)
      → AllEntries c.entries
      → AllEntries (evict_oldest range c).entries
  unfolding evict_oldest
  evict_oldest-AllEntries range c h =
      elim (Bool-cases (str_eq (find_oldest (range c.entries) "" 0) "")) [
        | inl nothing ↦ rw nothing h
        | inr oldest ↦
            rw oldest (delete-AllEntries (find_oldest (range c.entries) "" 0) c.entries h)
      ]

  make_room-AllEntries :
      (range : Range V) (now : ℕ) (c : Cache V)
      → AllEntries c.entries
      → AllEntries (make_room range now c).entries
  unfolding make_room evict_expired
  make_room-AllEntries range now c h = elim (Bool-cases (is_full c)) [
    | inr space ↦ rw space h
    | inl full ↦ rw full (elim (Bool-cases (is_full (evict_expired range now c))) [
      | inr space ↦ rw space (drop_expired-AllEntries now (range c.entries) c.entries h)
      | inl still ↦ rw still (
          evict_oldest-AllEntries range (evict_expired range now c)
            (drop_expired-AllEntries now (range c.entries) c.entries h))
    ])
  ]

  pub set-AllEntries :
      (range : Range V) (now later : ℕ) (key : String) (value : V) (c : Cache V)
      → P key (record { value = value; expires_at = later + c.ttl })
      → AllEntries c.entries
      → AllEntries (set range now later key value c).entries
  unfolding set
  set-AllEntries range now later key value c p h j e found = elim (Bool-cases (str_eq key j)) [
    | inl same ↦
        subst (λ i. P i e) ((eq_iff key j).0 same)
          (subst (P key) (some-injective _ _ (rw (read, same) at found)) p)
    | inr other ↦ make_room-AllEntries range now c h j e (rw (read, other) at found)
  ]
    where
      read :
          lookup j (
            insert key
              (record { value = value; expires_at = later + c.ttl })
              (make_room range now c).entries)
          ≡ (if str_eq key j
              then some (record { value = value; expires_at = later + c.ttl })
              else lookup j (make_room range now c).entries)
      read = lookup-insert key j _ _

  -- What `get` returns is the value of an entry that satisfies the predicate and has not expired; what
  -- it leaves satisfies the predicate too.
  pub get-AllEntries :
      (now : ℕ) (key : String) (c : Cache V)
      → AllEntries c.entries
      → AllEntries (get now key c).0.entries
        × ((v : V)
            → (get now key c).1 ≡ some v
            → (e : Entry V) × P key e × (e.value ≡ v) × (is_expired now e ≡ false))
  unfolding get forget
  get-AllEntries now key c h = elim (Option-cases (lookup key c.entries)) [
    | inl missing ↦ rw (missing, get) (h, λ v hit. absurd (cc))
    | inr (e, found) ↦ elim (Bool-cases (is_expired now e)) [
      | inl old ↦ rw (found, get, old) (delete-AllEntries key c.entries h, λ v hit. absurd (cc))
      | inr young ↦
          rw (found, get, young) (h, λ v hit. (e, h key e found, some-injective _ _ hit, young))
    ]
  ]

-- The same for a predicate on the values.
module _ {ℓ} {V : Type 0} (P : String → V → Type ℓ) where
  abbrev pub AllOf : Dict (Entry V) → Type ℓ
  AllOf m = (k : String) (e : Entry V) → lookup k m ≡ some e → P k e.value

  pub set-AllOf :
      (range : Range V) (now later : ℕ) (key : String) (value : V) (c : Cache V)
      → P key value
      → AllOf c.entries
      → AllOf (set range now later key value c).entries
  set-AllOf range now later key value c p h =
      set-AllEntries (λ k e. P k e.value) range now later key value c p h

  pub get-AllOf :
      (now : ℕ) (key : String) (c : Cache V)
      → AllOf c.entries
      → AllOf (get now key c).0.entries × ((v : V) → (get now key c).1 ≡ some v → P key v)
  get-AllOf now key c h =
      let (kept, hit) = get-AllEntries (λ k e. P k e.value) now key c h in
      (kept, λ v found. let (e, p, same, young) = hit v found in subst (P key) same p)
