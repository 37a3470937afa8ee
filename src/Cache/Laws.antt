-- ===== src/Cache/Laws.antt =====
-- `get` and `set` of the caches of webapp/backend/internal/service/auth.go and
-- webapp/backend/internal/repository/session.go.
use Prim.Native.String.{String}
use text.Mathlib.Text.{◌==◌ as str_eq}
use text.Mathlib.TextEquality.{eq_iff}
use mathlib.Core.Option.{some-injective}
use snake_42tokyo_tuning.Base.{
  ℕ, ◌+◌, ◌≤◌, ◌≡◌, ◌≢◌, ◌⊎◌, inl, inr, false, none, some, Bool-cases, Option-cases, ltb→le, arith,
}
use snake_42tokyo_tuning.Base.Dict.{
  lookup, insert, lookup-insert, lookup-insert_self, insert-Distinct, length-insert-le,
}
use snake_42tokyo_tuning.Cache.Defs.{Entry, Cache, Range, is_expired, get, make_room, set}
use snake_42tokyo_tuning.Cache.Evict.{IsRange}
use snake_42tokyo_tuning.Cache.Room.{IsValid, Within-none, make_room-IsRoom}

module _ {V : Type 0} where
  module _ (range : Range V) (r : IsRange range) where
    -- `set` under a key that is not empty keeps a cache valid, if `range` visits each entry: each key
    -- once, no empty key, and no more than `max_entries` entries, which is positive.
    pub set-IsValid :
        (now later : ℕ) (key : String) (value : V) (c : Cache V)
        → key ≢ ""
        → IsValid c
        → IsValid (set range now later key value c)
    unfolding set
    set-IsValid now later key value c ne v =
        let p = make_room-IsRoom range r now c v in
        record {
          distinct = insert-Distinct key _ _ p.distinct;
          named =
              rw
                (
                  lookup-insert key "" (record { value = value; expires_at = later + c.ttl })
                      (make_room range now c).entries,
                  not_empty,
                )
                (Within-none _ _ "" p.within v.named);
          bounded = omega (
            arith,
            length-insert-le key (record { value = value; expires_at = later + c.ttl })
                (make_room range now c).entries,
            p.room,
            p.same_max,
          );
          positive = omega (arith, p.same_max, v.positive);
        }
      where
        not_empty : str_eq key "" ≡ false
        not_empty = ground (arith, eq_iff key "", ne)

    pub set-ttl :
        (now later : ℕ) (key : String) (value : V) (c : Cache V)
        → IsValid c
        → (set range now later key value c).ttl ≡ c.ttl
    unfolding set
    set-ttl now later key value c v = (make_room-IsRoom range r now c v).same_ttl

    -- After `set` on a valid cache, if `range` visits each entry, the key holds the new value until the
    -- time to live after the write, and every other key holds what it held before or nothing.
    pub lookup-set :
        (now later : ℕ) (key : String) (value : V) (c : Cache V)
        → IsValid c
        → (lookup key (set range now later key value c).entries
            ≡ some (record { value = value; expires_at = later + c.ttl }))
          × ((j : String)
              → j ≢ key
              → (lookup j (set range now later key value c).entries ≡ none)
                ⊎ (lookup j (set range now later key value c).entries ≡ lookup j c.entries))
    unfolding set
    lookup-set now later key value c v = (lookup-insert_self key _ _, others)
      where
        e : Entry V
        e = record { value = value; expires_at = later + c.ttl }

        others :
            (j : String)
            → j ≢ key
            → (lookup j (insert key e (make_room range now c).entries) ≡ none)
              ⊎ (lookup j (insert key e (make_room range now c).entries) ≡ lookup j c.entries)
        others j ne =
            rw (lookup-insert key j e (make_room range now c).entries, different)
              ((make_room-IsRoom range r now c v).within j)
          where
            different : str_eq key j ≡ false
            different = ground (arith, eq_iff key j, λ (p : j ≡ key). ne p)

  -- A hit comes from an entry that has not expired.
  pub get-hit :
      (now : ℕ) (k : String) (c : Cache V) {v : V}
      → (get now k c).1 ≡ some v
      → (e : Entry V) × (lookup k c.entries ≡ some e) × (e.value ≡ v) × (now ≤ e.expires_at)
  unfolding get
  get-hit now k c h = elim (Option-cases (lookup k c.entries)) [
    | inl missing ↦ absurd (cc (rw (missing, get) at h))
    | inr (e, found) ↦ elim (Bool-cases (is_expired now e)) [
      | inl old ↦ absurd (cc (rw (found, get, old) at h))
      | inr young ↦ (
        e,
        found,
        some-injective _ _ (rw (found, get, young) at h),
        unfold is_expired in ltb→le e.expires_at now young,
      )
    ]
  ]
