-- ===== src/Cache/Defs.antt =====
-- `userCache` of webapp/backend/internal/service/auth.go, over any type of values.
use Prim.Native.String.{String}
use text.Mathlib.Text.{◌==◌ as str_eq}
use snake_42tokyo_tuning.Base.{
  ℕ, ◌+◌, Bool, ◌||◌, Option, none, some, [], ◌∷◌, ltb, leb, if◌then◌else◌, length,
}
use snake_42tokyo_tuning.Base.Dict.{Dict, lookup, insert, delete}

pub record Entry (V : Type 0) : Type 0 where
  pub value : V
  pub expires_at : ℕ

pub record Cache (V : Type 0) : Type 0 where
  pub entries : Dict (Entry V)
  pub ttl : ℕ
  pub max_entries : ℕ

-- The order in which a `range` loop visits a map.
abbrev pub Range : Type 0 → Type 0
Range V = Dict (Entry V) → Dict (Entry V)

module _ {V : Type 0} where
  unfoldable pub new_cache : ℕ → ℕ → Cache V
  new_cache ttl max_entries = record { entries = []; ttl = ttl; max_entries = max_entries }

  -- `now.After(entry.expiresAt)`
  unfoldable pub is_expired : ℕ → Entry V → Bool
  is_expired now entry = ltb entry.expires_at now

  -- The locked part of `get` that deletes an expired entry.
  unfoldable pub forget : String → Cache V → Cache V
  forget key c = record c { entries = delete key c.entries }

  unfoldable pub get : ℕ → String → Cache V → Cache V × Option V
  get now key c = elim (lookup key c.entries) [
    | none ↦ (c, none)
    | some entry ↦ if is_expired now entry then (forget key c, none) else (c, some entry.value)
  ]

  -- The loop of `evictExpiredLocked` over the entries still to visit.
  unfoldable pub drop_expired : ℕ → (visits : Dict (Entry V)) → Dict (Entry V) → Dict (Entry V)
  drop_expired now [] m = m
  drop_expired now ((key, entry) ∷ visits) m =
      drop_expired now visits (if is_expired now entry then delete key m else m)

  unfoldable pub evict_expired : Range V → ℕ → Cache V → Cache V
  evict_expired range now c = record c { entries = drop_expired now (range c.entries) c.entries }

  -- The loop of `evictOldestLocked`: `oldestKey` and `oldestTime`.
  unfoldable pub find_oldest : (visits : Dict (Entry V)) → String → ℕ → String
  find_oldest [] oldest_key oldest_time = oldest_key
  find_oldest ((key, entry) ∷ visits) oldest_key oldest_time =
      let older = str_eq oldest_key "" || ltb entry.expires_at oldest_time in
      find_oldest visits (if older then key else oldest_key)
        (if older then entry.expires_at else oldest_time)

  unfoldable pub evict_oldest : Range V → Cache V → Cache V
  evict_oldest range c =
      let oldest_key = find_oldest (range c.entries) "" 0 in
      if str_eq oldest_key "" then c else record c { entries = delete oldest_key c.entries }

  unfoldable pub is_full : Cache V → Bool
  is_full c = leb c.max_entries (length c.entries)

  -- The room that `set` makes before it writes.
  unfoldable pub make_room : Range V → ℕ → Cache V → Cache V
  make_room range now c =
      if is_full c
      then (let c' = evict_expired range now c in if is_full c' then evict_oldest range c' else c')
      else c

  -- `now` is the time of the eviction, `later` that of the write.
  unfoldable pub set : Range V → (now later : ℕ) → String → V → Cache V → Cache V
  set range now later key value c =
      let c' = make_room range now c in
      record c' {
        entries = insert key (record { value = value; expires_at = later + c.ttl }) c'.entries;
      }
