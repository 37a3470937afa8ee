-- ===== src/Cache/Lifetime.antt =====
-- The time to live of the session cache of webapp/backend/internal/repository/session.go.
use Prim.Native.String.{String}
use text.Mathlib.Text.{◌==◌ as str_eq}
use snake_42tokyo_tuning.Base.{ℕ, ◌≡◌, refl, inl, inr, Bool-cases, Option-cases}
use snake_42tokyo_tuning.Base.Dict.{lookup}
use snake_42tokyo_tuning.Cache.{
  Cache, Range, get, set, is_expired, forget, make_room, evict_expired, evict_oldest, find_oldest,
  is_full,
}

evict_oldest-ttl : (range : Range ℕ) (c : Cache ℕ) → (evict_oldest range c).ttl ≡ c.ttl
unfolding evict_oldest
evict_oldest-ttl range c = elim (Bool-cases (str_eq (find_oldest (range c.entries) "" 0) "")) [
  | inl none_yet ↦ rw (evict_oldest, none_yet) refl
  | inr oldest ↦ rw (evict_oldest, oldest) refl
]

-- Making room leaves the time to live.
make_room-ttl : (range : Range ℕ) (time : ℕ) (c : Cache ℕ) → (make_room range time c).ttl ≡ c.ttl
unfolding make_room evict_expired evict_oldest
make_room-ttl range time c = elim (Bool-cases (is_full c)) [
  | inr space ↦ rw (make_room, space) refl
  | inl full ↦ elim (Bool-cases (is_full (evict_expired range time c))) [
    | inr space ↦ rw (make_room, full, space) refl
    | inl still ↦ rw (make_room, full, still) (evict_oldest-ttl range (evict_expired range time c))
  ]
]

pub get-ttl : (time : ℕ) (key : String) (c : Cache ℕ) → (get time key c).0.ttl ≡ c.ttl
unfolding get forget
get-ttl time key c = elim (Option-cases (lookup key c.entries)) [
  | inl missing ↦ rw (get, missing) refl
  | inr (e, found) ↦ elim (Bool-cases (is_expired time e)) [
    | inl old ↦ rw (get, found, old) refl
    | inr young ↦ rw (get, found, young) refl
  ]
]

pub set-ttl :
    (range : Range ℕ) (time later : ℕ) (key : String) (id : ℕ) (c : Cache ℕ)
    → (set range time later key id c).ttl ≡ c.ttl
unfolding set
set-ttl range time later key id c = make_room-ttl range time c
