-- ===== src/Cache/Room.antt =====
-- The room that `set` makes in the caches of webapp/backend/internal/service/auth.go and
-- webapp/backend/internal/repository/session.go.
use Prim.Native.String.{String}
use text.Mathlib.Text.{◌==◌ as str_eq}
use snake_42tokyo_tuning.Base.{
  ℕ, suc, ◌≤◌, ◌<◌, ◌≡◌, ◌≢◌, refl, sym, ◌∙◌, ap, subst, ◌⊎◌, inl, inr, true, false, none, [], ◌∷◌,
  length, Bool-cases, arith,
}
use snake_42tokyo_tuning.Base.Dict.{
  Dict, lookup, delete, Distinct, lookup-delete, delete-Distinct, length-delete-le,
  length-delete_of_some,
}
use snake_42tokyo_tuning.Cache.Defs.{
  Entry, Cache, Range, is_expired, drop_expired, evict_expired, evict_oldest, is_full, make_room,
}
use snake_42tokyo_tuning.Cache.Evict.{IsRange, unexpired-cases, lookup-evict_expired}
use snake_42tokyo_tuning.Cache.Oldest.{evict_oldest-minimal}

module _ {V : Type 0} where
  -- Between two operations a cache holds each key once, no key is empty, and there are at most
  -- `max_entries` entries, of which there is room for one.
  pub record IsValid (c : Cache V) : Type 0 where
    pub distinct : Distinct c.entries
    pub named : lookup "" c.entries ≡ none
    pub bounded : length c.entries ≤ c.max_entries
    pub positive : 0 < c.max_entries

  -- `m'` holds some of the entries of `m`, and no others.
  abbrev pub Within : Dict (Entry V) → Dict (Entry V) → Type 0
  Within m' m = (k : String) → (lookup k m' ≡ none) ⊎ (lookup k m' ≡ lookup k m)

  delete-Within : (k : String) (m : Dict (Entry V)) → Within (delete k m) m
  delete-Within k m j = elim (Bool-cases (str_eq k j)) [
    | inl same ↦ inl (rw (lookup-delete k j m, same))
    | inr other ↦ inr (rw (lookup-delete k j m, other))
  ]

  Within-trans : (a b c : Dict (Entry V)) → Within a b → Within b c → Within a c
  Within-trans a b c f g k = elim (f k) [
    | inl gone ↦ inl gone
    | inr kept ↦ elim (g k) [ inl gone ↦ inl (kept ∙ gone) | inr same ↦ inr (kept ∙ same) ]
  ]

  pub Within-none :
      (a b : Dict (Entry V)) (k : String) → Within a b → lookup k b ≡ none → lookup k a ≡ none
  Within-none a b k f h = elim (f k) [ inl gone ↦ gone | inr kept ↦ kept ∙ h ]

  drop_expired-Distinct :
      (now : ℕ) (vs m : Dict (Entry V)) → Distinct m → Distinct (drop_expired now vs m)
  unfolding drop_expired
  drop_expired-Distinct now [] m d = d
  drop_expired-Distinct now ((k, e) ∷ vs) m d =
      drop_expired-Distinct now vs _ (ground (arith, delete-Distinct k m))

  length-drop_expired-le :
      (now : ℕ) (vs m : Dict (Entry V)) → length (drop_expired now vs m) ≤ length m
  unfolding drop_expired
  length-drop_expired-le now [] m = omega arith
  length-drop_expired-le now ((k, e) ∷ vs) m = elim (Bool-cases (is_expired now e)) [
    | inl old ↦
        rw old (omega (arith, length-drop_expired-le now vs (delete k m), length-delete-le k m))
    | inr young ↦ rw young (length-drop_expired-le now vs m)
  ]

  module _ (range : Range V) (r : IsRange range) where
    -- What making room does: entries go, none comes, and one more fits.
    pub record IsRoom (c c' : Cache V) : Type 0 where
      pub distinct : Distinct c'.entries
      pub within : Within c'.entries c.entries
      pub room : suc (length c'.entries) ≤ c.max_entries
      pub same_ttl : c'.ttl ≡ c.ttl
      pub same_max : c'.max_entries ≡ c.max_entries

    evict_expired-Within :
        (now : ℕ) (c : Cache V)
        → Distinct c.entries
        → Within (evict_expired range now c).entries c.entries
    evict_expired-Within now c d k =
        subst (λ o. (o ≡ none) ⊎ (o ≡ lookup k c.entries))
          (sym (lookup-evict_expired range r now c k d)) (unexpired-cases now (lookup k c.entries))

    evict_expired-IsValid :
        (now : ℕ) (c : Cache V) → IsValid c → IsValid (evict_expired range now c)
    evict_expired-IsValid now c v = record {
      distinct =
          unfold evict_expired in drop_expired-Distinct now (range c.entries) c.entries v.distinct;
      named =
          Within-none (evict_expired range now c).entries c.entries ""
            (evict_expired-Within now c v.distinct) v.named;
      bounded =
          unfold evict_expired in
          omega (arith, length-drop_expired-le now (range c.entries) c.entries, v.bounded);
      positive = unfold evict_expired in v.positive;
    }

    nonempty_of-full : (c : Cache V) → IsValid c → is_full c ≡ true → c.entries ≢ []
    unfolding is_full
    nonempty_of-full c v full e = absurd (ground (arith, ap length e, v.positive))

    evict_oldest-IsRoom :
        (c : Cache V) → IsValid c → is_full c ≡ true → IsRoom c (evict_oldest range c)
    evict_oldest-IsRoom c v full =
        let (k, e, found, run, _) =
          evict_oldest-minimal range r c v.distinct (nonempty_of-full c v full) v.named in
        rw run (record {
          distinct = delete-Distinct k c.entries v.distinct;
          within = delete-Within k c.entries;
          room = omega (arith, length-delete_of_some k c.entries found, v.bounded);
          same_ttl = refl;
          same_max = refl;
        })

    not_full : (c : Cache V) → is_full c ≡ false → suc (length c.entries) ≤ c.max_entries
    unfolding is_full
    not_full c h = ground arith

    pub make_room-IsRoom : (now : ℕ) (c : Cache V) → IsValid c → IsRoom c (make_room range now c)
    unfolding make_room
    make_room-IsRoom now c v = elim (Bool-cases (is_full c)) [
      | inr space ↦ rw space (record {
        distinct = v.distinct;
        within = λ k. inr refl;
        room = not_full c space;
        same_ttl = refl;
        same_max = refl;
      })
      | inl full ↦ rw full (elim (Bool-cases (is_full (evict_expired range now c))) [
        | inr space ↦ rw space (record {
          distinct = (evict_expired-IsValid now c v).distinct;
          within = evict_expired-Within now c v.distinct;
          room = unfold evict_expired in not_full (evict_expired range now c) space;
          same_ttl = unfold evict_expired in refl;
          same_max = unfold evict_expired in refl;
        })
        | inl still ↦ rw still (
            after (
              evict_oldest-IsRoom (evict_expired range now c) (evict_expired-IsValid now c v)
                still))
      ])
    ]
      where
        after :
            IsRoom (evict_expired range now c) (evict_oldest range (evict_expired range now c))
            → IsRoom c (evict_oldest range (evict_expired range now c))
        after p = record {
          distinct = p.distinct;
          within = Within-trans _ _ _ p.within (evict_expired-Within now c v.distinct);
          room = unfold evict_expired in p.room;
          same_ttl = p.same_ttl ∙ (unfold evict_expired in refl);
          same_max = p.same_max ∙ (unfold evict_expired in refl);
        }
