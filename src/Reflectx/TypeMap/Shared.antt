-- ===== src/Reflectx/TypeMap/Shared.antt =====
-- `TypeMap` of internal/reflectx/reflectx.go in any number of goroutines at a time, over the cache of one
-- mapper. `singleflight` lets one call for a type run the function, and gives its result to others that
-- wait for it; that it lets no second one run at the same time is not needed here. Its key tells
-- any two types apart.
use sqlx_v.Prelude.{
  none, some, List, [], ◌∷◌, ◌++◌, ◌≡◌, refl, subst, inl, inr, arith, All, All-removed,
  All-replaced, Option-cases,
}
use sqlx_v.SyncMap.{load}
use sqlx_v.Value.{GoType, deref}
use sqlx_v.Reflectx.Mapper.{StructMap}
use sqlx_v.Reflectx.Tags.{Setting}
use sqlx_v.Reflectx.Flatten.{Mapped, done, map_type}
use sqlx_v.Reflectx.TypeMap.{type_key, TypeCache, keep, IsCurrent, keep-IsCurrent}

-- Where a call stands: before the first `Load`, before `Do`, in the function before the second `Load` and
-- behind it, in `Do` behind another call, and at its end.
pub data MapPhase : Type 0 where
  loading joining checking mapping waiting : GoType → MapPhase
  returned : GoType → Mapped StructMap → MapPhase

unfoldable pub after_first_load : GoType → TypeCache → MapPhase
after_first_load t cache = elim (load t cache) [ some sm ↦ returned t (done sm) | none ↦ joining t ]

unfoldable pub after_second_load : GoType → TypeCache → MapPhase
after_second_load t cache = elim (load t cache) [
  | some sm ↦ returned t (done sm)
  | none ↦ mapping t
]

-- The cache, and the calls that were made.
pub record Shared : Type 0 where
  pub cache : TypeCache
  pub calls : List MapPhase

abbrev pub no_calls : Shared
no_calls = record { cache = []; calls = [] }

module _ (env : Setting) where
  -- `mapType`, and the `Store`.
  unfoldable pub after_mapping : GoType → TypeCache → MapPhase × TypeCache
  unfolding keep
  after_mapping t cache = let (r, cache') = keep t (map_type env t) cache in (returned t r, cache')

  pub data MapStep : Shared → Shared → Type 0 where
    is_called :
        (w : Shared) (t : GoType) → MapStep w (record w { calls = loading (deref t) ∷ w.calls })
    loads :
        (before after : List MapPhase) (t : GoType) (cache : TypeCache)
        → MapStep
            (record { cache = cache; calls = before ++ loading t ∷ after })
            (record { cache = cache; calls = before ++ after_first_load t cache ∷ after })
    runs :
        (before after : List MapPhase) (t : GoType) (cache : TypeCache)
        → MapStep
            (record { cache = cache; calls = before ++ joining t ∷ after })
            (record { cache = cache; calls = before ++ checking t ∷ after })
    waits :
        (before after : List MapPhase) (t : GoType) (cache : TypeCache)
        → MapStep
            (record { cache = cache; calls = before ++ joining t ∷ after })
            (record { cache = cache; calls = before ++ waiting t ∷ after })
    checks :
        (before after : List MapPhase) (t : GoType) (cache : TypeCache)
        → MapStep
            (record { cache = cache; calls = before ++ checking t ∷ after })
            (record { cache = cache; calls = before ++ after_second_load t cache ∷ after })
    maps :
        (before after : List MapPhase) (t : GoType) (cache : TypeCache)
        → MapStep
            (record { cache = cache; calls = before ++ mapping t ∷ after })
            (record {
              cache = (after_mapping t cache).1;
              calls = before ++ (after_mapping t cache).0 ∷ after;
            })
    shares :
        (before after left right : List MapPhase) (t : GoType) (r : Mapped StructMap)
        (cache : TypeCache)
        → before ++ waiting t ∷ after ≡ left ++ returned t r ∷ right
        → MapStep
            (record { cache = cache; calls = before ++ waiting t ∷ after })
            (record { cache = cache; calls = before ++ returned t r ∷ after })

  pub data SharedReaches : Shared → Type 0 where
    starts : SharedReaches no_calls
    then_step : {v w : Shared} → SharedReaches v → MapStep v w → SharedReaches w

  -- A call that has returned has the result that is its own.
  abbrev IsMapped : MapPhase → Type 0
  IsMapped (returned t r) = r ≡ map_type env t
  IsMapped _ = Unit {0}

  after_first_load-IsMapped :
      (t : GoType) (cache : TypeCache) → IsCurrent env cache → IsMapped (after_first_load t cache)
  unfolding after_first_load
  after_first_load-IsMapped t cache current = elim (Option-cases (load t cache)) [
    | inl miss ↦ rw (miss, after_first_load) tt
    | inr (sm, hit) ↦ rw (hit, after_first_load, current t sm hit) refl
  ]

  after_second_load-IsMapped :
      (t : GoType) (cache : TypeCache) → IsCurrent env cache → IsMapped (after_second_load t cache)
  unfolding after_second_load
  after_second_load-IsMapped t cache current = elim (Option-cases (load t cache)) [
    | inl miss ↦ rw (miss, after_second_load) tt
    | inr (sm, hit) ↦ rw (hit, after_second_load, current t sm hit) refl
  ]

  MapStep-IsMapped :
      {v w : Shared}
      → MapStep v w
      → IsCurrent env v.cache × All IsMapped v.calls
      → IsCurrent env w.cache × All IsMapped w.calls
  unfolding after_mapping
  MapStep-IsMapped (is_called w t) (current, mapped) = (current, (tt, mapped))
  MapStep-IsMapped (loads before after t cache) (current, mapped) = (
    current,
    All-replaced IsMapped before after (loading t) mapped
        (after_first_load-IsMapped t cache current),
  )
  MapStep-IsMapped (runs before after t cache) (current, mapped) =
      (current, All-replaced IsMapped before after (joining t) mapped tt)
  MapStep-IsMapped (waits before after t cache) (current, mapped) =
      (current, All-replaced IsMapped before after (joining t) mapped tt)
  MapStep-IsMapped (checks before after t cache) (current, mapped) = (
    current,
    All-replaced IsMapped before after (checking t) mapped
        (after_second_load-IsMapped t cache current),
  )
  MapStep-IsMapped (maps before after t cache) (current, mapped) =
      let (same, current') = keep-IsCurrent env t (map_type env t) cache refl current in
      (current', All-replaced IsMapped before after (mapping t) mapped same)
  MapStep-IsMapped (shares before after left right t r cache there) (current, mapped) = (
    current,
    All-replaced IsMapped before after (waiting t) mapped
        (All-removed IsMapped left right (subst (All IsMapped) there mapped)).1,
  )

  SharedReaches-IsMapped :
      {w : Shared} → SharedReaches w → IsCurrent env w.cache × All IsMapped w.calls
  SharedReaches-IsMapped starts = ((λ t sm found. absurd (unfold load in ground arith)), tt)
  SharedReaches-IsMapped (then_step r s) = MapStep-IsMapped s (SharedReaches-IsMapped r)

  -- However the calls of `TypeMap` of any number of goroutines interleave, whether a call finds the type in
  -- the cache, maps it, finds it at the second look or gets the result of another call, what it returns
  -- is what `mapType` gives for its type (a pointer is taken off as the call starts), and the cache never
  -- holds anything else.
  pub SharedReaches-map_type :
      (w : Shared) (before after : List MapPhase) (t : GoType) (r : Mapped StructMap)
      → SharedReaches w
      → w.calls ≡ before ++ returned t r ∷ after
      → (r ≡ map_type env t) × IsCurrent env w.cache
  SharedReaches-map_type w before after t r reached there =
      let (current, mapped) = SharedReaches-IsMapped reached in
      ((All-removed IsMapped before after (subst (All IsMapped) there mapped)).1, current)
