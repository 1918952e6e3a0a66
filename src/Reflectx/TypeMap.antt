-- ===== src/Reflectx/TypeMap.antt =====
-- `TypeMap` with the mapper's cache, as a sequence of calls; Shared has the calls of many goroutines, which
-- `singleflight` joins.
pub mod Shared
use sqlx_v.Prelude.{
  none, some, List, [], ◌∷◌, ◌≡◌, refl, sym, inl, inr, arith, map, Option-cases, ap₂,
}
use sqlx_v.SyncMap.{Eq, load, store, store-holds}
use sqlx_v.Value.{GoType, deref, type_eq, type_eq_iff}
use sqlx_v.Reflectx.Mapper.{StructMap}
use sqlx_v.Reflectx.Tags.{Setting}
use sqlx_v.Reflectx.Flatten.{Mapped, done, panicked, no_fuel, map_type}

instance abbrev pub type_key : Eq GoType
type_key = record { beq = type_eq; beq_iff = type_eq_iff }

abbrev pub TypeCache : Type 0
TypeCache = List (GoType × StructMap)

-- `m.cache.Store(t, sm)`, if `mapType` returns.
pub keep : GoType → Mapped StructMap → TypeCache → Mapped StructMap × TypeCache
keep t (done sm) cache = (done sm, store t sm cache)
keep t panicked cache = (panicked, cache)
keep t no_fuel cache = (no_fuel, cache)

module _ (env : Setting) where
  unfoldable pub type_map : GoType → TypeCache → Mapped StructMap × TypeCache
  unfolding keep
  type_map t cache = elim (load (deref t) cache) [
    | some sm ↦ (done sm, cache)
    | none ↦ keep (deref t) (map_type env (deref t)) cache
  ]

  -- The cache holds nothing but what `mapType` returns.
  abbrev pub IsCurrent : TypeCache → Type 0
  IsCurrent cache =
      (t : GoType) (sm : StructMap) → load t cache ≡ some sm → map_type env t ≡ done sm

  store-IsCurrent :
      (t : GoType) (sm : StructMap) (cache : TypeCache)
      → map_type env t ≡ done sm
      → IsCurrent cache
      → IsCurrent (store t sm cache)
  store-IsCurrent = store-holds (λ t sm. map_type env t ≡ done sm)

  pub keep-IsCurrent :
      (t : GoType) (r : Mapped StructMap) (cache : TypeCache)
      → map_type env t ≡ r
      → IsCurrent cache
      → ((keep t r cache).0 ≡ r) × IsCurrent (keep t r cache).1
  unfolding keep
  keep-IsCurrent t (done sm) cache h current = (refl, store-IsCurrent t sm cache h current)
  keep-IsCurrent t panicked cache h current = (refl, current)
  keep-IsCurrent t no_fuel cache h current = (refl, current)

  pub type_map-IsCurrent :
      (t : GoType) (cache : TypeCache)
      → IsCurrent cache
      → ((type_map t cache).0 ≡ map_type env (deref t)) × IsCurrent (type_map t cache).1
  unfolding type_map
  type_map-IsCurrent t cache current = elim (Option-cases (load (deref t) cache)) [
    | inl miss ↦
        rw (miss, type_map) (keep-IsCurrent (deref t) (map_type env (deref t)) cache refl current)
    | inr (sm, hit) ↦ rw (hit, type_map) (sym (current (deref t) sm hit), current)
  ]

  -- Any number of calls, one behind the other.
  pub type_maps : List GoType → TypeCache → List (Mapped StructMap)
  type_maps [] cache = []
  type_maps (t ∷ ts) cache = let (r, cache') = type_map t cache in r ∷ type_maps ts cache'

  type_maps-IsCurrent :
      (ts : List GoType) (cache : TypeCache)
      → IsCurrent cache
      → type_maps ts cache ≡ map (λ t. map_type env (deref t)) ts
  unfolding type_maps
  type_maps-IsCurrent [] cache current = refl
  type_maps-IsCurrent (t ∷ ts) cache current =
      let (same, current') = type_map-IsCurrent t cache current in
      ap₂ ◌∷◌ same (type_maps-IsCurrent ts _ current')

  -- From a new mapper's cache, each call of `TypeMap` returns what `mapType` computes for its type,
  -- one pointer taken off, whatever was asked for before.
  pub type_maps-map : (ts : List GoType) → type_maps ts [] ≡ map (λ t. map_type env (deref t)) ts
  type_maps-map ts = type_maps-IsCurrent ts [] (λ t sm found. absurd (nothing t sm found))
    where
      nothing : (t : GoType) (sm : StructMap) → load t [] ≡ some sm → ⊥
      nothing t sm found = unfold load in ground arith
