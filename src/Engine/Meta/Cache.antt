-- ===== src/Engine/Meta/Cache.antt =====
-- `buildMeta` with `metaCache`.
use sqlx_v.Prelude.{
  ℕ, Bool, true, false, ◌&&◌, Option, none, some, List, [], ◌∷◌, ◌≡◌, ◌↔◌, refl, sym, ap, ◌∙◌,
  arith, ◌==◌, Bytes, bytes_eq, bytes_eq_iff, if◌then◌else◌, inl, inr, Option-cases,
}
use sqlx_v.Errors.{Result, ok, fail, panics}
use sqlx_v.SyncMap.{Eq, load, store, load-store_self, store-holds}
use sqlx_v.Value.{GoType, type_eq, type_eq_iff}
use sqlx_v.Reflectx.Mapper.{StructMap}
use sqlx_v.Engine.Meta.{FieldMeta, hash_columns, compute_meta}

pub record MetaCacheKey : Type 0 where
  pub t : GoType
  pub hash : ℕ
  pub is_unsafe : Bool

abbrev pub bool_eq : Bool → Bool → Bool
bool_eq true b = b
bool_eq false true = false
bool_eq false false = true

abbrev pub meta_key_eq : MetaCacheKey → MetaCacheKey → Bool
meta_key_eq a b = type_eq a.t b.t && a.hash == b.hash && bool_eq a.is_unsafe b.is_unsafe

bool_eq_iff : (a b : Bool) → (bool_eq a b ≡ true) ↔ (a ≡ b)
bool_eq_iff true b = ground arith
bool_eq_iff false true = ground arith
bool_eq_iff false false = ground arith

pub meta_key_eq_iff : (a b : MetaCacheKey) → (meta_key_eq a b ≡ true) ↔ (a ≡ b)
meta_key_eq_iff a b = ground (arith, type_eq_iff a.t b.t, bool_eq_iff a.is_unsafe b.is_unsafe)

instance abbrev pub meta_key : Eq MetaCacheKey
meta_key = record { beq = meta_key_eq; beq_iff = meta_key_eq_iff }

pub record MetaCacheValue : Type 0 where
  pub columns : List Bytes
  pub meta : List FieldMeta

abbrev pub MetaCache : Type 0
MetaCache = List (MetaCacheKey × MetaCacheValue)

-- The comparison of the cached columns with the ones at hand.
unfoldable pub same_columns : List Bytes → List Bytes → Bool
same_columns [] [] = true
same_columns (a ∷ cs) (b ∷ bs) = bytes_eq a b && same_columns cs bs
same_columns _ _ = false

pub same_columns_iff : (a b : List Bytes) → (same_columns a b ≡ true) ↔ (a ≡ b)
unfolding same_columns
same_columns_iff (x ∷ a) (y ∷ b) = ground (arith, same_columns_iff a b, bytes_eq_iff x y)
same_columns_iff _ _ = ground arith

pub same_columns_self : (a : List Bytes) → same_columns a a ≡ true
same_columns_self a = (same_columns_iff a a).1 refl

-- The entry that serves the call, if there is one.
unfoldable pub cached_meta : MetaCacheKey → List Bytes → MetaCache → Option (List FieldMeta)
cached_meta key columns cache = elim (load key cache) [
  | none ↦ none
  | some v ↦ if same_columns v.columns columns then some v.meta else none
]

unfoldable pub keep :
    MetaCacheKey
    → List Bytes
    → Result (List FieldMeta)
    → MetaCache
    → Result (List FieldMeta) × MetaCache
keep key columns (ok meta) cache =
    (ok meta, store key (record { columns = columns; meta = meta }) cache)
keep key columns (fail e) cache = (fail e, cache)
keep key columns panics cache = (panics, cache)

abbrev pub key_of : GoType → List Bytes → Bool → MetaCacheKey
key_of t columns is_unsafe = record { t = t; hash = hash_columns columns; is_unsafe = is_unsafe }

-- `buildMeta`; `type_name` is `t.Name()`.
unfoldable pub build_meta :
    GoType → Bytes → List Bytes → StructMap → Bool → MetaCache → Result (List FieldMeta) × MetaCache
build_meta t type_name columns tm is_unsafe cache =
    elim (cached_meta (key_of t columns is_unsafe) columns cache) [
      | some meta ↦ (ok meta, cache)
      | none ↦
          keep (key_of t columns is_unsafe) columns (compute_meta type_name tm is_unsafe columns)
            cache
    ]

module _ (t : GoType) (type_name : Bytes) (columns : List Bytes) (tm : StructMap) (is_unsafe : Bool)
    (cache : MetaCache) where
  build_meta_hit :
      {meta : List FieldMeta}
      → cached_meta (key_of t columns is_unsafe) columns cache ≡ some meta
      → build_meta t type_name columns tm is_unsafe cache ≡ (ok meta, cache)
  unfolding build_meta
  build_meta_hit h = rw (h, build_meta)

  build_meta_miss :
      cached_meta (key_of t columns is_unsafe) columns cache ≡ none
      → build_meta t type_name columns tm is_unsafe cache
        ≡ keep
            (key_of t columns is_unsafe)
            columns
            (compute_meta type_name tm is_unsafe columns)
            cache
  unfolding build_meta
  build_meta_miss h = rw (h, build_meta)

-- The names and the struct maps of the types, for a program with one mapper.
module _ (name_of : GoType → Bytes) (tm_of : GoType → StructMap) where
  -- Each entry is what would be computed for its own columns.
  abbrev pub IsCurrent : MetaCache → Type 0
  IsCurrent cache =
      (key : MetaCacheKey) (v : MetaCacheValue)
      → load key cache ≡ some v
      → compute_meta (name_of key.t) (tm_of key.t) key.is_unsafe v.columns ≡ ok v.meta

  store-IsCurrent :
      (key : MetaCacheKey) (v : MetaCacheValue) (cache : MetaCache)
      → compute_meta (name_of key.t) (tm_of key.t) key.is_unsafe v.columns ≡ ok v.meta
      → IsCurrent cache
      → IsCurrent (store key v cache)
  store-IsCurrent =
      store-holds
        (λ key v. compute_meta (name_of key.t) (tm_of key.t) key.is_unsafe v.columns ≡ ok v.meta)

  keep-IsCurrent :
      (key : MetaCacheKey) (columns : List Bytes) (c : Result (List FieldMeta)) (cache : MetaCache)
      → compute_meta (name_of key.t) (tm_of key.t) key.is_unsafe columns ≡ c
      → IsCurrent cache
      → ((keep key columns c cache).0 ≡ c) × IsCurrent (keep key columns c cache).1
  unfolding keep
  keep-IsCurrent key columns (ok meta) cache h current =
      (refl, store-IsCurrent key (record { columns = columns; meta = meta }) cache h current)
  keep-IsCurrent key columns (fail e) cache h current = (refl, current)
  keep-IsCurrent key columns panics cache h current = (refl, current)

  cached_meta-current :
      (key : MetaCacheKey) (columns : List Bytes) (cache : MetaCache) {meta : List FieldMeta}
      → IsCurrent cache
      → cached_meta key columns cache ≡ some meta
      → compute_meta (name_of key.t) (tm_of key.t) key.is_unsafe columns ≡ ok meta
  unfolding cached_meta
  cached_meta-current key columns cache current h = elim (Option-cases (load key cache)) [
    | inl missing ↦ absurd (ground (arith, missing))
    | inr (v, found) ↦
        ground (arith, found, same_columns_iff v.columns columns, current key v found)
  ]

  -- In a program with one mapper the cache is not seen, whatever the hashes of the columns: from a
  -- cache whose entries are right `buildMeta` returns what it would compute, for columns with a hash
  -- in common too, and leaves a cache whose entries are right.
  pub build_meta-IsCurrent :
      (t : GoType) (columns : List Bytes) (is_unsafe : Bool) (cache : MetaCache)
      → IsCurrent cache
      → ((build_meta t (name_of t) columns (tm_of t) is_unsafe cache).0
          ≡ compute_meta (name_of t) (tm_of t) is_unsafe columns)
        × IsCurrent (build_meta t (name_of t) columns (tm_of t) is_unsafe cache).1
  build_meta-IsCurrent t columns is_unsafe cache current =
      let key = key_of t columns is_unsafe in
      elim (Option-cases (cached_meta key columns cache)) [
        | inl miss ↦
            rw (build_meta_miss t (name_of t) columns (tm_of t) is_unsafe cache miss)
              (keep-IsCurrent key columns _ cache refl current)
        | inr (meta, hit) ↦
            rw (build_meta_hit t (name_of t) columns (tm_of t) is_unsafe cache hit)
              (sym (cached_meta-current key columns cache current hit), current)
      ]

cached_meta-store :
    (key : MetaCacheKey) (columns : List Bytes) (meta : List FieldMeta) (cache : MetaCache)
    → cached_meta key columns (store key (record { columns = columns; meta = meta }) cache)
      ≡ some meta
unfolding cached_meta
cached_meta-store key columns meta cache = ground (
  arith,
  load-store_self key (record { columns = columns; meta = meta }) cache,
  same_columns_self columns,
)

keep-leaves :
    (key : MetaCacheKey) (columns : List Bytes) (c : Result (List FieldMeta)) (cache : MetaCache)
    {meta : List FieldMeta}
    → (keep key columns c cache).0 ≡ ok meta
    → cached_meta key columns (keep key columns c cache).1 ≡ some meta
unfolding keep
keep-leaves key columns (ok m) cache h = ground (arith, cached_meta-store key columns m cache)
keep-leaves key columns (fail e) cache h = absurd (cc)
keep-leaves key columns panics cache h = absurd (cc)

-- A success is in the cache that it leaves.
build_meta-leaves :
    (t : GoType) (name : Bytes) (columns : List Bytes) (tm : StructMap) (is_unsafe : Bool)
    (cache : MetaCache) {meta : List FieldMeta}
    → (build_meta t name columns tm is_unsafe cache).0 ≡ ok meta
    → cached_meta
        (key_of t columns is_unsafe)
        columns
        (build_meta t name columns tm is_unsafe cache).1
      ≡ some meta
build_meta-leaves t name columns tm is_unsafe cache {meta} h =
    let key = key_of t columns is_unsafe in
    elim (Option-cases (cached_meta key columns cache)) [
      | inr (old, hit) ↦
          let e = build_meta_hit t name columns tm is_unsafe cache hit in
          let same : ok old ≡ ok meta = sym (ap (λ r. r.0) e) ∙ h in
          rw e (ground (arith, hit, same))
      | inl miss ↦
          let e = build_meta_miss t name columns tm is_unsafe cache miss in
          rw e (keep-leaves key columns _ cache (rw e at h))
    ]

-- The key names no mapper: once `buildMeta` has succeeded for a type and columns with the struct map
-- of one mapper, a call with the struct map of any other mapper returns the first one's result.
pub build_meta-other_mapper :
    (t : GoType) (name : Bytes) (columns : List Bytes) (tm tm' : StructMap) (is_unsafe : Bool)
    (cache : MetaCache) {meta : List FieldMeta}
    → (build_meta t name columns tm is_unsafe cache).0 ≡ ok meta
    → (build_meta t name columns tm' is_unsafe (build_meta t name columns tm is_unsafe cache).1).0
      ≡ ok meta
build_meta-other_mapper t name columns tm tm' is_unsafe cache {meta} h =
    ap (λ r. r.0)
      (build_meta_hit t name columns tm' is_unsafe (build_meta t name columns tm is_unsafe cache).1
        (build_meta-leaves t name columns tm is_unsafe cache h))
