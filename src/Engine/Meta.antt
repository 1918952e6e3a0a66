-- ===== src/Engine/Meta.antt =====
-- `fieldMeta`, `hashColumns` and `buildMeta` without its cache; the cache is in a module below.
pub mod Cache
pub mod Order
use Prim.Native.Nat.{bit_xor}
use sqlx_v.Prelude.{
  ℕ, zero, suc, ◌+◌, ◌*◌, ◌%◌, ◌^◌, Bool, true, false, not, ◌&&◌, ◌||◌, Option, none, some, List,
  [], ◌∷◌, ◌++◌, ◌≡◌, refl, arith, ◌==◌, ltb, reverse, if◌then◌else◌, Bytes,
}
use sqlx_v.Errors.{Error, column_not_found, errorf, Result, ok, fail, panics, ◌>>=◌}
use sqlx_v.SyncMap.{load, bytes_key}
use sqlx_v.Value.{GoType}
use sqlx_v.Reflectx.Mapper.{Step, FieldInfo, StructMap}

-- A nil `traversal` is the empty list, and a nil `fieldType` is `none`.
pub record FieldMeta : Type 0 where
  pub traversal : List Step
  pub field_type : Option GoType
  pub offset : ℕ
  pub is_ptr_path : Bool
  pub col_index : ℕ

-- The loop over the bytes of one column: FNV-1a in `uint64`.
abbrev pub hash_bytes : ℕ → Bytes → ℕ
hash_bytes h [] = h
hash_bytes h (c ∷ s) = hash_bytes ((bit_xor h c * 1099511628211) % 2 ^ 64) s

hash_from : ℕ → List Bytes → ℕ
hash_from h [] = h
hash_from h (col ∷ cols) = hash_from (hash_bytes h col) cols

unfoldable pub hash_columns : List Bytes → ℕ
unfolding hash_from
hash_columns cols = hash_from 14695981039346656037 cols

-- The inner loop of `sortByOffset` for the element `x`: `m[j-1], m[j-2], …` are the second argument.
unfoldable pub sift : FieldMeta → List FieldMeta → List FieldMeta
sift x [] = x ∷ []
sift x (y ∷ ys) = elim (ltb y.offset x.offset) [ true ↦ y ∷ sift x ys | false ↦ x ∷ y ∷ ys ]

-- The outer loop; `m[i-1], …, m[0]` are the first argument.
unfoldable pub sort_from : List FieldMeta → List FieldMeta → List FieldMeta
unfolding sift
sort_from before [] = reverse before
sort_from before (x ∷ xs) = sort_from (sift x before) xs

unfoldable pub sort_by_offset : List FieldMeta → List FieldMeta
unfolding sort_from
sort_by_offset m = sort_from [] m

abbrev pub meta_of : FieldInfo → ℕ → FieldMeta
meta_of fi i = record {
  traversal = fi.traversal;
  field_type = some fi.target_type;
  offset = fi.offset;
  is_ptr_path = fi.is_ptr_path;
  col_index = i;
}

abbrev pub discard_meta : ℕ → FieldMeta
discard_meta i = record {
  traversal = [];
  field_type = none;
  offset = 0;
  is_ptr_path = false;
  col_index = i;
}

module _ (type_name : Bytes) (tm : StructMap) (is_unsafe : Bool) where
  -- The body of the loop over the columns.
  unfoldable pub column_meta : ℕ → Bytes → Result FieldMeta
  column_meta i col = elim (load col tm.names) [
    | some fi ↦ ok (meta_of fi i)
    | none ↦
        if not is_unsafe
        then fail (
            errorf "sqlx: missing destination name %q in struct %s: %w" (col ∷ type_name ∷ [])
              column_not_found)
        else ok (discard_meta i)
  ]

  unfoldable pub columns_meta : ℕ → List Bytes → Result (List FieldMeta)
  unfolding column_meta
  columns_meta i [] = ok []
  columns_meta i (col ∷ cols) = do
    m ← column_meta i col
    ms ← columns_meta (i + 1) cols
    ok (m ∷ ms)

  -- What `buildMeta` returns and stores if the cache has no use.
  unfoldable pub compute_meta : List Bytes → Result (List FieldMeta)
  unfolding columns_meta sort_by_offset
  compute_meta columns = do meta ← columns_meta 0 columns; ok (sort_by_offset meta)
