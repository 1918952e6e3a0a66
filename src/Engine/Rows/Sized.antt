-- ===== src/Engine/Rows/Sized.antt =====
-- The `scanDest` that `Rows.StructScan` keeps between the calls.
use sqlx_v.Prelude.{
  ℕ, Bool, true, false, List, [], ◌∷◌, ◌≡◌, refl, ◌∙◌, inl, inr, Bytes, length, length-set,
  length-replicate, Option-cases,
}
use sqlx_v.Errors.{Result, ok, fail, panics}
use sqlx_v.Value.{GoType}
use sqlx_v.Reflectx.Mapper.{Mapper, StructMap}
use sqlx_v.Reflectx.Address.{Memory}
use sqlx_v.Reflectx.Tags.{Setting}
use sqlx_v.Engine.Meta.{FieldMeta}
use sqlx_v.Engine.Meta.Cache.{MetaCache}
use sqlx_v.Engine.Dest.{Slot, empty, populate_scan_dest}
use sqlx_v.Engine.Scan.Select.{Dest}
use sqlx_v.Engine.Rows.{
  Rows, struct_dest, is_type, start_with, start_mapped, start_columns, prepare_by, prepare, scan_if,
  struct_scan,
}

-- `scanDest` has a place for each entry of the metadata.
abbrev pub IsSized : Rows → Type 0
IsSized r = length r.scan_dest ≡ length r.meta

length-populate_scan_dest :
    (size : GoType → ℕ) (base : ℕ) (meta : List FieldMeta) (dest : List Slot) (m : Memory)
    → length (populate_scan_dest size base meta dest m).0 ≡ length dest
unfolding populate_scan_dest
length-populate_scan_dest size base [] dest m = refl
length-populate_scan_dest size base (fm ∷ meta) dest m =
    length-populate_scan_dest size base meta _ _ ∙ length-set dest fm.col_index _

module _ (env : Setting) (default_mapper : Mapper) (size : GoType → ℕ) where
  start_with-IsSized :
      (r : Rows) (t : GoType) (built : Result (List FieldMeta))
      → IsSized r
      → IsSized (start_with env default_mapper size r t built).0
  unfolding start_with
  start_with-IsSized r t (ok meta) h = length-replicate (length meta) empty
  start_with-IsSized r t (fail e) h = h
  start_with-IsSized r t panics h = h

  start_mapped-IsSized :
      (r : Rows) (t : GoType) (columns : List Bytes) (metas : MetaCache) (tm : Result StructMap)
      → IsSized r
      → IsSized (start_mapped env default_mapper size r t columns metas tm).0.0
  unfolding start_mapped
  start_mapped-IsSized r t columns metas (ok tm) h = start_with-IsSized r t _ h
  start_mapped-IsSized r t columns metas (fail e) h = h
  start_mapped-IsSized r t columns metas panics h = h

  start_columns-IsSized :
      (r : Rows) (t : GoType) (metas : MetaCache) (columns : Result (List Bytes))
      → IsSized r
      → IsSized (start_columns env default_mapper size r t metas columns).0.0
  unfolding start_columns
  start_columns-IsSized r t metas (ok columns) h =
      start_mapped-IsSized (record r { mapper = _ }) t columns metas _ h
  start_columns-IsSized r t metas (fail e) h = h
  start_columns-IsSized r t metas panics h = h

  prepare_by-IsSized :
      (r : Rows) (t : GoType) (metas : MetaCache) (started same_type : Bool)
      → IsSized r
      → IsSized (prepare_by env default_mapper size r t metas started same_type).0.0
  unfolding prepare_by
  prepare_by-IsSized r t metas false same_type h = start_columns-IsSized r t metas r.columns h
  prepare_by-IsSized r t metas true false h = h
  prepare_by-IsSized r t metas true true h = h

  -- Every call of `StructScan`, on each of its branches, leaves a `scanDest` with a place for each
  -- entry of the metadata, if there was one before.
  pub struct_scan-IsSized :
      (sql_scan : List Slot → Memory → Memory × Result (Unit {0})) (r : Rows) (dest : Dest)
      (metas : MetaCache) (memory : Memory)
      → IsSized r
      → IsSized (struct_scan env default_mapper size sql_scan r dest metas memory).0.0
  unfolding struct_scan prepare
  struct_scan-IsSized sql_scan r dest metas memory h = elim (Option-cases (struct_dest dest)) [
    | inl bad ↦ rw (bad, struct_scan) h
    | inr (t, good) ↦
        rw (good, struct_scan)
          (scanned (prepare env default_mapper size r t metas).0
            (prepare_by-IsSized r t metas r.started (is_type r.base_type t) h))
  ]
    where
      scanned :
          (ready : Rows × Result (Unit {0}))
          → IsSized ready.0
          → IsSized (scan_if env default_mapper size sql_scan ready dest.target memory).0
      scanned (q, ok u) k =
          unfold scan_if in length-populate_scan_dest size dest.target q.meta q.scan_dest memory ∙ k
      scanned (q, fail e) k = unfold scan_if in k
      scanned (q, panics) k = unfold scan_if in k
