-- ===== src/Generics/Get.antt =====
-- `GetG`.
pub mod Row
pub mod Same
use sqlx_v.Prelude.{
  ℕ, String, ◌+◌, Bool, true, false, not, Option, none, some, List, [], ◌∷◌, ◌==◌, if◌then◌else◌,
  Bytes, length, replicate,
}
use sqlx_v.Errors.{Error, no_rows, errorf, plain, Result, ok, fail, panics, ◌>>=◌, wrap}
use sqlx_v.GoStrings.{itoa}
use sqlx_v.Value.{GoType, kind, is_pointer}
use sqlx_v.Reflectx.Mapper.{Mapper}
use sqlx_v.Reflectx.Address.{Memory}
use sqlx_v.Reflectx.Tags.{Setting}
use sqlx_v.Reflectx.TypeMap.{type_map}
use sqlx_v.Engine.Meta.{FieldMeta}
use sqlx_v.Engine.Dest.{Slot, empty, into, populate_scan_dest, is_scannable}
use sqlx_v.Engine.Scan.{SqlRows, close_rows, Caches}
use sqlx_v.Engine.Scan.Select.{Item, pointer_item, copied_item, cells_from, new_object}
use sqlx_v.Handles.{Queryer, extract_meta}
use sqlx_v.Generics.{has_no_type, is_asserted, elem_type, deferred_close, meta_for}

-- The result: the pointer to the new object, or the object.
abbrev pub item_at : Bool → ℕ → ℕ → Memory → Item
item_at is_ptr n vp m = if is_ptr then pointer_item vp else copied_item (cells_from m vp n)

-- `vp.(T)`, by the assertion.
abbrev pub asserted_item : Bool → Item → Result Item
asserted_item true i = ok i
asserted_item false i = panics

-- Behind `rows.Scan`.
abbrev pub scanned_item :
    String → Bool → Bool → ℕ → ℕ → Memory × Result (Unit {0}) → Memory × Result Item
scanned_item format is_ptr asserted n vp (m, ok _) =
    (m, asserted_item asserted (item_at is_ptr n vp m))
scanned_item format is_ptr asserted n vp (m, fail e) = (m, fail (errorf format [] e))
scanned_item format is_ptr asserted n vp (m, panics) = (m, panics)

-- `if !rows.Next() { … }`.
abbrev pub no_row : {A : Type 0} → Option Error → Result A
no_row none = fail no_rows
no_row (some e) = fail (errorf "sqlx: row error: %w" [] e)

-- Either, or the body for the first row.
unfoldable pub first_item :
    {R : Type 0}
    → (R → Memory × Result Item)
    → Option Error
    → List R
    → Memory
    → Memory × Result Item
first_item body err [] memory = (memory, no_row err)
first_item body err (row ∷ rows) memory = body row

-- A call with what it leaves.
pub record Got (R : Type 0) : Type 0 where
  pub memory : Memory
  pub item : Result Item
  pub rows : SqlRows R
  pub caches : Caches

module _ {R : Type 0} (env : Setting) (size : GoType → ℕ)
    (sql_scan : R → List Slot → Memory → Memory × Result (Unit {0})) where
  -- The scan into a new object.
  unfoldable pub scan_one : Bool → Bool → GoType → Memory → R → Memory × Result Item
  scan_one is_ptr asserted t memory row =
      let (vp, m) = new_object (size t) memory in
      scanned_item "sqlx: scannable scan error: %w" is_ptr asserted (size t) vp
        (sql_scan row (into (some t) vp ∷ []) m)

  unfoldable pub scan_one_struct :
      Bool → Bool → GoType → List FieldMeta → List Slot → Memory → R → Memory × Result Item
  scan_one_struct is_ptr asserted t meta dest memory row =
      let (vp, m) = new_object (size t) memory in
      let (dest', m') = populate_scan_dest size vp meta dest m in
      scanned_item "sqlx: struct scan error: %w" is_ptr asserted (size t) vp (sql_scan row dest' m')

  unfoldable pub get_scannable :
      SqlRows R → Bool → Bool → GoType → List Bytes → Memory → Memory × Result Item
  unfolding first_item scan_one
  get_scannable rows is_ptr asserted t columns memory =
      if not (length columns == 1)
      then (
        memory,
        fail (
            plain "sqlx: scannable dest type %s with >1 columns (%d)" (itoa (length columns) ∷ [])),
      )
      else first_item (scan_one is_ptr asserted t memory) rows.err rows.pending memory

  -- Behind `buildMeta`.
  unfoldable pub get_struct :
      SqlRows R
      → Bool
      → Bool
      → GoType
      → List Bytes
      → Memory
      → Result (List FieldMeta)
      → Memory × Result Item
  unfolding first_item scan_one_struct
  get_struct rows is_ptr asserted t columns memory (ok meta) =
      first_item (scan_one_struct is_ptr asserted t meta (replicate (length columns) empty) memory)
        rows.err rows.pending memory
  get_struct rows is_ptr asserted t columns memory (fail e) = (memory, fail e)
  get_struct rows is_ptr asserted t columns memory panics = (memory, panics)

  -- Behind `rows.Columns()`; `t` is `elemType`.
  unfoldable pub get_columns :
      SqlRows R
      → Bool
      → Bool
      → GoType
      → Bool
      → Bool
      → List Bytes
      → Caches
      → Memory
      → (Memory × Result Item) × Caches
  unfolding get_scannable get_struct meta_for
  get_columns rows is_ptr asserted t is_unsafe strict columns caches memory =
      if is_scannable env.scanner t
      then (get_scannable rows is_ptr asserted t columns memory, caches)
      else let (tm, types') = type_map env t caches.types in
        let (meta, metas') = meta_for env t is_unsafe strict columns tm caches.metas in
        (
          get_struct rows is_ptr asserted t columns memory meta,
          record { types = types'; metas = metas' },
        )

  -- Behind the query, without the deferred function.
  unfoldable pub get_rows :
      SqlRows R → GoType → Bool → Bool → Caches → Memory → (Memory × Result Item) × Caches
  unfolding get_columns
  get_rows rows t is_unsafe strict caches memory =
      if has_no_type t then ((memory, panics), caches) else elim rows.columns [
        | ok columns ↦
            get_columns rows (is_pointer (kind t)) (is_asserted t) (elem_type t) is_unsafe strict
              columns caches memory
        | fail e ↦ ((memory, fail (errorf "sqlx: error getting columns: %w" [] e)), caches)
        | panics ↦ ((memory, panics), caches)
      ]

  -- Behind the query, with what `extractMeta` finds.
  unfoldable pub get_with : SqlRows R → GoType → Bool → Bool → Caches → Memory → Got R
  unfolding get_rows
  get_with rows t is_unsafe strict caches memory =
      let (end_of, caches') = get_rows rows t is_unsafe strict caches memory in
      record {
        memory = end_of.0;
        item = deferred_close rows.close_err end_of.1;
        rows = close_rows rows;
        caches = caches';
      }

-- `GetG`; `queried` is what `q.QueryContext` returns.
unfoldable pub get_g :
    {R : Type 0}
    → Mapper
    → Setting
    → (GoType → ℕ)
    → (R → List Slot → Memory → Memory × Result (Unit {0}))
    → Queryer
    → Result (SqlRows R)
    → GoType
    → Caches
    → Memory
    → Result (Got R)
unfolding extract_meta get_with
get_g default_mapper env size sql_scan q queried t caches memory = do
  rows ← wrap "sqlx: error in GetG: %w" queried
  let (is_unsafe, strict, mapper) = extract_meta default_mapper q
  ok (get_with (record env { mapper = mapper }) size sql_scan rows t is_unsafe strict caches memory)
