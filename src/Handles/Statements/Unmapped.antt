-- ===== src/Handles/Statements/Unmapped.antt =====
-- `Stmtx` of tx.go with `SelectContext` of stmt.go, against `SelectContext` of tx.go.
use sqlx_v.Prelude.{
  ℕ, Bool, false, none, some, List, [], ◌≡◌, ◌⊎◌, refl, ap, inl, inr, Bool-cases, Option-cases,
  if◌then◌else◌,
}
use sqlx_v.Errors.{Result, ok, panics, Result-cases, >>=-elim}
use sqlx_v.Value.{GoType, kind, elem, is_pointer}
use sqlx_v.Reflectx.Mapper.{Mapper}
use sqlx_v.Reflectx.Address.{Memory}
use sqlx_v.Reflectx.Tags.{Setting}
use sqlx_v.Engine.Dest.{Slot, is_scannable}
use sqlx_v.Engine.Scan.{
  SqlRows, close_rows, Caches, Scanned, iterate_scan, iterate_body, column_rows, scannable_rows,
  scan_scannable, after_scan,
}
use sqlx_v.Engine.Scan.Select.{
  Dest, Item, slice_dest, new_object, append_item, select_scan, select_into,
}
use sqlx_v.Handles.{
  Handle, Wrapped, Statement, sql_stmt_of, wrapped_by, stmtx, handle_of, select_context,
  extract_meta, used_mapper,
}
use sqlx_v.Handles.Statements.{
  unmapped_columns, unmapped_body, iterate_unmapped, select_unmapped, select_by,
  stmt_select_context,
}

-- The type of the objects for the elements of a slice.
abbrev pub object_type : GoType → GoType
object_type t = if is_pointer (kind t) then elem t else t

-- What a panic of `TypeMap` leaves: the rows are closed, and no row was read.
abbrev pub panicked_scan : {R Y : Type 0} → SqlRows R → Caches → Memory → Y → Scanned R Y
panicked_scan rows caches memory y = record {
  scan = record { memory = memory; scan_dest = []; out = y };
  result = panics;
  rows = close_rows rows;
  caches = caches;
}

-- The elements of the slice need the mapper.
abbrev pub NeedsMapper : Setting → Dest → Type 0
NeedsMapper env dest =
    (t : GoType) × (slice_dest dest ≡ some t) × (is_scannable env.scanner (object_type t) ≡ false)

module _ {R : Type 0} (env : Setting) (size : GoType → ℕ)
    (sql_scan : R → List Slot → Memory → Memory × Result (Unit {0})) where
  iterate_unmapped-cases :
      {Y : Type 0} (alloc : Memory → ℕ × Memory) (yield : ℕ → Memory → Y → Y × Result (Unit {0}))
      (m : Mapper) (rows : SqlRows R) (t : GoType) (is_unsafe strict : Bool) (caches : Caches)
      (memory : Memory) (y : Y)
      → (iterate_unmapped env size sql_scan alloc yield rows t caches memory y
          ≡ iterate_scan
              (record env { mapper = m })
              size
              sql_scan
              alloc
              yield
              rows
              t
              is_unsafe
              strict
              caches
              memory
              y)
        ⊎ ((is_scannable env.scanner t ≡ false)
            × (iterate_unmapped env size sql_scan alloc yield rows t caches memory y
                ≡ panicked_scan rows caches memory y))
  unfolding iterate_unmapped unmapped_body unmapped_columns iterate_scan iterate_body column_rows
      scannable_rows scan_scannable after_scan
  iterate_unmapped-cases alloc yield m rows t is_unsafe strict caches memory y =
      elim (Result-cases rows.columns) [
        | inl (columns, e) ↦ elim (Bool-cases (is_scannable env.scanner t)) [
          | inl plain_type ↦
              inl (rw (e, iterate_unmapped, unmapped_body, iterate_body, plain_type) refl)
          | inr struct_there ↦
              inr (struct_there, rw (e, iterate_unmapped, unmapped_body, struct_there) refl)
        ]
        | inr (inl (x, e)) ↦ inl (rw (e, iterate_unmapped, unmapped_body, iterate_body) refl)
        | inr (inr e) ↦ inl (rw (e, iterate_unmapped, unmapped_body, iterate_body) refl)
      ]

  select_unmapped-cases :
      (m : Mapper) (rows : SqlRows R) (dest : Dest) (is_unsafe strict : Bool) (caches : Caches)
      (memory : Memory) (items : List Item)
      → (select_unmapped env size sql_scan rows dest caches memory items
          ≡ select_scan
              (record env { mapper = m })
              size
              sql_scan
              rows
              dest
              is_unsafe
              strict
              caches
              memory
              items)
        ⊎ (NeedsMapper env dest
            × (select_unmapped env size sql_scan rows dest caches memory items
                ≡ panicked_scan rows caches memory items))
  unfolding select_unmapped select_scan select_into
  select_unmapped-cases m rows dest is_unsafe strict caches memory items =
      elim (Option-cases (slice_dest dest)) [
        | inl refused ↦ inl (rw (refused, select_unmapped, select_scan) refl)
        | inr (t, e) ↦
            elim (iterate_unmapped-cases (new_object (size (object_type t)))
              (append_item (is_pointer (kind t)) (size (object_type t))) m rows (object_type t)
              is_unsafe strict caches memory items) [
                | inl same ↦ inl (rw (e, select_unmapped, select_scan) same)
                | inr (differs, panicking) ↦
                    inr ((t, e, differs), rw (e, select_unmapped) panicking)
              ]
      ]

  select_by-select_context :
      (default_mapper : Mapper) (tx : Handle) (object : ℕ) (rows : SqlRows R) (dest : Dest)
      (caches : Caches) (memory : Memory) (items : List Item)
      → (select_by env size sql_scan (wrapped_by tx object) rows dest caches memory items
          ≡ select_scan
              (record env { mapper = used_mapper default_mapper tx.mapper })
              size
              sql_scan
              rows
              dest
              tx.is_unsafe
              tx.strict_tag_parsing
              caches
              memory
              items)
        ⊎ ((tx.mapper ≡ none)
            × NeedsMapper env dest
            × (select_by env size sql_scan (wrapped_by tx object) rows dest caches memory items
                ≡ panicked_scan rows caches memory items))
  unfolding select_by
  select_by-select_context default_mapper tx object rows dest caches memory items =
      elim (Option-cases tx.mapper) [
        | inl e ↦
            elim (select_unmapped-cases default_mapper rows dest tx.is_unsafe tx.strict_tag_parsing
              caches memory items) [
                | inl same ↦ inl (rw (e, select_by, wrapped_by, used_mapper) same)
                | inr (needs, panicking) ↦ inr (e, needs, rw (e, select_by, wrapped_by) panicking)
              ]
        | inr (m, e) ↦ inl (rw (e, select_by, wrapped_by, used_mapper) refl)
      ]

  -- A statement that `Stmtx` binds to a transaction selects, for the same rows of database/sql, what the
  -- transaction's own `Select` does: it returns, writes, closes and caches the same. The one exception is a
  -- transaction with no mapper and a slice of elements that are not scannable: the transaction takes the
  -- default mapper, and the statement panics with the rows closed and none of them read.
  pub stmtx-select_context :
      (default_mapper : Mapper) (tx : Handle) (tx_stmt : ℕ → ℕ) (stmt : Statement) {s : Wrapped}
      (rows : SqlRows R) (dest : Dest) (caches : Caches) (memory : Memory) (items : List Item)
      → stmtx tx tx_stmt stmt ≡ ok s
      → (stmt_select_context env size sql_scan s (ok rows) dest caches memory items
          ≡ select_context default_mapper env size sql_scan
              (handle_of tx)
              (ok rows)
              dest
              caches
              memory
              items)
        ⊎ ((tx.mapper ≡ none)
            × NeedsMapper env dest
            × (stmt_select_context env size sql_scan s (ok rows) dest caches memory items
                ≡ ok (panicked_scan rows caches memory items)))
  unfolding stmtx stmt_select_context select_context extract_meta
  stmtx-select_context default_mapper tx tx_stmt stmt {s} rows dest caches memory items h =
      >>=-elim (sql_stmt_of stmt) _ h λ o found e.
        let same : s ≡ wrapped_by tx (tx_stmt o) = cc in
        rw same
          (elim (select_by-select_context default_mapper tx (tx_stmt o) rows dest caches memory
            items) [
              | inl r ↦ inl (ap ok r)
              | inr (none_there, needs, r) ↦ inr (none_there, needs, ap ok r)
            ])
