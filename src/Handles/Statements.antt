-- ===== src/Handles/Statements.antt =====
-- `Select`, `Get`, `Queryx` and `QueryRowx` of a `Stmt` (stmt.go) and of a `NamedStmt` (named_stmt.go),
-- and `selectScan` and `getScan` of engine.go with a nil mapper, which only these can pass on.
pub mod Unmapped
pub mod Prepared
pub mod Named
use sqlx_v.Prelude.{ℕ, Bool, false, Option, none, some, List, [], if◌then◌else◌, Bytes}
use sqlx_v.Errors.{Error, errorf, Result, ok, fail, panics, ◌>>=◌}
use sqlx_v.Value.{GoType, kind, elem, is_pointer, Value}
use sqlx_v.Reflectx.Mapper.{Mapper}
use sqlx_v.Reflectx.Address.{Memory}
use sqlx_v.Reflectx.Tags.{Setting}
use sqlx_v.Bind.Args.{Arg}
use sqlx_v.Engine.Dest.{Slot, is_scannable}
use sqlx_v.Engine.Scan.{SqlRows, close_rows, closing, Caches, Scan, Scanned, scannable_rows}
use sqlx_v.Engine.Scan.Select.{
  Dest, Item, slice_dest, refused_dest, new_object, append_item, select_scan,
}
use sqlx_v.Engine.Scan.Get.{
  pointer_dest, refused_pointer, found_one, same_object, find_one, get_scan,
}
use sqlx_v.Engine.Rows.{Row}
use sqlx_v.Handles.{Wrapped, NamedStmt}
use sqlx_v.Handles.Exec.{bind_statement_args}

-- A nil `*sql.Rows`, which nothing reads.
abbrev pub nil_rows : {R : Type 0} → SqlRows R
nil_rows = record { columns = panics; pending = []; err = none; close_err = none; closes = 0 }

-- `QueryRowxContext` of `DB`, `Tx`, `Conn` and `Stmt`: an error waits in the row.
unfoldable pub queried_row : {R : Type 0} → Result (SqlRows R) → Result (Row R)
queried_row (ok rows) = ok (record { err = none; rows = rows })
queried_row (fail e) = ok (record { err = some e; rows = nil_rows })
queried_row panics = panics

module _ {R : Type 0} (env : Setting) (size : GoType → ℕ)
    (sql_scan : R → List Slot → Memory → Memory × Result (Unit {0})) where
  module _ {Y : Type 0} (alloc : Memory → ℕ × Memory)
      (yield : ℕ → Memory → Y → Y × Result (Unit {0})) where
    -- `iterateScan` with a nil mapper: `TypeMap` reads the cache of the mapper, and panics.
    unfoldable pub unmapped_columns :
        SqlRows R → GoType → List Bytes → Scan Y → Scan Y × Result (Unit {0})
    unmapped_columns rows t columns w =
        if is_scannable env.scanner t
        then scannable_rows env size sql_scan alloc yield rows t columns w
        else (w, panics)

    unfoldable pub unmapped_body : SqlRows R → GoType → Scan Y → Scan Y × Result (Unit {0})
    unfolding unmapped_columns
    unmapped_body rows t w = elim rows.columns [
      | ok columns ↦ unmapped_columns rows t columns w
      | fail e ↦ (w, fail (errorf "sqlx: error getting columns: %w" [] e))
      | panics ↦ (w, panics)
    ]

    unfoldable pub iterate_unmapped : SqlRows R → GoType → Caches → Memory → Y → Scanned R Y
    unfolding unmapped_body
    iterate_unmapped rows t caches memory y =
        let end_of = unmapped_body rows t (record { memory = memory; scan_dest = []; out = y }) in
        record {
          scan = end_of.0;
          result = closing rows.close_err end_of.1;
          rows = close_rows rows;
          caches = caches;
        }

  -- `selectScan` and `getScan` with a nil mapper.
  unfoldable pub select_unmapped :
      SqlRows R → Dest → Caches → Memory → List Item → Scanned R (List Item)
  unfolding iterate_unmapped
  select_unmapped rows dest caches memory items = elim (slice_dest dest) [
    | none ↦ record {
      scan = record { memory = memory; scan_dest = []; out = items };
      result = refused_dest rows.close_err;
      rows = close_rows rows;
      caches = caches;
    }
    | some t ↦
        let is_ptr = is_pointer (kind t) in
        let t' = if is_ptr then elem t else t in
        iterate_unmapped (new_object (size t')) (append_item is_ptr (size t')) rows t' caches memory
          items
  ]

  unfoldable pub get_unmapped : SqlRows R → Dest → Caches → Memory → Scanned R Bool
  unfolding iterate_unmapped
  get_unmapped rows dest caches memory = elim (pointer_dest dest) [
    | none ↦ record {
      scan = record { memory = memory; scan_dest = []; out = false };
      result = refused_pointer rows.close_err;
      rows = close_rows rows;
      caches = caches;
    }
    | some t ↦
        let s = iterate_unmapped (same_object dest.target) find_one rows t caches memory false in
        record s { result = found_one s.scan.out s.result }
  ]

  -- `selectScan(rows, dest, s.Unsafe, s.StrictTagParsing, s.Mapper)`.
  unfoldable pub select_by :
      Wrapped → SqlRows R → Dest → Caches → Memory → List Item → Scanned R (List Item)
  unfolding select_unmapped
  select_by s rows dest caches memory items = elim s.mapper [
    | none ↦ select_unmapped rows dest caches memory items
    | some m ↦
        select_scan (record env { mapper = m }) size sql_scan rows dest s.is_unsafe
          s.strict_tag_parsing caches memory items
  ]

  unfoldable pub get_by : Wrapped → SqlRows R → Dest → Caches → Memory → Scanned R Bool
  unfolding get_unmapped
  get_by s rows dest caches memory = elim s.mapper [
    | none ↦ get_unmapped rows dest caches memory
    | some m ↦
        get_scan (record env { mapper = m }) size sql_scan rows dest s.is_unsafe
          s.strict_tag_parsing caches memory
  ]

  -- `Stmt.SelectContext`, `Stmt.GetContext`; `queried` is what `QueryContext` returns.
  unfoldable pub stmt_select_context :
      Wrapped
      → Result (SqlRows R)
      → Dest
      → Caches
      → Memory
      → List Item
      → Result (Scanned R (List Item))
  stmt_select_context s queried dest caches memory items = do
    rows ← queried
    ok (select_by s rows dest caches memory items)

  unfoldable pub stmt_get_context :
      Wrapped → Result (SqlRows R) → Dest → Caches → Memory → Result (Scanned R Bool)
  stmt_get_context s queried dest caches memory = do
    rows ← queried
    ok (get_by s rows dest caches memory)

  -- `Stmt.QueryxContext`: the rows, and the settings that they get.
  unfoldable pub stmt_queryx_context : Wrapped → Result (SqlRows R) → Result (SqlRows R × Wrapped)
  stmt_queryx_context s queried = do rows ← queried; ok (rows, s)

  -- `query` is `n.Stmt.QueryContext` of database/sql.
  module _ (n : NamedStmt) (query : List Arg → Result (SqlRows R)) where
    -- `NamedStmt.QueryContext`.
    unfoldable pub query_context : Value → Result (SqlRows R)
    query_context arg = do args ← bind_statement_args env n.stmt.mapper n.params arg; query args

    -- `NamedStmt.SelectContext`, `NamedStmt.GetContext`.
    unfoldable pub named_select_context :
        Dest → Value → Caches → Memory → List Item → Result (Scanned R (List Item))
    named_select_context dest arg caches memory items = do
      args ← bind_statement_args env n.stmt.mapper n.params arg
      rows ← query args
      ok (select_by n.stmt rows dest caches memory items)

    unfoldable pub named_get_context : Dest → Value → Caches → Memory → Result (Scanned R Bool)
    named_get_context dest arg caches memory = do
      args ← bind_statement_args env n.stmt.mapper n.params arg
      rows ← query args
      ok (get_by n.stmt rows dest caches memory)

    -- `NamedStmt.QueryRowContext`.
    unfoldable pub query_row_context : Value → Result (Row R)
    unfolding queried_row
    query_row_context arg = elim (bind_statement_args env n.stmt.mapper n.params arg) [
      | ok args ↦ queried_row (query args)
      | fail e ↦ ok (record { err = some e; rows = nil_rows })
      | panics ↦ panics
    ]

    -- `NamedStmt.QueryxContext`: the rows, and the settings that they get.
    unfoldable pub named_queryx_context : Value → Result (SqlRows R × Wrapped)
    unfolding query_context
    named_queryx_context arg = do rows ← query_context arg; ok (rows, n.stmt)
