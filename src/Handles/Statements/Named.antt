-- ===== src/Handles/Statements/Named.antt =====
-- `NamedStmt.SelectContext` of named_stmt.go, against `BindNamed` and `selectScan`.
use sqlx_v.Prelude.{ℕ, some, List, ◌≡◌, ◌⊎◌, Bool, none, ap, ap₂, sym, ◌∙◌, Bytes}
use sqlx_v.Errors.{Result, ok, ◌>>=◌, >>=-elim, wrap, wrap-ok}
use sqlx_v.Value.{GoType, struct, kind, Value, Entries, type_of}
use sqlx_v.Reflectx.Mapper.{Mapper}
use sqlx_v.Reflectx.Address.{Memory}
use sqlx_v.Reflectx.Tags.{Setting}
use sqlx_v.Bind.Registry.{Binds}
use sqlx_v.Bind.Compile.Cache.{CompileCache, IsCurrent}
use sqlx_v.Bind.Args.{Arg, convert_map_string_interface}
use sqlx_v.Bind.Named.{pointed}
use sqlx_v.Engine.Dest.{Slot}
use sqlx_v.Engine.Scan.{SqlRows, Caches}
use sqlx_v.Engine.Scan.Select.{Dest, Item, select_scan}
use sqlx_v.Handles.{Handle, Wrapped, NamedStmt, prepare_named_context}
use sqlx_v.Handles.Settings.{prepare_named_context-default}
use sqlx_v.Handles.Exec.{bind_statement_args}
use sqlx_v.Handles.Calls.{bind_default_mapper, named_env, handle_bind_named}
use sqlx_v.Handles.Statements.{select_unmapped, select_by, named_select_context}
use sqlx_v.Handles.Statements.Prepared.{prepare_named_context-bind_named}

module _ {R : Type 0} (env : Setting) (size : GoType → ℕ)
    (sql_scan : R → List Slot → Memory → Memory × Result (Unit {0}))
    (to_lower : Bytes → Bytes) where
  select_by-select_scan :
      (s : Wrapped) (dest : Dest) (caches : Caches) (memory : Memory) (items : List Item)
      {m : Mapper} {is_unsafe strict : Bool}
      → s.mapper ≡ some m
      → s.is_unsafe ≡ is_unsafe
      → s.strict_tag_parsing ≡ strict
      → (rows : SqlRows R)
      → select_by env size sql_scan s rows dest caches memory items
        ≡ select_scan
            (record env { mapper = m })
            size
            sql_scan
            rows
            dest
            is_unsafe
            strict
            caches
            memory
            items
  unfolding select_by
  select_by-select_scan s dest caches memory items {m} same_mapper same_unsafe same_strict rows =
      ap
        (λ o. elim o [
          | none ↦ select_unmapped env size sql_scan rows dest caches memory items
          | some m ↦
              select_scan (record env { mapper = m }) size sql_scan rows dest s.is_unsafe
                s.strict_tag_parsing caches memory items
        ])
        same_mapper
      ∙ ap₂
          (λ is_unsafe strict.
            select_scan (record env { mapper = m }) size sql_scan rows dest is_unsafe strict caches
              memory items)
          same_unsafe same_strict

  -- Where `NameMapper` is `strings.ToLower`: what a named statement of a `DB` selects for a struct, a pointer
  -- to one or a `map[string]any` that `BindNamed` can bind to its query. The driver has prepared the very
  -- query of `BindNamed`, and gets its arguments; an error of the driver is returned, and rows are
  -- scanned with the flags of the `DB` and the default mapper, as `selectScan` does.
  pub named_select_context-bind_named :
      (binds : Binds) (db : Handle) (prepare : Bytes → Result ℕ) (query : Bytes) (arg : Value)
      (cache cache' : CompileCache) (execute : List Arg → Result (SqlRows R)) (dest : Dest)
      (caches : Caches) (memory : Memory) (items : List Item) {n : NamedStmt} {arg_type : GoType}
      {q : Bytes} {args : List Arg}
      → type_of arg ≡ some arg_type
      → (kind (pointed (named_env env to_lower) arg_type) ≡ struct)
        ⊎ ((es : Entries) × (convert_map_string_interface arg ≡ ok (some es)))
      → IsCurrent cache
      → IsCurrent cache'
      → (prepare_named_context (bind_default_mapper to_lower) binds db prepare query cache).0 ≡ ok n
      → (handle_bind_named env to_lower binds db query arg cache').0 ≡ ok (q, args)
      → (prepare q ≡ ok n.stmt.object)
        × (named_select_context env size sql_scan n execute dest arg caches memory items ≡ (do
          rows ← execute args
          ok (
              select_scan
                (named_env env to_lower)
                size
                sql_scan
                rows
                dest
                db.is_unsafe
                db.strict_tag_parsing
                caches
                memory
                items)))
  unfolding named_select_context
  named_select_context-bind_named binds db prepare query arg cache cache' execute dest caches memory
        items {n} {arg_type} {q} {args} typed is_named current current' prepared bound =
      let (sent, (s, same)) =
        prepare_named_context-bind_named env to_lower binds db prepare query arg cache cache' typed
          is_named current current' prepared in
      let (own_mapper, own_unsafe, own_strict) =
        prepare_named_context-default (bind_default_mapper to_lower) binds db prepare query cache
          prepared in
      >>=-elim (wrap s (bind_statement_args env n.stmt.mapper n.params arg)) _ (sym same ∙ bound)
        λ found args_found e.
          let same_query : n.query_string ≡ q = cc in
          let same_args : found ≡ args = cc in
          let scanned =
            select_by-select_scan n.stmt dest caches memory items own_mapper own_unsafe
              own_strict in
          (
            ap prepare (sym same_query) ∙ sent,
            ap
                  (λ r.
                    (r >>= λ args. execute args >>= λ rows.
                    ok (select_by env size sql_scan n.stmt rows dest caches memory items)))
                  (wrap-ok s _ args_found ∙ ap ok same_args)
                ∙ λ i. (execute args >>= λ rows. ok (scanned rows i)),
          )
