-- ===== src/Tests/StatementTests.antt =====
-- `Stmt` of stmt.go and `NamedStmt` of named_stmt.go at concrete inputs.
use sqlx_v.Prelude.{
  ℕ, ◌+◌, false, none, some, List, [], ◌∷◌, ◌≡◌, ◌⊎◌, refl, inl, bytes_eq, codes, Bytes, String,
}
use sqlx_v.Errors.{Result, ok, ◌>>=◌, wrap}
use sqlx_v.GoStrings.{itoa}
use sqlx_v.SyncMap.{load, store}
use sqlx_v.Value.{basic, int, struct_type, Value, basic_value, struct_value, cons, end}
use sqlx_v.Bind.Registry.{Binds, dollar, bind_type}
use sqlx_v.Bind.Compile.{compile}
use sqlx_v.Bind.Compile.Cache.{compile_named_query}
use sqlx_v.Engine.Dest.{is_scannable}
use sqlx_v.Handles.{
  Handle, NamedStmt, sql_stmt, stmtx, handle_of, select_context, prepare_named_context,
  prepared_named, preparex_context,
}
use sqlx_v.Handles.Exec.{bind_statement_args}
use sqlx_v.Handles.Calls.{bind_default_mapper, named_env, bind_named, handle_bind_named}
use sqlx_v.Handles.Statements.{stmt_select_context, select_by, named_select_context}
use sqlx_v.Engine.Scan.Select.{slice_dest}
use sqlx_v.Handles.Statements.Unmapped.{panicked_scan, NeedsMapper, stmtx-select_context}
use sqlx_v.Handles.Statements.Prepared.{prepare_named_context-bind_named}
use sqlx_v.Handles.Statements.Named.{named_select_context-bind_named}
use sqlx_v.Bind.Named.{bind_named_mapper, bind_by_kind, bind_struct}
use sqlx_v.Bind.Args.{
  Arg, of_value, deref_all, field_by_indexes_read_only, bind_struct_direct, direct_loop,
}
use sqlx_v.Reflectx.Flatten.{map_type}
use sqlx_v.Engine.Scan.{SqlRows}
use sqlx_v.Engine.Scan.Select.{select_scan}
use sqlx_v.Tests.Users.{empty_IsCurrent, setting, size, fresh, sql_scan, caches, rows_of, slice}

-- A transaction with no mapper.
abbrev tx : Handle
tx = record {
  object = 3;
  driver_name = codes "pgx";
  mapper = none;
  is_unsafe = false;
  strict_tag_parsing = false;
}

stmtx-select_context_example :
    (stmt_select_context setting size sql_scan
        (record { object = 10; mapper = none; is_unsafe = false; strict_tag_parsing = false })
        (ok (rows_of (7 ∷ [])))
        slice
        caches
        fresh
        []
      ≡ select_context setting.mapper setting size sql_scan
          (handle_of tx)
          (ok (rows_of (7 ∷ [])))
          slice
          caches
          fresh
          [])
    ⊎ ((tx.mapper ≡ none)
        × NeedsMapper setting slice
        × (stmt_select_context setting size sql_scan
              (record { object = 10; mapper = none; is_unsafe = false; strict_tag_parsing = false })
              (ok (rows_of (7 ∷ [])))
              slice
              caches
              fresh
              []
            ≡ ok (panicked_scan (rows_of (7 ∷ [])) caches fresh [])))
unfolding stmtx
stmtx-select_context_example =
    stmtx-select_context setting size sql_scan setting.mapper tx (λ s. s + 1) (sql_stmt 9)
      (rows_of (7 ∷ [])) slice caches fresh [] refl

-- Here the statement panics.
stmt_panics :
    stmt_select_context setting size sql_scan
      (record { object = 10; mapper = none; is_unsafe = false; strict_tag_parsing = false })
      (ok (rows_of (7 ∷ [])))
      slice
      caches
      fresh
      []
    ≡ ok (panicked_scan (rows_of (7 ∷ [])) caches fresh [])
unfolding stmt_select_context select_by slice_dest is_scannable
stmt_panics = refl

abbrev binds : Binds
binds = (codes "pgx", dollar) ∷ []

abbrev prepare : Bytes → Result ℕ
prepare q = ok 9

abbrev seven : Value
seven = struct_value (struct_type 0) (cons (basic_value (basic int) 7) end)

abbrev prepared : NamedStmt
prepared = record {
  query_string = codes "id = $1";
  params = codes "id" ∷ [];
  stmt = record {
    object = 9;
    mapper = some (bind_default_mapper (λ s. s));
    is_unsafe = false;
    strict_tag_parsing = false;
  };
}

prepare_named_context-bind_named_example :
    (prepare (codes "id = $1") ≡ ok 9)
    × ((s : String) × ((handle_bind_named setting (λ s. s) binds tx (codes "id = :id") seven []).0
          ≡ (do
            args ← wrap s (
                bind_statement_args setting
                  (some (bind_default_mapper (λ s. s)))
                  (codes "id" ∷ [])
                  seven)
            ok (codes "id = $1", args))))
unfolding prepare_named_context compile_named_query compile bind_type load store bytes_eq itoa
prepare_named_context-bind_named_example =
    prepare_named_context-bind_named setting (λ s. s) binds tx prepare (codes "id = :id") seven []
      [] {n = prepared} {arg_type = struct_type 0} refl (inl refl) empty_IsCurrent empty_IsCurrent
      refl

abbrev execute : List Arg → Result (SqlRows ℕ)
execute args = ok (rows_of (7 ∷ []))

named_select_context-bind_named_example :
    (prepare (codes "id = $1") ≡ ok 9)
    × (named_select_context setting size sql_scan prepared execute slice seven caches fresh [] ≡ (do
      rows ← execute (of_value (basic_value (basic int) 7) ∷ [])
      ok (
          select_scan
            (named_env setting (λ s. s))
            size
            sql_scan
            rows
            slice
            false
            false
            caches
            fresh
            [])))
unfolding prepare_named_context prepared_named preparex_context compile_named_query compile
    bind_type load store bytes_eq itoa handle_bind_named bind_named bind_named_mapper bind_by_kind
    bind_struct bind_struct_direct direct_loop field_by_indexes_read_only deref_all map_type
named_select_context-bind_named_example =
    named_select_context-bind_named setting size sql_scan (λ s. s) binds tx prepare
      (codes "id = :id") seven [] [] execute slice caches fresh [] {n = prepared}
      {arg_type = struct_type 0} refl (inl refl) empty_IsCurrent empty_IsCurrent refl refl
