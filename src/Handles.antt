-- ===== src/Handles.antt =====
-- `DB`, `Tx`, `Conn`, `Stmt` and `NamedStmt` of db.go, tx.go, conn.go, stmt.go and named_stmt.go, and
-- `extractMeta`, `SelectContext`, `GetContext` of helpers.go: what each hands on. The objects of
-- database/sql are numbers, and what its calls return is an argument.
pub mod Settings
pub mod Exec
pub mod Calls
pub mod Statements
use sqlx_v.Prelude.{
  ℕ, Bool, true, false, Option, none, some, List, [], ◌∷◌, ◌≡◌, refl, Bytes, codes,
}
use sqlx_v.Errors.{Error, Result, ok, fail, panics, ◌>>=◌, wrap}
use sqlx_v.Value.{GoType}
use sqlx_v.Reflectx.Mapper.{Mapper, new_mapper_func}
use sqlx_v.Reflectx.Address.{Memory}
use sqlx_v.Reflectx.Tags.{Setting}
use sqlx_v.Bind.Registry.{Binds, bind_type}
use sqlx_v.Bind.Rebind.{rebind}
use sqlx_v.Bind.Compile.Cache.{CompileCache, CompileResult, compile_named_query}
use sqlx_v.Engine.Dest.{Slot}
use sqlx_v.Engine.Scan.{SqlRows, Caches, Scanned}
use sqlx_v.Engine.Scan.Select.{Dest, Item, select_scan}
use sqlx_v.Engine.Scan.Get.{get_scan}

-- `DB`, `Tx` and `Conn` have the same fields, but for the object that they wrap.
pub record Handle : Type 0 where
  pub object : ℕ
  pub driver_name : Bytes
  pub mapper : Option Mapper
  pub is_unsafe : Bool
  pub strict_tag_parsing : Bool

-- The fields of `Rows`, `Row` and `Stmt` that come from a handle.
pub record Wrapped : Type 0 where
  pub object : ℕ
  pub mapper : Option Mapper
  pub is_unsafe : Bool
  pub strict_tag_parsing : Bool

pub record NamedStmt : Type 0 where
  pub query_string : Bytes
  pub params : List Bytes
  pub stmt : Wrapped

-- A handle with another object of database/sql and the same settings.
abbrev pub same_settings : Handle → ℕ → Handle
same_settings h object = record {
  object = object;
  driver_name = h.driver_name;
  mapper = h.mapper;
  is_unsafe = h.is_unsafe;
  strict_tag_parsing = h.strict_tag_parsing;
}

abbrev pub wrapped_by : Handle → ℕ → Wrapped
wrapped_by h object = record {
  object = object;
  mapper = h.mapper;
  is_unsafe = h.is_unsafe;
  strict_tag_parsing = h.strict_tag_parsing;
}

-- `DB.BeginTxx`, and `Conn.BeginTxx`, which does not wrap the error.
unfoldable pub db_begin_txx : Handle → Result ℕ → Result Handle
db_begin_txx db begun = do
  tx ← wrap "sqlx: error beginning transaction: %w" begun
  ok (same_settings db tx)

unfoldable pub conn_begin_txx : Handle → Result ℕ → Result Handle
conn_begin_txx c begun = do tx ← begun; ok (same_settings c tx)

unfoldable pub connx : Handle → Result ℕ → Result Handle
connx db got = do conn ← wrap "sqlx: error getting connection: %w" got; ok (same_settings db conn)

-- `DB.QueryxContext`, and those of `Tx` and `Conn`, which do not wrap the error.
unfoldable pub db_queryx_context : Handle → Result ℕ → Result Wrapped
db_queryx_context db queried = do r ← wrap "sqlx: error in query: %w" queried; ok (wrapped_by db r)

unfoldable pub queryx_context : Handle → Result ℕ → Result Wrapped
queryx_context h queried = do r ← queried; ok (wrapped_by h r)

-- What `Tx.Stmtx` accepts: a `Stmt`, a pointer to one, which may be nil, and a `*sql.Stmt`.
pub data Statement : Type 0 where
  stmt_value : Wrapped → Statement
  stmt_pointer : Option Wrapped → Statement
  sql_stmt : ℕ → Statement
  other_statement : Statement

abbrev pub sql_stmt_of : Statement → Result ℕ
sql_stmt_of (stmt_value s) = ok s.object
sql_stmt_of (stmt_pointer (some s)) = ok s.object
sql_stmt_of (stmt_pointer none) = panics
sql_stmt_of (sql_stmt s) = ok s
sql_stmt_of other_statement = panics

-- `Tx.Stmtx` and `Tx.StmtxContext`; `tx_stmt` is `tx.Stmt` of database/sql.
unfoldable pub stmtx : Handle → (ℕ → ℕ) → Statement → Result Wrapped
stmtx tx tx_stmt stmt = do s ← sql_stmt_of stmt; ok (wrapped_by tx (tx_stmt s))

-- `Tx.NamedStmt` and `Tx.NamedStmtContext`, with the statement of the transaction.
unfoldable pub tx_named_stmt : Handle → NamedStmt → ℕ → NamedStmt
tx_named_stmt tx n stmt = record n { stmt = wrapped_by tx stmt }

-- `Rebind` of `DB`, `Tx` and `Conn`.
unfoldable pub handle_rebind : Binds → Handle → Bytes → Option Bytes
handle_rebind binds h query = rebind (bind_type binds h.driver_name) query

-- `DB.MapperFunc`.
unfoldable pub mapper_func : Handle → (Bytes → Bytes) → Handle
mapper_func db mf = record db { mapper = some (new_mapper_func mf) }

-- What `Select` and `Get` take: a handle, or a type of the caller's.
pub data Queryer : Type 0 where
  handle_of : Handle → Queryer
  other_queryer : Queryer

unfoldable pub extract_driver_name : Queryer → Bytes
extract_driver_name (handle_of h) = h.driver_name
extract_driver_name other_queryer = codes "unknown"

-- `defaultMapper`, which is a mapper by `NameMapper`: a variable of the package.
module _ (default_mapper : Mapper) where
  unfoldable pub new_db : ℕ → Bytes → Handle
  new_db db driver_name = record {
    object = db;
    driver_name = driver_name;
    mapper = some default_mapper;
    is_unsafe = false;
    strict_tag_parsing = false;
  }

  -- `PreparexContext`, which every `Preparex` calls; it does not see the settings.
  unfoldable pub preparex_context : Result ℕ → Result Wrapped
  preparex_context prepared = do
    s ← prepared
    ok (record {
      object = s;
      mapper = some default_mapper;
      is_unsafe = false;
      strict_tag_parsing = false;
    })

  -- Behind the compilation; `prepare` is `PrepareContext`.
  unfoldable pub prepared_named : Handle → (Bytes → Result ℕ) → CompileResult → Result NamedStmt
  unfolding preparex_context
  prepared_named db prepare (q, args) = do
    stmt ← wrap "sqlx: error preparing statement: %w" (preparex_context (prepare q))
    ok (record {
      query_string = q;
      params = args;
      stmt = record stmt { is_unsafe = db.is_unsafe; strict_tag_parsing = db.strict_tag_parsing };
    })

  -- `DB.PrepareNamedContext`.
  unfoldable pub prepare_named_context :
      Binds → Handle → (Bytes → Result ℕ) → Bytes → CompileCache → Result NamedStmt × CompileCache
  unfolding prepared_named
  prepare_named_context binds db prepare query cache =
      let (r, cache') = compile_named_query (bind_type binds db.driver_name) query cache in
      ((wrap "sqlx: error compiling named query: %w" r >>= prepared_named db prepare), cache')

  -- `Tx.PrepareNamedContext`, which does not wrap the errors.
  unfoldable pub tx_prepare_named_context :
      Binds → Handle → (Bytes → Result ℕ) → Bytes → CompileCache → Result NamedStmt × CompileCache
  unfolding preparex_context
  tx_prepare_named_context binds tx prepare query cache =
      let (r, cache') = compile_named_query (bind_type binds tx.driver_name) query cache in
      (
        (do
          (q, args) ← r
          stmt ← preparex_context (prepare q)
          ok (record {
            query_string = q;
            params = args;
            stmt = record stmt {
              is_unsafe = tx.is_unsafe;
              strict_tag_parsing = tx.strict_tag_parsing;
            };
          })),
        cache',
      )

  abbrev pub used_mapper : Option Mapper → Mapper
  used_mapper none = default_mapper
  used_mapper (some m) = m

  unfoldable pub extract_meta : Queryer → Bool × Bool × Mapper
  extract_meta (handle_of h) = (h.is_unsafe, h.strict_tag_parsing, used_mapper h.mapper)
  extract_meta other_queryer = (false, false, default_mapper)

  module _ {R : Type 0} (env : Setting) (size : GoType → ℕ)
      (sql_scan : R → List Slot → Memory → Memory × Result (Unit {0})) where
    unfoldable pub select_context :
        Queryer
        → Result (SqlRows R)
        → Dest
        → Caches
        → Memory
        → List Item
        → Result (Scanned R (List Item))
    unfolding extract_meta
    select_context q queried dest caches memory items = do
      rows ← wrap "sqlx: error in SelectContext query: %w" queried
      let (is_unsafe, strict, mapper) = extract_meta q
      ok (
          select_scan (record env { mapper = mapper }) size sql_scan rows dest is_unsafe strict
            caches memory items)

    unfoldable pub get_context :
        Queryer → Result (SqlRows R) → Dest → Caches → Memory → Result (Scanned R Bool)
    unfolding extract_meta
    get_context q queried dest caches memory = do
      rows ← wrap "sqlx: error in GetContext query: %w" queried
      let (is_unsafe, strict, mapper) = extract_meta q
      ok (
          get_scan (record env { mapper = mapper }) size sql_scan rows dest is_unsafe strict caches
            memory)
