-- ===== src/Handles/Settings.antt =====
-- The settings on the way from a handle to the transactions and connections that come from it.
use sqlx_v.Prelude.{ℕ, some, List, ◌≡◌, refl, ap, ◌∙◌, arith, Bytes}
use sqlx_v.Errors.{Result, ok, fail, panics, ◌>>=◌, wrap, >>=-elim}
use sqlx_v.Value.{GoType}
use sqlx_v.Reflectx.Mapper.{Mapper}
use sqlx_v.Reflectx.Address.{Memory}
use sqlx_v.Reflectx.Tags.{Setting}
use sqlx_v.Bind.Registry.{Binds, bind_type}
use sqlx_v.Bind.Compile.Cache.{CompileCache, CompileResult, compile_named_query}
use sqlx_v.Engine.Dest.{Slot}
use sqlx_v.Engine.Scan.{SqlRows, Caches}
use sqlx_v.Engine.Scan.Select.{Dest, Item}
use sqlx_v.Handles.{
  Handle, same_settings, db_begin_txx, conn_begin_txx, connx, handle_of, select_context, NamedStmt,
  preparex_context, prepared_named, prepare_named_context, tx_prepare_named_context,
}

-- A handle that is made from another one.
pub data Derives (h : Handle) : Handle → Type 0 where
  begins_in_db : {t : Handle} (begun : Result ℕ) → db_begin_txx h begun ≡ ok t → Derives h t
  begins_in_conn : {t : Handle} (begun : Result ℕ) → conn_begin_txx h begun ≡ ok t → Derives h t
  connects : {t : Handle} (got : Result ℕ) → connx h got ≡ ok t → Derives h t

-- Any number of them, one from the other.
pub data Reaches (h : Handle) : Handle → Type 0 where
  stays : Reaches h h
  further : {s t : Handle} → Reaches h s → Derives s t → Reaches h t

-- Only the object differs.
record IsLike (h t : Handle) : Type 0 where
  like : t ≡ same_settings h t.object

Derives-IsLike : {h t : Handle} → Derives h t → IsLike h t
unfolding db_begin_txx conn_begin_txx connx
Derives-IsLike {h} (begins_in_db begun e) = record {
  like = >>=-elim (wrap _ begun) _ e λ tx found h1. ground arith;
}
Derives-IsLike {h} (begins_in_conn begun e) = record {
  like = >>=-elim begun _ e λ tx found h1. ground arith;
}
Derives-IsLike {h} (connects got e) = record {
  like = >>=-elim (wrap _ got) _ e λ tx found h1. ground arith;
}

Reaches-IsLike : {h t : Handle} → Reaches h t → IsLike h t
Reaches-IsLike stays = record { like = refl }
Reaches-IsLike (further {s} {t} r d) = record {
  like = (Derives-IsLike d).like ∙ ap (λ s. same_settings s t.object) (Reaches-IsLike r).like;
}

-- Whatever transactions and connections lie between, `Select` through the last handle does what it does
-- through the first one, for the same rows of database/sql: it returns, writes and caches the same.
pub Reaches-select_context :
    {R : Type 0} (default_mapper : Mapper) (env : Setting) (size : GoType → ℕ)
    (sql_scan : R → List Slot → Memory → Memory × Result (Unit {0})) {h t : Handle}
    (queried : Result (SqlRows R)) (dest : Dest) (caches : Caches) (memory : Memory)
    (items : List Item)
    → Reaches h t
    → select_context default_mapper env size sql_scan (handle_of t) queried dest caches memory items
      ≡ select_context default_mapper env size sql_scan
          (handle_of h)
          queried
          dest
          caches
          memory
          items
unfolding select_context
Reaches-select_context default_mapper env size sql_scan {h} {t} queried dest caches memory items r =
    ap
      (λ t.
        select_context default_mapper env size sql_scan (handle_of t) queried dest caches memory
          items)
      (Reaches-IsLike r).like

pub prepared_named-fields :
    (default_mapper : Mapper) (db : Handle) (prepare : Bytes → Result ℕ) (c : CompileResult)
    {n : NamedStmt}
    → prepared_named default_mapper db prepare c ≡ ok n
    → ((n.query_string ≡ c.0) × (n.params ≡ c.1) × (prepare c.0 ≡ ok n.stmt.object))
      × ((n.stmt.mapper ≡ some default_mapper)
          × (n.stmt.is_unsafe ≡ db.is_unsafe)
          × (n.stmt.strict_tag_parsing ≡ db.strict_tag_parsing))
unfolding prepared_named
prepared_named-fields default_mapper db prepare (q, names) {n} h = by_statement (prepare q) h
  where
    by_statement :
        (prepared : Result ℕ)
        → (wrap "sqlx: error preparing statement: %w" (preparex_context default_mapper prepared)
            >>= λ stmt. ok (record {
              query_string = q;
              params = names;
              stmt = record stmt {
                is_unsafe = db.is_unsafe;
                strict_tag_parsing = db.strict_tag_parsing;
              };
            }))
          ≡ ok n
        → ((n.query_string ≡ q) × (n.params ≡ names) × (prepared ≡ ok n.stmt.object))
          × ((n.stmt.mapper ≡ some default_mapper)
              × (n.stmt.is_unsafe ≡ db.is_unsafe)
              × (n.stmt.strict_tag_parsing ≡ db.strict_tag_parsing))
    by_statement (ok s) e = unfold preparex_context in ground arith
    by_statement (fail x) e = absurd (unfold preparex_context in ground arith)
    by_statement panics e = absurd (unfold preparex_context in ground arith)

-- A named statement that a `DB` prepares has the flags of the `DB`, but the default mapper, whatever
-- mapper the `DB` has.
pub prepare_named_context-default :
    (default_mapper : Mapper) (binds : Binds) (db : Handle) (prepare : Bytes → Result ℕ)
    (query : Bytes) (cache : CompileCache) {n : NamedStmt}
    → (prepare_named_context default_mapper binds db prepare query cache).0 ≡ ok n
    → (n.stmt.mapper ≡ some default_mapper)
      × (n.stmt.is_unsafe ≡ db.is_unsafe)
      × (n.stmt.strict_tag_parsing ≡ db.strict_tag_parsing)
unfolding prepare_named_context
prepare_named_context-default default_mapper binds db prepare query cache {n} h =
    let (r, cache') = compile_named_query (bind_type binds db.driver_name) query cache in
    >>=-elim (wrap "sqlx: error compiling named query: %w" r) _ h
      λ c compiled h1. (prepared_named-fields default_mapper db prepare c h1).1

-- `PrepareNamed` of a `Tx` gives the statement that it would give of a `DB` with the same settings.
pub tx_prepare_named_context-ok :
    (default_mapper : Mapper) (binds : Binds) (tx : Handle) (prepare : Bytes → Result ℕ)
    (query : Bytes) (cache : CompileCache) {n : NamedStmt}
    → (tx_prepare_named_context default_mapper binds tx prepare query cache).0 ≡ ok n
    → (prepare_named_context default_mapper binds tx prepare query cache).0 ≡ ok n
unfolding tx_prepare_named_context prepare_named_context prepared_named
tx_prepare_named_context-ok default_mapper binds tx prepare query cache h =
    let (r, cache') = compile_named_query (bind_type binds tx.driver_name) query cache in
    >>=-elim r _ h λ c compiled h1.
      >>=-elim (preparex_context default_mapper (prepare c.0)) _ h1
        λ stmt found e. rw (compiled, found) e
