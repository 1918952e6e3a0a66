-- ===== src/Tests/HandleTests.antt =====
-- The handles of db.go, tx.go and conn.go at concrete inputs.
use sqlx_v.Prelude.{ℕ, true, false, none, some, List, [], ◌∷◌, ◌≡◌, refl, Bytes, bytes_eq, codes}
use sqlx_v.Errors.{Result, ok}
use sqlx_v.GoStrings.{itoa}
use sqlx_v.SyncMap.{load, store}
use sqlx_v.Value.{basic, int, slice_of, pointer_to}
use sqlx_v.Reflectx.Mapper.{Mapper}
use sqlx_v.Reflectx.Address.{Memory}
use sqlx_v.Reflectx.Tags.{Setting}
use sqlx_v.Bind.Registry.{Binds, dollar, bind_type}
use sqlx_v.Bind.Compile.{compile}
use sqlx_v.Bind.Compile.Cache.{compile_named_query}
use sqlx_v.Engine.Dest.{Slot}
use sqlx_v.Engine.Scan.{SqlRows, Caches}
use sqlx_v.Engine.Scan.Select.{Dest}
use sqlx_v.Handles.{
  Handle, NamedStmt, same_settings, handle_of, select_context, connx, conn_begin_txx,
  prepare_named_context,
}
use sqlx_v.Handles.Settings.{
  begins_in_conn, connects, stays, further, Reaches, Reaches-select_context,
}

abbrev lower : Mapper
lower = record { map_func = some (λ s. s); tag_map_func = none; strict_tags = false }

abbrev own : Mapper
own = record { map_func = none; tag_map_func = none; strict_tags = false }

abbrev db : Handle
db = record {
  object = 1;
  driver_name = codes "pgx";
  mapper = some own;
  is_unsafe = true;
  strict_tag_parsing = true;
}

-- A transaction of a connection of the database.
in_transaction : Reaches db (same_settings db 3)
unfolding connx conn_begin_txx
in_transaction =
    further {s = same_settings db 2} (further stays (connects (ok 2) refl))
      (begins_in_conn (ok 3) refl)

abbrev setting : Setting
setting = record {
  structs = [];
  mapper = lower;
  scanner = λ t. false;
  is_letter_or_digit = λ r. true;
  runes = λ s. s;
}

abbrev rows : SqlRows ℕ
rows = record {
  columns = ok (codes "id" ∷ []);
  pending = 7 ∷ [];
  err = none;
  close_err = none;
  closes = 0;
}

abbrev no_scan : ℕ → List Slot → Memory → Memory × Result (Unit {0})
no_scan n dest m = (m, ok tt)

abbrev caches : Caches
caches = record { types = []; metas = [] }

abbrev fresh : Memory
fresh = record { cell = λ p. 0; next = 1000 }

abbrev numbers : Dest
numbers = record { type = some (pointer_to (slice_of (basic int))); target = 100 }

Reaches-select_context_example :
    select_context lower setting
      (λ t. 8)
      no_scan
      (handle_of (same_settings db 3))
      (ok rows)
      numbers
      caches
      fresh
      []
    ≡ select_context lower setting (λ t. 8) no_scan (handle_of db) (ok rows) numbers caches fresh []
Reaches-select_context_example =
    Reaches-select_context lower setting (λ t. 8) no_scan (ok rows) numbers caches fresh []
      in_transaction

abbrev binds : Binds
binds = (codes "pgx", dollar) ∷ []

abbrev prepare : Bytes → Result ℕ
prepare q = ok 9

abbrev prepared : NamedStmt
prepared = record {
  query_string = codes "id = $1";
  params = codes "id" ∷ [];
  stmt = record { object = 9; mapper = some lower; is_unsafe = true; strict_tag_parsing = true };
}

prepared_ok : (prepare_named_context lower binds db prepare (codes "id = :id") []).0 ≡ ok prepared
unfolding prepare_named_context compile_named_query compile bind_type load store bytes_eq itoa
prepared_ok = refl
