-- ===== src/Tests/EngineTests.antt =====
-- engine.go's scan loop and `TypeMap` at concrete inputs.
use sqlx_v.Prelude.{
  ℕ, ◌+◌, ◌≤◌, List, true, false, none, some, [], ◌∷◌, ◌≡◌, refl, arith, bytes_eq, codes, length,
  get_elem?,
}
use sqlx_v.Errors.{external, Result, ok}
use sqlx_v.SyncMap.{load}
use sqlx_v.Value.{basic, int, pointer_to, struct_type}
use sqlx_v.Reflectx.Address.{Memory, write_cell}
use sqlx_v.Engine.Meta.{compute_meta}
use sqlx_v.Engine.Dest.{Slot, discard, empty, into, populate_scan_dest}
use sqlx_v.Engine.Dest.Columns.{populate_scan_dest-column}
use sqlx_v.Engine.Scan.Select.{Dest, select_scan, slice_dest}
use sqlx_v.Engine.Scan.All.{select_scan-ok}
use sqlx_v.Engine.Scan.Get.{get_scan}
use sqlx_v.Engine.Scan.First.{get_scan-first, many_rows, one_row}
use sqlx_v.Engine.Scan.Ready.{select_scan-Ready, get_scan-found}
use sqlx_v.Engine.Scan.Apart.{Placed, select_scan-Placed}
use sqlx_v.Engine.Rows.{Row, Rows, struct_scan}
use sqlx_v.Engine.Rows.Sized.{IsSized, struct_scan-IsSized}
use sqlx_v.Tests.Users.{
  caches, fresh, id_IsCoherent, id_meta, object, ready, rows_of, setting, size, slice, sql_scan,
  sql_scan-ok, user_map,
}

populate_scan_dest-column_example :
    get_elem? (populate_scan_dest size 500 id_meta (empty ∷ []) fresh).0 0
    ≡ some (into (some (basic int)) (500 + 0))
unfolding compute_meta load bytes_eq
populate_scan_dest-column_example =
    populate_scan_dest-column size 500 (codes "User") user_map false (codes "id" ∷ []) 0
      (codes "id") (empty ∷ []) fresh
      (record { paths = (id_IsCoherent, tt); names = (id_IsCoherent, tt) }) refl refl refl
      (omega arith)

select_scan-Ready_example :
    let s =
      select_scan setting size sql_scan (rows_of (7 ∷ 8 ∷ [])) slice false true caches fresh [] in
    (s.result ≡ ok tt) × (length s.scan.out ≡ 2)
unfolding slice_dest
select_scan-Ready_example =
    select_scan-Ready setting size sql_scan (rows_of (7 ∷ 8 ∷ [])) slice
      (pointer_to (struct_type 0)) false true caches fresh [] refl (ready (7 ∷ 8 ∷ [])) sql_scan-ok

selects_ok :
    (select_scan setting size sql_scan
      (rows_of (7 ∷ 8 ∷ []))
      slice
      false
      true
      caches
      fresh
      []).result
    ≡ ok tt
unfolding slice_dest
selects_ok =
    (select_scan-Ready setting size sql_scan (rows_of (7 ∷ 8 ∷ [])) slice
      (pointer_to (struct_type 0)) false true caches fresh [] refl (ready (7 ∷ 8 ∷ []))
      sql_scan-ok).0

select_scan-ok_example :
    (length
        (select_scan setting size sql_scan
          (rows_of (7 ∷ 8 ∷ []))
          slice
          false
          true
          caches
          fresh
          []).scan.out
      ≡ 0 + 2)
    × ((rows_of (7 ∷ 8 ∷ [])).err ≡ none)
    × ((rows_of (7 ∷ 8 ∷ [])).close_err ≡ none)
select_scan-ok_example =
    select_scan-ok setting size sql_scan (rows_of (7 ∷ 8 ∷ [])) slice false true caches fresh []
      selects_ok

get_scan-first_example :
    let all =
      get_scan setting size sql_scan
        (many_rows (ok (codes "id" ∷ [])) 7 (8 ∷ []) (some (external 1)) none 0)
        object
        false
        true
        caches
        fresh in
    let one =
      get_scan setting size sql_scan
        (one_row (ok (codes "id" ∷ [])) 7 (8 ∷ []) (some (external 1)) none 0)
        object
        false
        true
        caches
        fresh in
    (all.scan ≡ one.scan) × (all.result ≡ one.result) × (all.caches ≡ one.caches)
get_scan-first_example =
    get_scan-first setting size sql_scan (ok (codes "id" ∷ [])) 7 (8 ∷ []) (some (external 1)) none
      0 object false true caches fresh

sql_scan-next : (n : ℕ) (dest : List Slot) (m : Memory) → m.next ≤ (sql_scan n dest m).0.next
sql_scan-next n [] m = omega arith
sql_scan-next n (empty ∷ dest) m = omega arith
sql_scan-next n (discard ∷ dest) m = omega arith
sql_scan-next n (into t p ∷ dest) m = unfold write_cell in omega arith

select_scan-Placed_example :
    Placed 8 1000
      (select_scan setting size sql_scan
        (rows_of (7 ∷ 8 ∷ []))
        slice
        false
        true
        caches
        fresh
        []).scan.memory.next
      (select_scan setting size sql_scan
        (rows_of (7 ∷ 8 ∷ []))
        slice
        false
        true
        caches
        fresh
        []).scan.out
unfolding slice_dest
select_scan-Placed_example =
    select_scan-Placed setting size sql_scan (rows_of (7 ∷ 8 ∷ [])) slice
      (pointer_to (struct_type 0)) false true caches fresh sql_scan-next refl refl

get_scan-found_example :
    (get_scan setting size sql_scan (rows_of (7 ∷ [])) object false true caches fresh).result
    ≡ ok tt
get_scan-found_example =
    get_scan-found setting size sql_scan (rows_of (7 ∷ [])) object (struct_type 0) false true caches
      fresh 7 [] refl (ready (7 ∷ [])) refl (sql_scan-ok 7)

abbrev one_value : Row ℕ
one_value = record { err = none; rows = rows_of (7 ∷ []) }

-- `rows.Scan` of one pointer.
abbrev scan_at : ℕ → Memory → Memory × Result (Unit {0})
scan_at n m = (write_cell m 300 n, ok tt)

abbrev fresh_rows : Rows
fresh_rows = record {
  columns = ok (codes "id" ∷ []);
  mapper = none;
  is_unsafe = false;
  started = false;
  meta = [];
  scan_dest = [];
  base_type = none;
}

-- As the first call leaves them.
abbrev started_rows : Rows
started_rows = record {
  columns = ok (codes "id" ∷ []);
  mapper = some setting.mapper;
  is_unsafe = false;
  started = true;
  meta = id_meta;
  scan_dest = empty ∷ [];
  base_type = some (struct_type 0);
}

struct_scan-IsSized_example :
    IsSized (struct_scan setting setting.mapper size (sql_scan 7) fresh_rows object [] fresh).0.0
struct_scan-IsSized_example =
    struct_scan-IsSized setting setting.mapper size (sql_scan 7) fresh_rows object [] fresh refl

abbrev other_object : Dest
other_object = record { type = some (pointer_to (struct_type 1)); target = 200 }
