-- ===== src/Tests/HelperTests.antt =====
-- `StructScan` of helpers.go and `NamedStmt.ExecContext` at concrete inputs.
use sqlx_v.Prelude.{
  arith, ℕ, ◌+◌, ◌<◌, ◌≤◌, take, replicate, false, Option, none, some, List, [], ◌∷◌, ◌≡◌, refl,
  bytes_eq, codes, Bytes, get_elem?, length,
}
use sqlx_v.Errors.{Result, Error, ok}
use sqlx_v.SyncMap.{load, bytes_key}
use sqlx_v.Value.{
  GoType, basic, int, string, interface, map_of, slice_of, struct_type, Value, basic_value,
  slice_value, map_value, cons, end, entry, no_entry,
}
use sqlx_v.Reflectx.Address.{Memory}
use sqlx_v.Reflectx.Flatten.{map_type}
use sqlx_v.Bind.Args.{Arg}
use sqlx_v.Engine.Meta.{FieldMeta, compute_meta}
use sqlx_v.Engine.Dest.{Slot, empty, into, populate_scan_dest}
use sqlx_v.Engine.Dest.Columns.{IsDirect}
use sqlx_v.Engine.Rows.{Row}
use sqlx_v.Handles.{NamedStmt}
use sqlx_v.Handles.Exec.{exec_context, Ends, StepsAlone, exec_context-Ends}
use sqlx_v.Helpers.StructScan.{
  ColScanner, RowSettings, columns_dest, row_columns, row_scanner, struct_scan_of,
}
use sqlx_v.Helpers.StructScan.Columns.{columns_dest-populate_scan_dest}
use sqlx_v.Helpers.StructScan.Open.{Refused, row_struct_scan-open}
use sqlx_v.Bind.Registry.{Binds, dollar, bind_type}
use sqlx_v.Handles.{other_queryer, extract_driver_name}
use sqlx_v.Handles.Calls.{CallsBalanced, named_call, named_call-CallsBalanced}
use sqlx_v.Engine.Pool.{
  Slice, new_slice, get_scan_dest, put_scan_dest, Pool, no_slices, gets_new, writes, puts,
  PoolReaches, starts, then_step, get_scan_dest-nil,
}
use sqlx_v.Helpers.MapScan.{slice_scan, map_scan, SameValues, map_scan-slice_scan}
use sqlx_v.Tests.Users.{
  empty_IsCurrent, setting, size, fresh, user_map, id_IsCoherent, sql_scan, rows_of, object,
}

abbrev id_slots : List Slot
id_slots = into (some (basic int)) (500 + 0) ∷ []

columns_dest-populate_scan_dest_example :
    (meta : List FieldMeta) × (compute_meta (codes "User") user_map false (codes "id" ∷ [])
      ≡ ok meta)
    × ((k : ℕ) (col : Bytes) (dest : List Slot) (m' : Memory)
        → get_elem? (codes "id" ∷ []) k ≡ some col
        → IsDirect (load col user_map.names)
        → k < length dest
        → get_elem? (populate_scan_dest size 500 meta dest m').0 k ≡ get_elem? id_slots k)
unfolding columns_dest load bytes_eq
columns_dest-populate_scan_dest_example =
    columns_dest-populate_scan_dest size 500 (codes "User") user_map false (codes "id" ∷ []) fresh
      (record { paths = (id_IsCoherent, tt); names = (id_IsCoherent, tt) }) refl

-- A row with a column that `User` has not.
abbrev wide_row : Row ℕ
wide_row = record {
  err = none;
  rows = record (rows_of (7 ∷ [])) { columns = ok (codes "id" ∷ codes "age" ∷ []) };
}

abbrev settings : RowSettings
settings = record { mapper = none; is_unsafe = false; strict_tag_parsing = false }

row_struct_scan-open_example :
    let (r', after) =
      struct_scan_of setting setting.mapper size
        (row_scanner (λ t. false) sql_scan)
        (some settings)
        wide_row
        object
        fresh in
    (r' ≡ wide_row) × Refused after.1
unfolding row_columns map_type load bytes_eq
row_struct_scan-open_example =
    row_struct_scan-open setting setting.mapper size (λ t. false) sql_scan settings wide_row object
      fresh (codes "id" ∷ codes "age" ∷ []) 1 (codes "age") {t = struct_type 0} {tm = user_map} refl
      refl refl refl refl refl refl

abbrev any_map : GoType
any_map = map_of (basic string) (basic interface)

abbrev person : ℕ → Value
person n = map_value any_map (entry (codes "id") (basic_value (basic int) n) no_entry)

abbrev people : Value
people = slice_value (slice_of any_map) (cons (person 1) (cons (person 2) end))

abbrev insert_person : NamedStmt
insert_person = record {
  query_string = codes "INSERT INTO p VALUES (?)";
  params = codes "id" ∷ [];
  stmt = record { object = 9; mapper = none; is_unsafe = false; strict_tag_parsing = false };
}

-- The database counts what it executes.
abbrev count_exec : List Arg → ℕ → ℕ × (Option ℕ × Option Error)
count_exec args n = (n + 1, (some 1, none))

exec_context-Ends_example :
    Ends setting insert_person count_exec
      (person 1 ∷ person 2 ∷ [])
      0
      none
      (exec_context setting insert_person count_exec people 0)
    × StepsAlone setting insert_person count_exec (person 1 ∷ person 2 ∷ [])
exec_context-Ends_example =
    exec_context-Ends setting insert_person count_exec people 0 {elem_type = any_map} refl

abbrev add_person : Bytes
add_person = codes "INSERT INTO p VALUES (:id)"

abbrev binds : Binds
binds = (codes "pgx", dollar) ∷ []

-- The database keeps the number of its calls.
abbrev count_call : Bytes → List Arg → ℕ → ℕ × Result ℕ
count_call q args n = (n + 1, ok 2)

named_call-CallsBalanced_example :
    CallsBalanced setting
      (λ s. s)
      (bind_type binds (extract_driver_name other_queryer))
      count_call
      0
      (named_call setting (λ s. s) binds other_queryer count_call add_person people [] 0).0
named_call-CallsBalanced_example =
    named_call-CallsBalanced setting (λ s. s) binds other_queryer count_call add_person people [] 0
      {t = slice_of any_map} refl refl (omega arith) empty_IsCurrent

abbrev used : Slice
used = record { elements = into (some (basic int)) 500 ∷ []; len = 1 }

-- A slice that was written to lies in the pool.
abbrev one_idle : Pool
one_idle = record { idle = put_scan_dest used ∷ []; busy = [] }

idle_reached : PoolReaches one_idle
unfolding get_scan_dest put_scan_dest
idle_reached =
    then_step
      (then_step (then_step starts (gets_new no_slices 1))
        (writes [] [] (get_scan_dest new_slice 1) used []))
      (puts [] [] used [])

get_scan_dest-nil_example :
    ((get_scan_dest (put_scan_dest used) 1).len ≡ 1)
    × (1 ≤ length (get_scan_dest (put_scan_dest used) 1).elements)
    × (take 1 (get_scan_dest (put_scan_dest used) 1).elements ≡ replicate 1 empty)
get_scan_dest-nil_example =
    get_scan_dest-nil one_idle [] [] (put_scan_dest used) 1 idle_reached refl

-- A row of two columns of one name.
abbrev twins : ColScanner ℕ
twins = record {
  columns = λ n. ok (codes "id" ∷ codes "id" ∷ []);
  scan = λ dest n m. (n + 1, sql_scan n dest m);
}

map_scan-slice_scan_example :
    let p = slice_scan 2 twins 7 fresh in
    let q = map_scan 2 twins 7 (some []) fresh in
    (p.0 ≡ q.0) × (p.1.0 ≡ q.1.0) × SameValues (codes "id" ∷ codes "id" ∷ []) (some []) p.1.1 q.1.1
map_scan-slice_scan_example = map_scan-slice_scan 2 twins 7 (some []) fresh refl
