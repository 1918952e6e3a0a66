-- ===== src/Engine/Scan/Ready.antt =====
-- `selectScan` and `getScan` into structs whose columns are known: they read the rows.
use sqlx_v.Prelude.{
  ℕ, ◌+◌, ◌∙◌, arith, length-append, ap, sym, subst, Bool, true, false, Option, none, some, List,
  [], ◌∷◌, ◌≡◌, refl, if◌then◌else◌, Bytes, length, replicate,
}
use sqlx_v.Errors.{Error, no_rows, stop_iter, Result, ok, fail}
use sqlx_v.Value.{GoType, elem, kind, is_pointer}
use sqlx_v.Reflectx.Address.{Memory}
use sqlx_v.Reflectx.Mapper.{StructMap}
use sqlx_v.Reflectx.Tags.{Setting}
use sqlx_v.Reflectx.Flatten.{done}
use sqlx_v.Reflectx.TypeMap.{type_map}
use sqlx_v.Engine.Meta.{FieldMeta}
use sqlx_v.Engine.Meta.Cache.{build_meta}
use sqlx_v.Engine.Dest.{Slot, empty, is_scannable}
use sqlx_v.Engine.Scan.{
  SqlRows, returned, closing, Caches, Scan, rows_loop, strict_error, type_name, after_scan,
  scan_struct, struct_rows, mapped_rows, column_rows, iterate_body, iterate_scan,
}
use sqlx_v.Engine.Scan.Select.{
  Dest, Item, slice_dest, select_into, select_scan, new_object, append_item,
}
use sqlx_v.Engine.Scan.Get.{pointer_dest, get_into, get_scan, same_object, find_one, found_one}

-- The columns are read, and each has a field of the struct type `t`, or may be discarded.
pub record Ready {R : Type 0} (env : Setting) (rows : SqlRows R) (t : GoType)
    (is_unsafe strict : Bool) (caches : Caches) : Type 0 where
  pub columns : List Bytes
  pub tm : StructMap
  pub meta : List FieldMeta
  pub read : rows.columns ≡ ok columns
  pub is_struct_scan : is_scannable env.scanner t ≡ false
  pub mapped : (type_map env t caches.types).0 ≡ done tm
  pub lenient : strict_error strict tm.errors ≡ none
  pub known : (build_meta t (type_name env t) columns tm is_unsafe caches.metas).0 ≡ ok meta

module _ {R : Type 0} (env : Setting) (size : GoType → ℕ)
    (sql_scan : R → List Slot → Memory → Memory × Result (Unit {0})) where
  module _ {Y : Type 0} (alloc : Memory → ℕ × Memory)
      (yield : ℕ → Memory → Y → Y × Result (Unit {0})) where
    iterate_body-Ready :
        (rows : SqlRows R) (t : GoType) (is_unsafe strict : Bool) (caches : Caches) (w : Scan Y)
        (r : Ready env rows t is_unsafe strict caches)
        → (iterate_body env size sql_scan alloc yield rows t is_unsafe strict caches w).0
          ≡ rows_loop
              (scan_struct env size sql_scan alloc yield r.meta)
              rows.err
              rows.pending
              (record w { scan_dest = replicate (length r.columns) empty })
    unfolding iterate_body column_rows mapped_rows struct_rows
    iterate_body-Ready rows t is_unsafe strict caches w r =
        rw
          (
            r.read, iterate_body, column_rows, r.is_struct_scan, r.mapped, mapped_rows, r.lenient,
            r.known, struct_rows,
          )
          refl

  -- `rows.Scan` succeeds on every row.
  abbrev pub Scans : Type 0
  Scans = (row : R) (dest : List Slot) (m : Memory) → (sql_scan row dest m).1 ≡ ok tt

  rows_loop-ok :
      {Y : Type 0} (body : R → Scan Y → Scan Y × Result (Unit {0})) (err : Option Error)
      (rows : List R) (w : Scan Y)
      → ((row : R) (w : Scan Y) → (body row w).1 ≡ ok tt)
      → (rows_loop body err rows w).1 ≡ returned err
  unfolding rows_loop
  rows_loop-ok body err [] w h = refl
  rows_loop-ok body err (row ∷ rows) w h =
      rw (rows_loop, h row w) (rows_loop-ok body err rows (body row w).0 h)

  scan_struct-ok :
      (is_ptr : Bool) (n : ℕ) (meta : List FieldMeta) (row : R) (w : Scan (List Item))
      → Scans
      → (scan_struct env size sql_scan (new_object n) (append_item is_ptr n) meta row w).1 ≡ ok tt
  unfolding scan_struct after_scan
  scan_struct-ok is_ptr n meta row w scans = rw (scan_struct, scans, after_scan) refl

  rows_loop-appended :
      (body : R → Scan (List Item) → Scan (List Item) × Result (Unit {0})) (err : Option Error)
      (rows : List R) (w : Scan (List Item))
      → ((row : R) (w : Scan (List Item))
          → ((body row w).1 ≡ ok tt) × (length (body row w).0.out ≡ length w.out + 1))
      → length (rows_loop body err rows w).0.out ≡ length w.out + length rows
  unfolding rows_loop
  rows_loop-appended body err [] w h = omega arith
  rows_loop-appended body err (row ∷ rows) w h =
      rw (rows_loop, (h row w).0)
        (rows_loop-appended body err rows (body row w).0 h ∙ omega (arith, (h row w).1))

  scan_struct-appended :
      (is_ptr : Bool) (n : ℕ) (meta : List FieldMeta) (row : R) (w : Scan (List Item))
      → Scans
      → length
          (scan_struct env size sql_scan (new_object n) (append_item is_ptr n) meta row w).0.out
        ≡ length w.out + 1
  unfolding scan_struct after_scan
  scan_struct-appended is_ptr n meta row w scans =
      rw (scan_struct, scans, after_scan) (length-append w.out _ ∙ refl)

  rows_loop-stop :
      {Y : Type 0} (body : R → Scan Y → Scan Y × Result (Unit {0})) (err : Option Error) (row : R)
      (rest : List R) (w : Scan Y)
      → (body row w).1 ≡ fail stop_iter
      → rows_loop body err (row ∷ rest) w ≡ ((body row w).0, ok tt)
  unfolding rows_loop
  rows_loop-stop body err row rest w h = rw (h, rows_loop) refl

  scan_struct-stop :
      (target : ℕ) (meta : List FieldMeta) (row : R) (w : Scan Bool)
      → ((dest : List Slot) (m : Memory) → (sql_scan row dest m).1 ≡ ok tt)
      → ((scan_struct env size sql_scan (same_object target) find_one meta row w).1
          ≡ fail stop_iter)
        × ((scan_struct env size sql_scan (same_object target) find_one meta row w).0.out ≡ true)
  unfolding scan_struct after_scan
  scan_struct-stop target meta row w scans =
      (rw (scan_struct, scans, after_scan) refl, rw (scan_struct, scans, after_scan) refl)

  -- The error of the rows, or else that of their `Close`.
  abbrev pub first_error : Option Error → Option Error → Result (Unit {0})
  first_error (some e) close_err = fail e
  first_error none (some e) = fail e
  first_error none none = ok tt

  closing-first_error :
      (err close_err : Option Error) → closing close_err (returned err) ≡ first_error err close_err
  closing-first_error (some e) close_err = refl
  closing-first_error none (some e) = refl
  closing-first_error none none = refl

  -- A select reads all rows: with a pointer to a slice of structs or of pointers to structs that are
  -- not scannable and are mapped, with no tag error under strict parsing, with columns that can be read
  -- and that have fields or may be discarded, and with rows that can all be scanned, it appends one
  -- element for each row, and fails only with the error that the rows report behind the last one, or
  -- else with that of their `Close`.
  pub select_scan-Ready :
      (rows : SqlRows R) (dest : Dest) (t : GoType) (is_unsafe strict : Bool) (caches : Caches)
      (memory : Memory) (items : List Item)
      → slice_dest dest ≡ some t
      → Ready env rows (if is_pointer (kind t) then elem t else t) is_unsafe strict caches
      → Scans
      → let s = select_scan env size sql_scan rows dest is_unsafe strict caches memory items in
        (s.result ≡ first_error rows.err rows.close_err)
        × (length s.scan.out ≡ length items + length rows.pending)
  unfolding select_scan select_into iterate_scan
  select_scan-Ready rows dest t is_unsafe strict caches memory items good ready scans =
      let is_ptr = is_pointer (kind t) in
      let n = size (if is_pointer (kind t) then elem t else t) in
      let body = scan_struct env size sql_scan (new_object n) (append_item is_ptr n) ready.meta in
      let w : Scan (List Item) = record { memory = memory; scan_dest = []; out = items } in
      let w' : Scan (List Item) = record w { scan_dest = replicate (length ready.columns) empty } in
      let each =
        λ (row : R) (w : Scan (List Item)). scan_struct-ok is_ptr n ready.meta row w scans in
      rw (good, select_scan)
        (subst
          (λ p.
            (closing rows.close_err p.1 ≡ first_error rows.err rows.close_err)
            × (length p.0.out ≡ length items + length rows.pending))
          (sym (
            iterate_body-Ready (new_object n) (append_item is_ptr n) rows _ is_unsafe strict caches
              w ready))
          (
            ap (closing rows.close_err) (rows_loop-ok body rows.err rows.pending w' each)
                ∙ closing-first_error rows.err rows.close_err,
            rows_loop-appended body rows.err rows.pending w'
                (λ row w. (each row w, scan_struct-appended is_ptr n ready.meta row w scans)),
          ))

  -- A get of a struct whose columns have fields returns `sql.ErrNoRows` if there is no row, and the
  -- rows and their `Close` report no error.
  pub get_scan-no_rows :
      (rows : SqlRows R) (dest : Dest) (t : GoType) (is_unsafe strict : Bool) (caches : Caches)
      (memory : Memory)
      → pointer_dest dest ≡ some t
      → Ready env rows t is_unsafe strict caches
      → rows.pending ≡ []
      → rows.err ≡ none
      → rows.close_err ≡ none
      → (get_scan env size sql_scan rows dest is_unsafe strict caches memory).result ≡ fail no_rows
  unfolding get_scan get_into iterate_scan rows_loop
  get_scan-no_rows rows dest t is_unsafe strict caches memory good ready no_row no_err no_close =
      rw
        (
          good,
          get_scan,
          get_into,
          iterate_scan,
          iterate_body-Ready (same_object dest.target) find_one rows t is_unsafe strict caches
              (record { memory = memory; scan_dest = []; out = false }) ready,
          no_row,
          no_err,
          no_close,
          rows_loop,
        )
        refl

  -- A get of a struct whose columns have fields succeeds if the first row can be scanned, but for the
  -- error of `Close`.
  pub get_scan-found :
      (rows : SqlRows R) (dest : Dest) (t : GoType) (is_unsafe strict : Bool) (caches : Caches)
      (memory : Memory) (row : R) (rest : List R)
      → pointer_dest dest ≡ some t
      → Ready env rows t is_unsafe strict caches
      → rows.pending ≡ row ∷ rest
      → ((dest : List Slot) (m : Memory) → (sql_scan row dest m).1 ≡ ok tt)
      → (get_scan env size sql_scan rows dest is_unsafe strict caches memory).result
        ≡ returned rows.close_err
  unfolding get_scan get_into iterate_scan
  get_scan-found rows dest t is_unsafe strict caches memory row rest good ready some_row scans =
      let w : Scan Bool = record {
        memory = memory;
        scan_dest = replicate (length ready.columns) empty;
        out = false;
      } in
      let (stop, found) = scan_struct-stop dest.target ready.meta row w scans in
      rw
        (
          good,
          get_scan,
          get_into,
          iterate_scan,
          iterate_body-Ready (same_object dest.target) find_one rows t is_unsafe strict caches
              (record w { scan_dest = [] }) ready,
          some_row,
          rows_loop-stop
              (scan_struct env size sql_scan (same_object dest.target) find_one ready.meta) rows.err
              row rest w stop,
          found,
        )
        (closed rows.close_err)
    where
      closed : (e : Option Error) → found_one true (closing e (ok tt)) ≡ returned e
      closed none = refl
      closed (some e) = refl
