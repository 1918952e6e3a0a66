-- ===== src/Generics/Get/Row.antt =====
-- The one row of `GetG`, and the first one of `iterateScan`.
use sqlx_v.Prelude.{
  ℕ, Bool, true, false, Option, none, some, List, [], ◌∷◌, ◌≡◌, ◌⊎◌, refl, ap, inl, inr, ◌==◌,
  String, Bytes, length, replicate, Bool-cases, Option-cases,
}
use sqlx_v.Errors.{Error, no_rows, stop_iter, root, Result, ok, fail, panics, wrap}
use sqlx_v.Value.{GoType}
use sqlx_v.Reflectx.Mapper.{StructMap}
use sqlx_v.Reflectx.Address.{Memory}
use sqlx_v.Reflectx.Tags.{Setting}
use sqlx_v.Reflectx.Flatten.{Mapped, done, panicked, no_fuel}
use sqlx_v.Reflectx.TypeMap.{type_map}
use sqlx_v.Engine.Meta.{FieldMeta}
use sqlx_v.Engine.Meta.Cache.{MetaCache}
use sqlx_v.Engine.Dest.{Slot, empty, is_scannable}
use sqlx_v.Engine.Scan.{
  SqlRows, stopping, Caches, Scan, rows_loop, strict_error, after_scan, scan_scannable, scan_struct,
  scannable_rows, struct_rows, mapped_rows, column_rows,
}
use sqlx_v.Engine.Scan.Select.{Item, new_object}
use sqlx_v.Engine.Scan.Get.{same_object, find_one}
use sqlx_v.Generics.{meta_for}
use sqlx_v.Generics.Get.{
  item_at, scanned_item, first_item, scan_one, scan_one_struct, get_scannable, get_struct,
  get_columns,
}

-- The same object, an error with the same error at its root, or a panic.
abbrev pub SameGet : (Memory → Item) → Memory × Result Item → Memory × Result (Unit {0}) → Type 0
SameGet item (m, ok i) (m', r) = (r ≡ ok tt) × (m ≡ m') × (i ≡ item m')
SameGet item (m, fail e) (m', r) = (x : Error) × (r ≡ fail x) × (root e ≡ root x)
SameGet item (m, panics) (m', r) = r ≡ panics

-- Before `Close`: without a row `iterateScan` returns nil, and `getScan` makes `sql.ErrNoRows` of it.
abbrev pub SameFirst :
    Option Error → (Memory → Item) → Memory × Result Item → Scan Bool × Result (Unit {0}) → Type 0
SameFirst close_err item (m, ok i) (w, r) =
    (r ≡ ok tt) × (w.out ≡ true) × (m ≡ w.memory) × (i ≡ item w.memory)
SameFirst close_err item (m, fail e) (w, r) =
    ((x : Error) × (r ≡ fail x) × (root e ≡ root x))
    ⊎ ((e ≡ no_rows) × (r ≡ ok tt) × (w.out ≡ false) × (close_err ≡ none))
SameFirst close_err item (m, panics) (w, r) = r ≡ panics

-- One row: the loop stops behind it.
abbrev SameRow : (Memory → Item) → Memory × Result Item → Scan Bool × Result (Unit {0}) → Type 0
SameRow item (m, ok i) (w, r) =
    (r ≡ fail stop_iter) × (w.out ≡ true) × (m ≡ w.memory) × (i ≡ item w.memory)
SameRow item (m, fail e) (w, r) =
    (x : Error) × (r ≡ fail x) × (stopping x ≡ fail x) × (root e ≡ root x)
SameRow item (m, panics) (w, r) = r ≡ panics

stops-SameFirst :
    {R : Type 0} (close_err : Option Error) (item : Memory → Item) (p : Memory × Result Item)
    (body : R → Scan Bool → Scan Bool × Result (Unit {0})) (err : Option Error) (row : R)
    (rows : List R) (w : Scan Bool)
    → SameRow item p (body row w)
    → SameFirst close_err item p (rows_loop body err (row ∷ rows) w)
unfolding rows_loop
stops-SameFirst close_err item (m, ok i) body err row rows w (stop, found, same, read) =
    rw (stop, rows_loop) (refl, found, same, read)
stops-SameFirst close_err item (m, fail e) body err row rows w (x, stop, goes_on, same) =
    rw (stop, rows_loop, goes_on) (inl (x, refl, same))
stops-SameFirst close_err item (m, panics) body err row rows w stop = rw (stop, rows_loop) refl

first_item-SameFirst :
    {R : Type 0} (close_err : Option Error) (item : Memory → Item) (one : R → Memory × Result Item)
    (body : R → Scan Bool → Scan Bool × Result (Unit {0})) (err : Option Error) (rows : List R)
    (memory : Memory) (w : Scan Bool)
    → (rows ≡ [] → close_err ≡ none)
    → w.out ≡ false
    → ((row : R) → SameRow item (one row) (body row w))
    → SameFirst close_err item (first_item one err rows memory) (rows_loop body err rows w)
unfolding first_item
first_item-SameFirst close_err item one body none [] memory w quiet fresh same =
    unfold rows_loop in inr (refl, refl, fresh, quiet refl)
first_item-SameFirst close_err item one body (some e) [] memory w quiet fresh same =
    unfold rows_loop in inl (e, refl, refl)
first_item-SameFirst close_err item one body err (row ∷ rows) memory w quiet fresh same =
    stops-SameFirst close_err item (one row) body err row rows w (same row)

module _ {R : Type 0} (env : Setting) (size : GoType → ℕ)
    (sql_scan : R → List Slot → Memory → Memory × Result (Unit {0})) (is_ptr : Bool) (t : GoType)
    (memory : Memory) where
  -- The object that both calls scan into, and the state that `iterateScan` starts from.
  abbrev item : Memory → Item
  item = item_at is_ptr (size t) memory.next

  abbrev start : List Slot → Scan Bool
  start dest = record { memory = (new_object (size t) memory).1; scan_dest = dest; out = false }

  after_scan-SameRow :
      (format : String) (w : Scan Bool) (p : Memory × Result (Unit {0}))
      → SameRow item (scanned_item format is_ptr true (size t) memory.next p) (
          after_scan env size sql_scan
            (same_object memory.next)
            find_one
            format
            memory.next
            w
            p.0
            p.1)
  unfolding after_scan
  after_scan-SameRow format w (m, ok u) = (refl, refl, refl, refl)
  after_scan-SameRow format w (m, fail e) = (_, refl, refl, refl)
  after_scan-SameRow format w (m, panics) = refl

  module _ (rows : SqlRows R) (quiet : rows.pending ≡ [] → rows.close_err ≡ none) where
    get_scannable-SameFirst :
        (columns : List Bytes)
        → SameFirst rows.close_err item
            (get_scannable env size sql_scan rows is_ptr true t columns memory)
            (scannable_rows env size sql_scan
              (same_object memory.next)
              find_one
              rows
              t
              columns
              (start []))
    unfolding get_scannable scannable_rows
    get_scannable-SameFirst columns = elim (Bool-cases (length columns == 1)) [
      | inl one ↦ rw one (
          first_item-SameFirst rows.close_err item (scan_one env size sql_scan is_ptr true t memory)
            (scan_scannable env size sql_scan (same_object memory.next) find_one t) rows.err
            rows.pending memory (start []) quiet refl
            (λ row. unfold scan_one scan_scannable in after_scan-SameRow _ (start []) _))
      | inr other ↦ rw other (inl (_, refl, refl))
    ]

    get_struct-SameFirst :
        (columns : List Bytes) (r : Result (List FieldMeta))
        → SameFirst rows.close_err item
            (get_struct env size sql_scan rows is_ptr true t columns memory
              (wrap "sqlx: error building meta: %w" r))
            (struct_rows env size sql_scan
              (same_object memory.next)
              find_one
              rows
              columns
              r
              (start []))
    unfolding get_struct struct_rows
    get_struct-SameFirst columns (ok meta) =
        let dest = replicate (length columns) empty in
        first_item-SameFirst rows.close_err item
          (scan_one_struct env size sql_scan is_ptr true t meta dest memory)
          (scan_struct env size sql_scan (same_object memory.next) find_one meta) rows.err
          rows.pending memory (start dest) quiet refl
          (λ row.
            unfold scan_one_struct scan_struct in
            after_scan-SameRow _ (record (start dest) { scan_dest = _ }) _)
    get_struct-SameFirst columns (fail e) = inl (_, refl, refl)
    get_struct-SameFirst columns panics = refl

    get_mapped-SameFirst :
        (is_unsafe strict : Bool) (columns : List Bytes) (tm : Mapped StructMap) (metas : MetaCache)
        → let (meta, metas') = meta_for env t is_unsafe strict columns tm metas in
          let s =
            mapped_rows env size sql_scan
              (same_object memory.next)
              find_one
              rows
              t
              is_unsafe
              strict
              columns
              tm
              metas
              (start []) in
          SameFirst rows.close_err item
            (get_struct env size sql_scan rows is_ptr true t columns memory meta)
            s.0
          × (metas' ≡ s.1)
    unfolding meta_for mapped_rows
    get_mapped-SameFirst is_unsafe strict columns (done tm) metas =
        elim (Option-cases (strict_error strict tm.errors)) [
          | inl fine ↦ rw (fine, meta_for, mapped_rows) (get_struct-SameFirst columns _, refl)
          | inr (e, wrong) ↦
              rw (wrong, meta_for, mapped_rows) (unfold get_struct in (inl (_, refl, refl), refl))
        ]
    get_mapped-SameFirst is_unsafe strict columns panicked metas = unfold get_struct in (refl, refl)
    get_mapped-SameFirst is_unsafe strict columns no_fuel metas = unfold get_struct in (refl, refl)

    pub get_columns-SameFirst :
        (is_unsafe strict : Bool) (columns : List Bytes) (caches : Caches)
        → let p =
            get_columns env size sql_scan rows is_ptr true t is_unsafe strict columns caches
              memory in
          let s =
            column_rows env size sql_scan
              (same_object memory.next)
              find_one
              rows
              t
              is_unsafe
              strict
              columns
              caches
              (start []) in
          SameFirst rows.close_err item p.0 s.0 × (p.1 ≡ s.1)
    unfolding get_columns column_rows
    get_columns-SameFirst is_unsafe strict columns caches =
        elim (Bool-cases (is_scannable env.scanner t)) [
          | inl plain ↦ rw plain (get_scannable-SameFirst columns, refl)
          | inr other ↦
              let (tm, types') = type_map env t caches.types in
              let (same, cached) = get_mapped-SameFirst is_unsafe strict columns tm caches.metas in
              rw other (same, ap (λ ms. record { types = types'; metas = ms }) cached)
        ]
