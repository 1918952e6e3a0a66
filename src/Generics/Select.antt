-- ===== src/Generics/Select.antt =====
-- `SelectG`.
pub mod Loops
pub mod Pointers
pub mod Grown
use sqlx_v.Prelude.{
  ℕ, zero, suc, ◌+◌, ◌-◌, ◌*◌, Bool, true, false, not, ◌&&◌, Option, none, some, List, [], ◌∷◌,
  ◌==◌, ltb, leb, if◌then◌else◌, Bytes, length, replicate,
}
use sqlx_v.Errors.{Error, errorf, plain, Result, ok, fail, panics, ◌>>=◌, wrap}
use sqlx_v.GoStrings.{itoa}
use sqlx_v.Value.{GoType, kind, is_pointer}
use sqlx_v.Reflectx.Mapper.{Mapper}
use sqlx_v.Reflectx.Address.{Memory}
use sqlx_v.Reflectx.Tags.{Setting}
use sqlx_v.Reflectx.TypeMap.{type_map}
use sqlx_v.Engine.Meta.{FieldMeta}
use sqlx_v.Engine.Dest.{Slot, empty, populate_scan_dest, is_scannable}
use sqlx_v.Engine.Scan.{SqlRows, close_rows, Caches, Scan, scan_scannable, scan_struct}
use sqlx_v.Engine.Scan.Select.{Item, copied_item, cells_from, new_object, append_item}
use sqlx_v.Handles.{Queryer, extract_meta}
use sqlx_v.Generics.{has_no_type, is_asserted, elem_type, deferred_close, row_error, meta_for}

-- `for rows.Next() { … }`, whose body returns its errors.
unfoldable pub each_row :
    {R Y : Type 0}
    → (R → Scan Y → Scan Y × Result (Unit {0}))
    → List R
    → Scan Y
    → Scan Y × Result (Unit {0})
each_row body [] w = (w, ok tt)
each_row body (row ∷ rows) w =
    let (w', r) = body row w in
    elim r [ ok _ ↦ each_row body rows w' | fail e ↦ (w', fail e) | panics ↦ (w', panics) ]

-- The slice `results` of structs: the address of its array, `len` and `cap`.
pub record Elements : Type 0 where
  pub base : ℕ
  pub len : ℕ
  pub capacity : ℕ

-- `copy` of `k` cells, from `source` to `target`.
abbrev pub copy_cells : ℕ → ℕ → ℕ → Memory → Memory
copy_cells target source k m = record m {
  cell =
      λ q. if leb target q && ltb q (target + k) then m.cell (source + (q - target)) else m.cell q;
}

-- Zeros in the `n` cells from `p`.
abbrev pub zero_cells : ℕ → ℕ → Memory → Memory
zero_cells p n m = record m { cell = λ q. if leb p q && ltb q (p + n) then 0 else m.cell q }

-- `newCap`.
abbrev pub next_capacity : ℕ → ℕ
next_capacity c = if c * 2 == 0 then 8 else c * 2

-- `if len(results) == cap(results) { … }`, for elements of `n` cells.
unfoldable pub grow : ℕ → Elements → Memory → Elements × Memory
grow n a m =
    let new_cap = next_capacity a.capacity in
    let (p, m') = new_object (new_cap * n) m in
    if a.len == a.capacity
    then (record a { base = p; capacity = new_cap }, copy_cells p a.base (a.len * n) m')
    else (a, m)

-- The elements of the slice that is returned.
unfoldable pub read_elements : Memory → ℕ → ℕ → ℕ → List Item
read_elements m base n zero = []
read_elements m base n (suc k) = copied_item (cells_from m base n) ∷ read_elements m (base + n) n k

-- A call with what it leaves.
pub record Selected (R : Type 0) : Type 0 where
  pub memory : Memory
  pub results : Result (List Item)
  pub rows : SqlRows R
  pub caches : Caches

-- Behind the loop.
abbrev pub all_results :
    {Y : Type 0}
    → Option Error
    → (Memory → Y → List Item)
    → Scan Y × Result (Unit {0})
    → Memory × Result (List Item)
all_results err read (w, ok _) = (w.memory, row_error err (ok (read w.memory w.out)))
all_results err read (w, fail e) = (w.memory, fail e)
all_results err read (w, panics) = (w.memory, panics)

-- Items are themselves, wherever they were written.
abbrev pub as_they_are : Memory → List Item → List Item
as_they_are m items = items

-- `results = append(results, vp.(T))`, by the assertion.
abbrev pub append_asserted :
    Bool → Bool → ℕ → ℕ → Memory → List Item → List Item × Result (Unit {0})
append_asserted true is_ptr n vp m items = append_item is_ptr n vp m items
append_asserted false is_ptr n vp m items = (items, panics)

module _ {R : Type 0} (env : Setting) (size : GoType → ℕ)
    (sql_scan : R → List Slot → Memory → Memory × Result (Unit {0})) where
  -- The body of the loop over structs, where `T` is no pointer.
  unfoldable pub scan_element :
      ℕ → List FieldMeta → R → Scan Elements → Scan Elements × Result (Unit {0})
  unfolding grow
  scan_element n meta row w =
      let (a, m) = grow n w.out w.memory in
      let p = a.base + a.len * n in
      let (dest, m') = populate_scan_dest size p meta w.scan_dest (zero_cells p n m) in
      let (m'', r) = sql_scan row dest m' in
      (
        record { memory = m''; scan_dest = dest; out = record a { len = a.len + 1 } },
        wrap "sqlx: struct scan error: %w" r,
      )

  unfoldable pub select_elements :
      SqlRows R → ℕ → List FieldMeta → List Slot → Memory → Memory × Result (List Item)
  unfolding each_row scan_element read_elements
  select_elements rows n meta dest memory =
      all_results rows.err (λ m a. read_elements m a.base n a.len)
        (each_row (scan_element n meta) rows.pending (record {
          memory = memory;
          scan_dest = dest;
          out = record { base = 0; len = 0; capacity = 0 };
        }))

  -- With the pointers to structs; the body is the one of `iterateScan`, but for the assertion.
  unfoldable pub select_pointers :
      SqlRows R → Bool → ℕ → List FieldMeta → List Slot → Memory → Memory × Result (List Item)
  unfolding each_row scan_struct
  select_pointers rows asserted n meta dest memory = all_results rows.err as_they_are (
      each_row (scan_struct env size sql_scan (new_object n) (append_asserted asserted true n) meta)
        rows.pending (record { memory = memory; scan_dest = dest; out = [] }))

  -- Behind `buildMeta`.
  unfoldable pub select_structs :
      SqlRows R
      → Bool
      → Bool
      → ℕ
      → List Bytes
      → Memory
      → Result (List FieldMeta)
      → Memory × Result (List Item)
  unfolding select_elements select_pointers
  select_structs rows is_ptr asserted n columns memory (ok meta) =
      let dest = replicate (length columns) empty in
      if is_ptr
      then select_pointers rows asserted n meta dest memory
      else select_elements rows n meta dest memory
  select_structs rows is_ptr asserted n columns memory (fail e) = (memory, fail e)
  select_structs rows is_ptr asserted n columns memory panics = (memory, panics)

  unfoldable pub select_scannables :
      SqlRows R → Bool → Bool → GoType → List Bytes → Memory → Memory × Result (List Item)
  unfolding each_row scan_scannable
  select_scannables rows is_ptr asserted t columns memory =
      if not (length columns == 1)
      then (
        memory,
        fail (
            plain "sqlx: scannable dest type %s with >1 columns (%d)" (itoa (length columns) ∷ [])),
      )
      else all_results rows.err as_they_are (
          each_row
            (scan_scannable env size sql_scan (new_object (size t))
              (append_asserted asserted is_ptr (size t)) t)
            rows.pending (record { memory = memory; scan_dest = []; out = [] }))

  -- Behind `rows.Columns()`; `t` is `elemType`.
  unfoldable pub select_columns :
      SqlRows R
      → Bool
      → Bool
      → GoType
      → Bool
      → Bool
      → List Bytes
      → Caches
      → Memory
      → (Memory × Result (List Item)) × Caches
  unfolding select_scannables select_structs meta_for
  select_columns rows is_ptr asserted t is_unsafe strict columns caches memory =
      if is_scannable env.scanner t
      then (select_scannables rows is_ptr asserted t columns memory, caches)
      else let (tm, types') = type_map env t caches.types in
        let (meta, metas') = meta_for env t is_unsafe strict columns tm caches.metas in
        (
          select_structs rows is_ptr asserted (size t) columns memory meta,
          record { types = types'; metas = metas' },
        )

  -- Behind the query, without the deferred function.
  unfoldable pub select_rows :
      SqlRows R → GoType → Bool → Bool → Caches → Memory → (Memory × Result (List Item)) × Caches
  unfolding select_columns
  select_rows rows t is_unsafe strict caches memory =
      if has_no_type t then ((memory, panics), caches) else elim rows.columns [
        | ok columns ↦
            select_columns rows (is_pointer (kind t)) (is_asserted t) (elem_type t) is_unsafe strict
              columns caches memory
        | fail e ↦ ((memory, fail (errorf "sqlx: error getting columns: %w" [] e)), caches)
        | panics ↦ ((memory, panics), caches)
      ]

  -- Behind the query, with what `extractMeta` finds.
  unfoldable pub select_with : SqlRows R → GoType → Bool → Bool → Caches → Memory → Selected R
  unfolding select_rows
  select_with rows t is_unsafe strict caches memory =
      let (end_of, caches') = select_rows rows t is_unsafe strict caches memory in
      record {
        memory = end_of.0;
        results = deferred_close rows.close_err end_of.1;
        rows = close_rows rows;
        caches = caches';
      }

-- `SelectG`; `queried` is what `q.QueryContext` returns.
unfoldable pub select_g :
    {R : Type 0}
    → Mapper
    → Setting
    → (GoType → ℕ)
    → (R → List Slot → Memory → Memory × Result (Unit {0}))
    → Queryer
    → Result (SqlRows R)
    → GoType
    → Caches
    → Memory
    → Result (Selected R)
unfolding extract_meta select_with
select_g default_mapper env size sql_scan q queried t caches memory = do
  rows ← wrap "sqlx: error in SelectG: %w" queried
  let (is_unsafe, strict, mapper) = extract_meta default_mapper q
  ok (
      select_with (record env { mapper = mapper }) size sql_scan rows t is_unsafe strict caches
        memory)
