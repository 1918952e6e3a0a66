-- ===== src/Generics/Select/Loops.antt =====
-- The loops of `SelectG` over pointers, and those of `iterateScan`.
use sqlx_v.Prelude.{
  ℕ, Bool, true, Option, none, some, List, [], ◌∷◌, ◌≡◌, refl, ap, inl, inr, arith, ◌==◌, String,
  Bytes, length, replicate, Bool-cases, Option-cases,
}
use sqlx_v.Errors.{Error, root, Result, ok, fail, panics, Result-cases, wrap}
use sqlx_v.Value.{GoType}
use sqlx_v.Reflectx.Mapper.{StructMap}
use sqlx_v.Reflectx.Address.{Memory}
use sqlx_v.Reflectx.Tags.{Setting}
use sqlx_v.Reflectx.Flatten.{Mapped, done, panicked, no_fuel}
use sqlx_v.Reflectx.TypeMap.{type_map}
use sqlx_v.Engine.Meta.{FieldMeta}
use sqlx_v.Engine.Meta.Cache.{MetaCache}
use sqlx_v.Engine.Dest.{Slot, empty, is_scannable}
use sqlx_v.Engine.Scan.{
  SqlRows, returned, stopping, Caches, Scan, rows_loop, strict_error, after_scan, scan_scannable,
  scan_struct, scannable_rows, struct_rows, mapped_rows, column_rows,
}
use sqlx_v.Engine.Scan.Select.{Item, new_object, append_item}
use sqlx_v.Generics.{meta_for}
use sqlx_v.Generics.Select.{
  each_row, all_results, as_they_are, select_pointers, select_structs, select_scannables,
  select_columns,
}

-- The same elements, an error with the same error at its root, or a panic.
abbrev pub SameEnd : Result (List Item) → List Item → Result (Unit {0}) → Type 0
SameEnd (ok items) out r = (r ≡ ok tt) × (items ≡ out)
SameEnd (fail e) out r = (x : Error) × (r ≡ fail x) × (root e ≡ root x)
SameEnd panics out r = r ≡ panics

-- A loop and the same memory behind it.
abbrev pub SameScan : Memory × Result (List Item) → Scan (List Item) × Result (Unit {0}) → Type 0
SameScan p q = (p.0 ≡ q.0.memory) × SameEnd p.1 q.0.out q.1

-- `rows.Err()` behind a loop.
abbrev with_err :
    {Y : Type 0} → Option Error → Scan Y × Result (Unit {0}) → Scan Y × Result (Unit {0})
with_err err (w, ok _) = (w, returned err)
with_err err (w, fail e) = (w, fail e)
with_err err (w, panics) = (w, panics)

-- No error of the body stops the loop as `ErrStopIter` would.
abbrev NeverStops : {R Y : Type 0} → (R → Scan Y → Scan Y × Result (Unit {0})) → Type 0
NeverStops {R} {Y} body =
    (row : R) (w : Scan Y) (e : Error) → (body row w).1 ≡ fail e → stopping e ≡ fail e

rows_loop-each_row :
    {R Y : Type 0} (body : R → Scan Y → Scan Y × Result (Unit {0})) (err : Option Error)
    (rows : List R) (w : Scan Y)
    → NeverStops body
    → rows_loop body err rows w ≡ with_err err (each_row body rows w)
unfolding rows_loop each_row
rows_loop-each_row body err [] w goes_on = refl
rows_loop-each_row body err (row ∷ rows) w goes_on = elim (Result-cases (body row w).1) [
  | inl (u, e) ↦
      rw (e, rows_loop, each_row) (rows_loop-each_row body err rows (body row w).0 goes_on)
  | inr (inl (x, e)) ↦ rw (e, rows_loop, each_row) (ground (arith, goes_on row w x e))
  | inr (inr e) ↦ rw (e, rows_loop, each_row) refl
]

all_results-SameScan :
    (err : Option Error) (r : Scan (List Item) × Result (Unit {0}))
    → SameScan (all_results err as_they_are r) (with_err err r)
all_results-SameScan none (w, ok u) = (refl, (refl, refl))
all_results-SameScan (some e) (w, ok u) = (refl, (e, refl, refl))
all_results-SameScan err (w, fail e) = (refl, (e, refl, refl))
all_results-SameScan err (w, panics) = (refl, refl)

module _ {R : Type 0} (env : Setting) (size : GoType → ℕ)
    (sql_scan : R → List Slot → Memory → Memory × Result (Unit {0})) (t : GoType) where
  after_scan-fails :
      (format : String) (vp : ℕ) (w : Scan (List Item)) (m : Memory) (r : Result (Unit {0}))
      (e : Error)
      → (after_scan env size sql_scan
          (new_object (size t))
          (append_item true (size t))
          format
          vp
          w
          m
          r).1
        ≡ fail e
      → stopping e ≡ fail e
  unfolding after_scan
  after_scan-fails format vp w m (ok u) e h = absurd (ground arith)
  after_scan-fails format vp w m (fail x) e h = ground arith
  after_scan-fails format vp w m panics e h = absurd (ground arith)

  scan_scannable-NeverStops :
      NeverStops
        (scan_scannable env size sql_scan (new_object (size t)) (append_item true (size t)) t)
  unfolding scan_scannable
  scan_scannable-NeverStops row w e h = after_scan-fails _ _ w _ _ e h

  scan_struct-NeverStops :
      (meta : List FieldMeta)
      → NeverStops
          (scan_struct env size sql_scan (new_object (size t)) (append_item true (size t)) meta)
  unfolding scan_struct
  scan_struct-NeverStops meta row w e h = after_scan-fails _ _ (record w { scan_dest = _ }) _ _ e h

  -- The loop of `SelectG` over pointers, and that of `iterateScan`.
  loops-SameScan :
      (body : R → Scan (List Item) → Scan (List Item) × Result (Unit {0})) (err : Option Error)
      (rows : List R) (w : Scan (List Item))
      → NeverStops body
      → SameScan (all_results err as_they_are (each_row body rows w)) (rows_loop body err rows w)
  loops-SameScan body err rows w goes_on =
      rw (rows_loop-each_row body err rows w goes_on) (all_results-SameScan err _)

  select_scannables-SameScan :
      (rows : SqlRows R) (columns : List Bytes) (memory : Memory)
      → SameScan (select_scannables env size sql_scan rows true true t columns memory) (
          scannable_rows env size sql_scan
            (new_object (size t))
            (append_item true (size t))
            rows
            t
            columns
            (record { memory = memory; scan_dest = []; out = [] }))
  unfolding select_scannables scannable_rows
  select_scannables-SameScan rows columns memory = elim (Bool-cases (length columns == 1)) [
    | inl one ↦ rw one (
        loops-SameScan
          (scan_scannable env size sql_scan (new_object (size t)) (append_item true (size t)) t)
          rows.err rows.pending (record { memory = memory; scan_dest = []; out = [] })
          scan_scannable-NeverStops)
    | inr other ↦ rw other (refl, (_, refl, refl))
  ]

  select_structs-SameScan :
      (rows : SqlRows R) (columns : List Bytes) (memory : Memory) (r : Result (List FieldMeta))
      → SameScan
          (select_structs env size sql_scan rows true true
            (size t)
            columns
            memory
            (wrap "sqlx: error building meta: %w" r))
          (struct_rows env size sql_scan
            (new_object (size t))
            (append_item true (size t))
            rows
            columns
            r
            (record { memory = memory; scan_dest = []; out = [] }))
  unfolding select_structs select_pointers struct_rows
  select_structs-SameScan rows columns memory (ok meta) =
      loops-SameScan
        (scan_struct env size sql_scan (new_object (size t)) (append_item true (size t)) meta)
        rows.err rows.pending
        (record { memory = memory; scan_dest = replicate (length columns) empty; out = [] })
        (scan_struct-NeverStops meta)
  select_structs-SameScan rows columns memory (fail e) = (refl, (_, refl, refl))
  select_structs-SameScan rows columns memory panics = (refl, refl)

  -- With the struct map.
  select_mapped-SameScan :
      (rows : SqlRows R) (is_unsafe strict : Bool) (columns : List Bytes) (tm : Mapped StructMap)
      (metas : MetaCache) (memory : Memory)
      → let (meta, metas') = meta_for env t is_unsafe strict columns tm metas in
        let s =
          mapped_rows env size sql_scan
            (new_object (size t))
            (append_item true (size t))
            rows
            t
            is_unsafe
            strict
            columns
            tm
            metas
            (record { memory = memory; scan_dest = []; out = [] }) in
        SameScan (select_structs env size sql_scan rows true true (size t) columns memory meta) s.0
        × (metas' ≡ s.1)
  unfolding meta_for mapped_rows
  select_mapped-SameScan rows is_unsafe strict columns (done tm) metas memory =
      elim (Option-cases (strict_error strict tm.errors)) [
        | inl fine ↦
            rw (fine, meta_for, mapped_rows) (select_structs-SameScan rows columns memory _, refl)
        | inr (e, wrong) ↦
            rw (wrong, meta_for, mapped_rows)
              (unfold select_structs in ((refl, (_, refl, refl)), refl))
      ]
  select_mapped-SameScan rows is_unsafe strict columns panicked metas memory =
      unfold select_structs in ((refl, refl), refl)
  select_mapped-SameScan rows is_unsafe strict columns no_fuel metas memory =
      unfold select_structs in ((refl, refl), refl)

  pub select_columns-SameScan :
      (rows : SqlRows R) (is_unsafe strict : Bool) (columns : List Bytes) (caches : Caches)
      (memory : Memory)
      → let p =
          select_columns env size sql_scan rows true true t is_unsafe strict columns caches
            memory in
        let s =
          column_rows env size sql_scan
            (new_object (size t))
            (append_item true (size t))
            rows
            t
            is_unsafe
            strict
            columns
            caches
            (record { memory = memory; scan_dest = []; out = [] }) in
        SameScan p.0 s.0 × (p.1 ≡ s.1)
  unfolding select_columns column_rows
  select_columns-SameScan rows is_unsafe strict columns caches memory =
      elim (Bool-cases (is_scannable env.scanner t)) [
        | inl plain ↦ rw plain (select_scannables-SameScan rows columns memory, refl)
        | inr other ↦
            let (tm, types') = type_map env t caches.types in
            let (same, cached) =
              select_mapped-SameScan rows is_unsafe strict columns tm caches.metas memory in
            rw other (same, ap (λ ms. record { types = types'; metas = ms }) cached)
      ]
