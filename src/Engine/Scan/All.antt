-- ===== src/Engine/Scan/All.antt =====
-- `selectScan` reads all rows.
use sqlx_v.Prelude.{
  ℕ, ◌+◌, Bool, Option, none, some, List, [], ◌∷◌, ◌≡◌, ◌≢◌, refl, ◌∙◌, inl, inr, arith, ◌==◌,
  String, Bytes, length, length-append, Bool-cases, Option-cases,
}
use sqlx_v.Errors.{Error, Result, ok, fail, panics, Result-cases}
use sqlx_v.Value.{GoType}
use sqlx_v.Reflectx.Address.{Memory}
use sqlx_v.Reflectx.Mapper.{StructMap}
use sqlx_v.Reflectx.Tags.{Setting}
use sqlx_v.Reflectx.Flatten.{Mapped, done, panicked, no_fuel}
use sqlx_v.Engine.Meta.{FieldMeta}
use sqlx_v.Engine.Meta.Cache.{MetaCache}
use sqlx_v.Engine.Dest.{Slot, is_scannable}
use sqlx_v.Engine.Scan.{
  SqlRows, closing, stopping, Caches, Scan, rows_loop, strict_error, after_scan, scan_scannable,
  scan_struct, scannable_rows, struct_rows, mapped_rows, column_rows, iterate_body, iterate_scan,
}
use sqlx_v.Engine.Scan.Select.{
  Dest, Item, new_object, append_item, refused_dest, slice_dest, select_into, select_scan,
}

module _ {R : Type 0} (env : Setting) (size : GoType → ℕ)
    (sql_scan : R → List Slot → Memory → Memory × Result (Unit {0})) where
  -- One more item for each row that is scanned without an error.
  abbrev Appends : (R → Scan (List Item) → Scan (List Item) × Result (Unit {0})) → Type 0
  Appends body =
      (row : R) (w : Scan (List Item))
      → ((body row w).1 ≡ ok tt → length (body row w).0.out ≡ length w.out + 1)
        × ((e : Error) → (body row w).1 ≡ fail e → stopping e ≡ fail e)

  rows_loop-Appends :
      (body : R → Scan (List Item) → Scan (List Item) × Result (Unit {0})) (err : Option Error)
      (rows : List R) (w : Scan (List Item))
      → Appends body
      → (rows_loop body err rows w).1 ≡ ok tt
      → (length (rows_loop body err rows w).0.out ≡ length w.out + length rows) × (err ≡ none)
  unfolding rows_loop
  rows_loop-Appends body none [] w appends h = (omega arith, refl)
  rows_loop-Appends body (some e) [] w appends h = absurd (ground arith)
  rows_loop-Appends body err (row ∷ rows) w appends h = elim (Result-cases (body row w).1) [
    | inl (u, e) ↦
        let (more, same) =
          rows_loop-Appends body err rows (body row w).0 appends (rw (e, rows_loop) at h) in
        (rw (e, rows_loop) (more ∙ omega (arith, (appends row w).0 e)), same)
    | inr (inl (x, e)) ↦ absurd (ground (arith, (appends row w).1 x e))
    | inr (inr e) ↦ absurd (ground arith)
  ]

  -- What a scan of all rows must give: no row is dropped, and no error of the rows is.
  abbrev Complete : SqlRows R → List Item → Scan (List Item) × Result (Unit {0}) → Type 0
  Complete rows items p =
      p.1 ≡ ok tt → (length p.0.out ≡ length items + length rows.pending) × (rows.err ≡ none)

  module _ (is_ptr : Bool) (n : ℕ) where
    after_scan-Appends :
        (format : String) (vp : ℕ) (w : Scan (List Item)) (m : Memory) (r : Result (Unit {0}))
        → let p =
            after_scan env size sql_scan (new_object n) (append_item is_ptr n) format vp w m r in
          (p.1 ≡ ok tt → length p.0.out ≡ length w.out + 1)
          × ((e : Error) → p.1 ≡ fail e → stopping e ≡ fail e)
    unfolding after_scan
    after_scan-Appends format vp w m (ok u) =
        ((λ h. length-append w.out _ ∙ refl), (λ e h. absurd (ground arith)))
    after_scan-Appends format vp w m (fail x) =
        ((λ h. absurd (ground arith)), (λ e h. ground arith))
    after_scan-Appends format vp w m panics =
        ((λ h. absurd (ground arith)), (λ e h. absurd (ground arith)))

    scan_scannable-Appends :
        (t : GoType)
        → Appends (scan_scannable env size sql_scan (new_object n) (append_item is_ptr n) t)
    unfolding scan_scannable
    scan_scannable-Appends t row w = after_scan-Appends _ _ w _ _

    scan_struct-Appends :
        (meta : List FieldMeta)
        → Appends (scan_struct env size sql_scan (new_object n) (append_item is_ptr n) meta)
    unfolding scan_struct
    scan_struct-Appends meta row w = after_scan-Appends _ _ (record w { scan_dest = _ }) _ _

    scannable_rows-Complete :
        (rows : SqlRows R) (t : GoType) (columns : List Bytes) (w : Scan (List Item))
        → Complete rows w.out (
            scannable_rows env size sql_scan (new_object n) (append_item is_ptr n) rows t columns w)
    unfolding scannable_rows
    scannable_rows-Complete rows t columns w = elim (Bool-cases (length columns == 1)) [
      | inl one ↦
          rw one (λ h. rows_loop-Appends _ rows.err rows.pending w (scan_scannable-Appends t) h)
      | inr other ↦ rw other (λ h. absurd (ground arith))
    ]

    struct_rows-Complete :
        (rows : SqlRows R) (columns : List Bytes) (r : Result (List FieldMeta))
        (w : Scan (List Item))
        → Complete rows w.out
            (struct_rows env size sql_scan (new_object n) (append_item is_ptr n) rows columns r w)
    unfolding struct_rows
    struct_rows-Complete rows columns (ok meta) w h =
        rows_loop-Appends _ rows.err rows.pending (record w { scan_dest = _ })
          (scan_struct-Appends meta) h
    struct_rows-Complete rows columns (fail e) w h = absurd (ground arith)
    struct_rows-Complete rows columns panics w h = absurd (ground arith)

    mapped_rows-Complete :
        (rows : SqlRows R) (t : GoType) (is_unsafe strict : Bool) (columns : List Bytes)
        (tm : Mapped StructMap) (metas : MetaCache) (w : Scan (List Item))
        → Complete rows w.out
            (mapped_rows env size sql_scan
              (new_object n)
              (append_item is_ptr n)
              rows
              t
              is_unsafe
              strict
              columns
              tm
              metas
              w).0
    unfolding mapped_rows
    mapped_rows-Complete rows t is_unsafe strict columns (done tm) metas w =
        elim (Option-cases (strict_error strict tm.errors)) [
          | inl fine ↦ rw (fine, mapped_rows) (struct_rows-Complete rows columns _ w)
          | inr (e, wrong) ↦ rw (wrong, mapped_rows) (λ h. absurd (ground arith))
        ]
    mapped_rows-Complete rows t is_unsafe strict columns panicked metas w =
        λ h. absurd (ground arith)
    mapped_rows-Complete rows t is_unsafe strict columns no_fuel metas w =
        λ h. absurd (ground arith)

    column_rows-Complete :
        (rows : SqlRows R) (t : GoType) (is_unsafe strict : Bool) (columns : List Bytes)
        (caches : Caches) (w : Scan (List Item))
        → Complete rows w.out
            (column_rows env size sql_scan
              (new_object n)
              (append_item is_ptr n)
              rows
              t
              is_unsafe
              strict
              columns
              caches
              w).0
    unfolding column_rows
    column_rows-Complete rows t is_unsafe strict columns caches w =
        elim (Bool-cases (is_scannable env.scanner t)) [
          | inl yes_it ↦ rw yes_it (scannable_rows-Complete rows t columns w)
          | inr no_it ↦
              rw no_it (mapped_rows-Complete rows t is_unsafe strict columns _ caches.metas w)
        ]

    iterate_body-Complete :
        (rows : SqlRows R) (t : GoType) (is_unsafe strict : Bool) (caches : Caches)
        (w : Scan (List Item))
        → Complete rows w.out
            (iterate_body env size sql_scan
              (new_object n)
              (append_item is_ptr n)
              rows
              t
              is_unsafe
              strict
              caches
              w).0
    unfolding iterate_body
    iterate_body-Complete rows t is_unsafe strict caches w = elim (Result-cases rows.columns) [
      | inl (columns, e) ↦ rw e (column_rows-Complete rows t is_unsafe strict columns caches w)
      | inr (inl (x, e)) ↦ rw e (λ h. absurd (ground arith))
      | inr (inr e) ↦ rw e (λ h. absurd (ground arith))
    ]

  closing-eq-ok :
      (close_err : Option Error) (r : Result (Unit {0}))
      → closing close_err r ≡ ok tt
      → (close_err ≡ none) × (r ≡ ok tt)
  closing-eq-ok none (ok u) h = (refl, refl)
  closing-eq-ok (some e) (ok u) h = absurd (ground arith)
  closing-eq-ok close_err (fail e) h = absurd (ground arith)
  closing-eq-ok close_err panics h = absurd (ground arith)

  refused_dest-fails : (close_err : Option Error) → refused_dest close_err ≢ ok tt
  refused_dest-fails none h = absurd (ground arith)
  refused_dest-fails (some e) h = absurd (ground arith)

  -- A select that succeeds has read everything: the slice has one more element for each row, and
  -- neither the rows nor their `Close` had an error to report.
  pub select_scan-ok :
      (rows : SqlRows R) (dest : Dest) (is_unsafe strict : Bool) (caches : Caches) (memory : Memory)
      (items : List Item)
      → (select_scan env size sql_scan rows dest is_unsafe strict caches memory items).result
        ≡ ok tt
      → (length
            (select_scan env size sql_scan rows dest is_unsafe strict caches memory items).scan.out
          ≡ length items + length rows.pending)
        × (rows.err ≡ none)
        × (rows.close_err ≡ none)
  unfolding select_scan iterate_scan
  select_scan-ok rows dest is_unsafe strict caches memory items =
      elim (Option-cases (slice_dest dest)) [
        | inl bad ↦ rw (bad, select_scan) (λ h. absurd (refused_dest-fails rows.close_err h))
        | inr (t, good) ↦ rw (good, select_scan) (into_ok t)
      ]
    where
      into_ok :
          (t : GoType)
          → (select_into env size sql_scan rows t is_unsafe strict caches memory items).result
            ≡ ok tt
          → (length
                (select_into env size sql_scan rows t is_unsafe strict caches memory items).scan.out
              ≡ length items + length rows.pending)
            × (rows.err ≡ none)
            × (rows.close_err ≡ none)
      into_ok t h =
          unfold select_into in
          let (closed, read) = closing-eq-ok rows.close_err _ h in
          let (all, fine) =
            iterate_body-Complete _ _ rows _ is_unsafe strict caches
              (record { memory = memory; scan_dest = []; out = items }) read in
          (all, fine, closed)
