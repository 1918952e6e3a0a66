-- ===== src/Engine/Scan.antt =====
-- `iterateScan`, `selectScan` and `getScan` of engine.go, with `sql.Rows` as the rows that it holds
-- and the errors that it will report.
pub mod Select
pub mod All
pub mod Get
pub mod First
pub mod Apart
pub mod Ready
pub mod Plan
pub mod Simulates
use sqlx_v.Prelude.{
  ℕ, zero, suc, ◌+◌, Bool, true, false, not, ◌&&◌, Option, none, some, List, [], ◌∷◌, ◌++◌, ◌≡◌,
  refl, arith, ◌==◌, if◌then◌else◌, String, Bytes, length, replicate, get_elem?,
}
use sqlx_v.Errors.{Error, stop_iter, no_rows, errorf, plain, Result, ok, fail, panics}
use sqlx_v.GoStrings.{itoa}
use sqlx_v.Value.{GoType, struct_type, kind, elem, slice_elem, is_pointer, is_slice}
use sqlx_v.Reflectx.Mapper.{StructDef, StructMap}
use sqlx_v.Reflectx.Address.{Memory}
use sqlx_v.Reflectx.Tags.{Setting}
use sqlx_v.Reflectx.Flatten.{Mapped, done, panicked, no_fuel}
use sqlx_v.Reflectx.TypeMap.{TypeCache, type_map}
use sqlx_v.Engine.Meta.{FieldMeta}
use sqlx_v.Engine.Meta.Cache.{MetaCache, build_meta}
use sqlx_v.Engine.Dest.{Slot, empty, into, populate_scan_dest, is_scannable}

-- A `*sql.Rows`: what `Columns` returns, the rows before `Next` returns false, what `Err` returns
-- then, what `Close` returns, and how often `Close` was called.
pub record SqlRows (R : Type 0) : Type 0 where
  pub columns : Result (List Bytes)
  pub pending : List R
  pub err : Option Error
  pub close_err : Option Error
  pub closes : ℕ

-- `rows.Close()`: `Next` returns false from now on.
abbrev pub close_rows : {R : Type 0} → SqlRows R → SqlRows R
close_rows rows = record rows { pending = []; closes = rows.closes + 1 }

-- An `error` that is returned.
abbrev pub returned : Option Error → Result (Unit {0})
returned none = ok tt
returned (some e) = fail e

-- The deferred function: the error of `Close` counts if there is no other.
abbrev pub closing : Option Error → Result (Unit {0}) → Result (Unit {0})
closing close_err (ok _) = returned close_err
closing close_err (fail e) = fail e
closing close_err panics = panics

-- `err == ErrStopIter`.
abbrev pub stopping : Error → Result (Unit {0})
stopping stop_iter = ok tt
stopping e = fail e

-- `metaCache`, and the cache of the mapper.
pub record Caches : Type 0 where
  pub types : TypeCache
  pub metas : MetaCache

-- What the loop changes: the memory, `scanDest`, and the variables of the caller's closures.
pub record Scan (Y : Type 0) : Type 0 where
  pub memory : Memory
  pub scan_dest : List Slot
  pub out : Y

-- A call with what it leaves.
pub record Scanned (R : Type 0) (Y : Type 0) : Type 0 where
  pub scan : Scan Y
  pub result : Result (Unit {0})
  pub rows : SqlRows R
  pub caches : Caches

-- `for rows.Next() { … }`, then `rows.Err()`.
unfoldable pub rows_loop :
    {R Y : Type 0}
    → (R → Scan Y → Scan Y × Result (Unit {0}))
    → Option Error
    → List R
    → Scan Y
    → Scan Y × Result (Unit {0})
rows_loop body err [] w = (w, returned err)
rows_loop body err (row ∷ rows) w =
    let (w', r) = body row w in
    elim r [ ok _ ↦ rows_loop body err rows w' | fail e ↦ (w', stopping e) | panics ↦ (w', panics) ]

-- `strictTagParsing && len(tm.Errors) > 0`, with the first error.
abbrev pub strict_error : Bool → List Error → Option Error
strict_error true (e ∷ es) = some e
strict_error _ _ = none

-- `t.Name()`, for an error's text; the names of other defined types are not in the model.
abbrev pub type_name : Setting → GoType → Bytes
type_name env (struct_type n) = elim (get_elem? env.structs n) [ none ↦ [] | some d ↦ d.name ]
type_name env t = []

-- `rows.Scan(dest...)`, with the user's `Scanner` types, and the sizes of Go types are parameters.
module _ {R : Type 0} (env : Setting) (size : GoType → ℕ)
    (sql_scan : R → List Slot → Memory → Memory × Result (Unit {0})) where
  -- The closures that are passed to `iterateScan`, over their variables: `yield` reads the memory.
  module _ {Y : Type 0} (alloc : Memory → ℕ × Memory)
      (yield : ℕ → Memory → Y → Y × Result (Unit {0})) where
    -- Behind `rows.Scan`.
    unfoldable pub after_scan :
        String → ℕ → Scan Y → Memory → Result (Unit {0}) → Scan Y × Result (Unit {0})
    after_scan format vp w m (ok _) =
        let (y, r) = yield vp m w.out in (record w { memory = m; out = y }, r)
    after_scan format vp w m (fail e) = (record w { memory = m }, fail (errorf format [] e))
    after_scan format vp w m panics = (record w { memory = m }, panics)

    unfoldable pub scan_scannable : GoType → R → Scan Y → Scan Y × Result (Unit {0})
    unfolding after_scan
    scan_scannable t row w =
        let (vp, m) = alloc w.memory in
        let (m', r) = sql_scan row (into (some t) vp ∷ []) m in
        after_scan "sqlx: scannable scan error: %w" vp w m' r

    unfoldable pub scan_struct : List FieldMeta → R → Scan Y → Scan Y × Result (Unit {0})
    unfolding after_scan
    scan_struct meta row w =
        let (vp, m) = alloc w.memory in
        let (dest, m') = populate_scan_dest size vp meta w.scan_dest m in
        let (m'', r) = sql_scan row dest m' in
        after_scan "sqlx: struct scan error: %w" vp (record w { scan_dest = dest }) m'' r

    unfoldable pub scannable_rows :
        SqlRows R → GoType → List Bytes → Scan Y → Scan Y × Result (Unit {0})
    unfolding rows_loop scan_scannable
    scannable_rows rows t columns w =
        if not (length columns == 1)
        then (
          w,
          fail (
              plain "sqlx: scannable dest type %s with >1 columns (%d)"
                (itoa (length columns) ∷ [])),
        )
        else rows_loop (scan_scannable t) rows.err rows.pending w

    -- With the metadata; a pooled `scanDest` holds nil only.
    unfoldable pub struct_rows :
        SqlRows R → List Bytes → Result (List FieldMeta) → Scan Y → Scan Y × Result (Unit {0})
    unfolding rows_loop scan_struct
    struct_rows rows columns (ok meta) w =
        rows_loop (scan_struct meta) rows.err rows.pending
          (record w { scan_dest = replicate (length columns) empty })
    struct_rows rows columns (fail e) w = (w, fail (errorf "sqlx: error building meta: %w" [] e))
    struct_rows rows columns panics w = (w, panics)

    -- With the struct map. `map_type-ends` rules out the last case.
    unfoldable pub mapped_rows :
        SqlRows R
        → GoType
        → Bool
        → Bool
        → List Bytes
        → Mapped StructMap
        → MetaCache
        → Scan Y
        → (Scan Y × Result (Unit {0})) × MetaCache
    unfolding struct_rows
    mapped_rows rows t is_unsafe strict columns (done tm) metas w =
        elim (strict_error strict tm.errors) [
          | some e ↦ ((w, fail (errorf "sqlx: strict tag error: %w" [] e)), metas)
          | none ↦
              let (r, metas') = build_meta t (type_name env t) columns tm is_unsafe metas in
              (struct_rows rows columns r w, metas')
        ]
    mapped_rows rows t is_unsafe strict columns panicked metas w = ((w, panics), metas)
    mapped_rows rows t is_unsafe strict columns no_fuel metas w = ((w, panics), metas)

    -- `iterateScan` behind `rows.Columns()`.
    unfoldable pub column_rows :
        SqlRows R
        → GoType
        → Bool
        → Bool
        → List Bytes
        → Caches
        → Scan Y
        → (Scan Y × Result (Unit {0})) × Caches
    unfolding scannable_rows mapped_rows
    column_rows rows t is_unsafe strict columns caches w =
        if is_scannable env.scanner t
        then (scannable_rows rows t columns w, caches)
        else let (tm, types') = type_map env t caches.types in
          let (done_rows, metas') = mapped_rows rows t is_unsafe strict columns tm caches.metas w in
          (done_rows, record { types = types'; metas = metas' })

    -- The body of `iterateScan` without the deferred function.
    unfoldable pub iterate_body :
        SqlRows R → GoType → Bool → Bool → Caches → Scan Y → (Scan Y × Result (Unit {0})) × Caches
    unfolding column_rows
    iterate_body rows t is_unsafe strict caches w = elim rows.columns [
      | ok columns ↦ column_rows rows t is_unsafe strict columns caches w
      | fail e ↦ ((w, fail (errorf "sqlx: error getting columns: %w" [] e)), caches)
      | panics ↦ ((w, panics), caches)
    ]

    unfoldable pub iterate_scan :
        SqlRows R → GoType → Bool → Bool → Caches → Memory → Y → Scanned R Y
    unfolding iterate_body
    iterate_scan rows t is_unsafe strict caches memory y =
        let (end_of, caches') =
          iterate_body rows t is_unsafe strict caches
            (record { memory = memory; scan_dest = []; out = y }) in
        record {
          scan = end_of.0;
          result = closing rows.close_err end_of.1;
          rows = close_rows rows;
          caches = caches';
        }
