-- ===== src/Engine/Scan/Plan.antt =====
-- What `iterateScan` decides before the first row. The closures have no part in it, so what is said of
-- them is said of one loop.
use sqlx_v.Prelude.{
  ℕ, Bool, not, none, some, List, [], ◌∷◌, ◌≡◌, refl, ap, inl, inr, ◌==◌, if◌then◌else◌, Bytes,
  length, replicate, Bool-cases, Option-cases,
}
use sqlx_v.Errors.{errorf, plain, Result, ok, fail, panics, Result-cases}
use sqlx_v.GoStrings.{itoa}
use sqlx_v.Value.{GoType}
use sqlx_v.Reflectx.Address.{Memory}
use sqlx_v.Reflectx.Mapper.{StructMap}
use sqlx_v.Reflectx.Tags.{Setting}
use sqlx_v.Reflectx.Flatten.{Mapped, done, panicked, no_fuel}
use sqlx_v.Reflectx.TypeMap.{type_map}
use sqlx_v.Engine.Meta.{FieldMeta}
use sqlx_v.Engine.Meta.Cache.{MetaCache, build_meta}
use sqlx_v.Engine.Dest.{Slot, empty, is_scannable}
use sqlx_v.Engine.Scan.{
  SqlRows, Caches, Scan, rows_loop, strict_error, type_name, scan_scannable, scan_struct,
  scannable_rows, struct_rows, mapped_rows, column_rows, iterate_body,
}

-- It returns before the first row, or goes over the rows.
pub data Plan : Type 0 where
  returns_early : Result (Unit {0}) → Plan
  over_scannable : GoType → Plan
  over_struct : List FieldMeta → ℕ → Plan

scannable_plan : GoType → List Bytes → Plan
scannable_plan t columns =
    if not (length columns == 1)
    then returns_early (
        fail
          (plain "sqlx: scannable dest type %s with >1 columns (%d)" (itoa (length columns) ∷ [])))
    else over_scannable t

struct_plan : List Bytes → Result (List FieldMeta) → Plan
struct_plan columns (ok meta) = over_struct meta (length columns)
struct_plan columns (fail e) = returns_early (fail (errorf "sqlx: error building meta: %w" [] e))
struct_plan columns panics = returns_early panics

module _ (env : Setting) where
  mapped_plan : GoType → Bool → Bool → List Bytes → Mapped StructMap → MetaCache → Plan × MetaCache
  mapped_plan t is_unsafe strict columns (done tm) metas = elim (strict_error strict tm.errors) [
    | some e ↦ (returns_early (fail (errorf "sqlx: strict tag error: %w" [] e)), metas)
    | none ↦
        let (r, metas') = build_meta t (type_name env t) columns tm is_unsafe metas in
        (struct_plan columns r, metas')
  ]
  mapped_plan t is_unsafe strict columns panicked metas = (returns_early panics, metas)
  mapped_plan t is_unsafe strict columns no_fuel metas = (returns_early panics, metas)

  column_plan : GoType → Bool → Bool → List Bytes → Caches → Plan × Caches
  column_plan t is_unsafe strict columns caches =
      if is_scannable env.scanner t
      then (scannable_plan t columns, caches)
      else let (tm, types') = type_map env t caches.types in
        let (plan, metas') = mapped_plan t is_unsafe strict columns tm caches.metas in
        (plan, record { types = types'; metas = metas' })

  pub iterate_plan : Result (List Bytes) → GoType → Bool → Bool → Caches → Plan × Caches
  iterate_plan (ok columns) t is_unsafe strict caches =
      column_plan t is_unsafe strict columns caches
  iterate_plan (fail e) t is_unsafe strict caches =
      (returns_early (fail (errorf "sqlx: error getting columns: %w" [] e)), caches)
  iterate_plan panics t is_unsafe strict caches = (returns_early panics, caches)

module _ {R Y : Type 0} (env : Setting) (size : GoType → ℕ)
    (sql_scan : R → List Slot → Memory → Memory × Result (Unit {0})) (alloc : Memory → ℕ × Memory)
    (yield : ℕ → Memory → Y → Y × Result (Unit {0})) (rows : SqlRows R) where
  unfoldable pub run_plan : Plan → Scan Y → Scan Y × Result (Unit {0})
  run_plan (returns_early r) w = (w, r)
  run_plan (over_scannable t) w =
      rows_loop (scan_scannable env size sql_scan alloc yield t) rows.err rows.pending w
  run_plan (over_struct meta n) w =
      rows_loop (scan_struct env size sql_scan alloc yield meta) rows.err rows.pending
        (record w { scan_dest = replicate n empty })

  scannable_rows-plan :
      (t : GoType) (columns : List Bytes) (w : Scan Y)
      → scannable_rows env size sql_scan alloc yield rows t columns w
        ≡ run_plan (scannable_plan t columns) w
  unfolding scannable_rows scannable_plan run_plan
  scannable_rows-plan t columns w = elim (Bool-cases (length columns == 1)) [
    | inl one ↦ rw (one, scannable_rows, scannable_plan) refl
    | inr other ↦ rw (other, scannable_rows, scannable_plan) refl
  ]

  struct_rows-plan :
      (columns : List Bytes) (r : Result (List FieldMeta)) (w : Scan Y)
      → struct_rows env size sql_scan alloc yield rows columns r w
        ≡ run_plan (struct_plan columns r) w
  unfolding struct_rows struct_plan run_plan
  struct_rows-plan columns (ok meta) w = refl
  struct_rows-plan columns (fail e) w = refl
  struct_rows-plan columns panics w = refl

  mapped_rows-plan :
      (t : GoType) (is_unsafe strict : Bool) (columns : List Bytes) (tm : Mapped StructMap)
      (metas : MetaCache) (w : Scan Y)
      → let (plan, metas') = mapped_plan env t is_unsafe strict columns tm metas in
        mapped_rows env size sql_scan alloc yield rows t is_unsafe strict columns tm metas w
        ≡ (run_plan plan w, metas')
  unfolding mapped_rows mapped_plan
  mapped_rows-plan t is_unsafe strict columns (done tm) metas w =
      elim (Option-cases (strict_error strict tm.errors)) [
        | inl fine ↦
            rw (fine, mapped_rows, mapped_plan)
              (ap (λ p. (p, (build_meta t (type_name env t) columns tm is_unsafe metas).1))
                (struct_rows-plan columns _ w))
        | inr (e, wrong) ↦ rw (wrong, mapped_rows, mapped_plan) (unfold run_plan in refl)
      ]
  mapped_rows-plan t is_unsafe strict columns panicked metas w = unfold run_plan in refl
  mapped_rows-plan t is_unsafe strict columns no_fuel metas w = unfold run_plan in refl

  column_rows-plan :
      (t : GoType) (is_unsafe strict : Bool) (columns : List Bytes) (caches : Caches) (w : Scan Y)
      → let (plan, caches') = column_plan env t is_unsafe strict columns caches in
        column_rows env size sql_scan alloc yield rows t is_unsafe strict columns caches w
        ≡ (run_plan plan w, caches')
  unfolding column_rows column_plan
  column_rows-plan t is_unsafe strict columns caches w =
      elim (Bool-cases (is_scannable env.scanner t)) [
        | inl plain_type ↦
            rw (plain_type, column_rows, column_plan)
              (ap (λ p. (p, caches)) (scannable_rows-plan t columns w))
        | inr other ↦
            rw (other, column_rows, column_plan)
              (let (tm, types') = type_map env t caches.types in
                ap (λ p. (p.0, record { types = types'; metas = p.1 }))
                  (mapped_rows-plan t is_unsafe strict columns tm caches.metas w))
      ]

  -- `iterateScan` is its plan, carried out with the closures.
  pub iterate_body-plan :
      (t : GoType) (is_unsafe strict : Bool) (caches : Caches) (w : Scan Y)
      → let (plan, caches') = iterate_plan env rows.columns t is_unsafe strict caches in
        iterate_body env size sql_scan alloc yield rows t is_unsafe strict caches w
        ≡ (run_plan plan w, caches')
  unfolding iterate_body iterate_plan run_plan
  iterate_body-plan t is_unsafe strict caches w = elim (Result-cases rows.columns) [
    | inl (columns, e) ↦
        rw (e, iterate_body, iterate_plan) (column_rows-plan t is_unsafe strict columns caches w)
    | inr (inl (x, e)) ↦ rw (e, iterate_body, iterate_plan) refl
    | inr (inr e) ↦ rw (e, iterate_body, iterate_plan) refl
  ]
