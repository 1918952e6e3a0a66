-- ===== src/Engine/Scan/Simulates.antt =====
-- Two runs of `iterateScan` whose closures do the same to their variables, seen through a function.
use sqlx_v.Prelude.{ℕ, Bool, Option, List, [], ◌∷◌, ◌≡◌, refl, ap, ◌∙◌, String, replicate}
use sqlx_v.Errors.{Error, Result, ok, fail, panics}
use sqlx_v.Value.{GoType}
use sqlx_v.Reflectx.Address.{Memory}
use sqlx_v.Reflectx.Tags.{Setting}
use sqlx_v.Engine.Dest.{Slot, empty}
use sqlx_v.Engine.Scan.{
  SqlRows, stopping, Caches, Scan, Scanned, rows_loop, after_scan, scan_scannable, scan_struct,
  iterate_body, iterate_scan,
}
use sqlx_v.Engine.Scan.Plan.{
  Plan, returns_early, over_scannable, over_struct, run_plan, iterate_plan, iterate_body-plan,
}

-- What follows the body in the loop.
abbrev step :
    {W : Type 0}
    → (Scan W → Scan W × Result (Unit {0}))
    → Scan W × Result (Unit {0})
    → Scan W × Result (Unit {0})
step k p = elim p.1 [ ok _ ↦ k p.0 | fail e ↦ (p.0, stopping e) | panics ↦ (p.0, panics) ]

module _ {Y Z : Type 0} (f : Y → Z) where
  -- The state of the loop, seen through the function.
  abbrev pub seen : Scan Y → Scan Z
  seen w = record { memory = w.memory; scan_dest = w.scan_dest; out = f w.out }

  abbrev pub seen_end {ℓ} : {A : Type ℓ} → Scan Y × A → Scan Z × A
  seen_end p = (seen p.0, p.1)

  step-seen :
      (k : Scan Y → Scan Y × Result (Unit {0})) (k' : Scan Z → Scan Z × Result (Unit {0}))
      (p : Scan Y × Result (Unit {0}))
      → ((w : Scan Y) → k' (seen w) ≡ seen_end (k w))
      → step k' (seen_end p) ≡ seen_end (step k p)
  step-seen k k' (w, ok u) same = same w
  step-seen k k' (w, fail e) same = refl
  step-seen k k' (w, panics) same = refl

  module _ {R : Type 0} where
    rows_loop-seen :
        (body : R → Scan Y → Scan Y × Result (Unit {0}))
        (body' : R → Scan Z → Scan Z × Result (Unit {0})) (err : Option Error) (rows : List R)
        (w : Scan Y)
        → ((row : R) (w : Scan Y) → body' row (seen w) ≡ seen_end (body row w))
        → rows_loop body' err rows (seen w) ≡ seen_end (rows_loop body err rows w)
    unfolding rows_loop
    rows_loop-seen body body' err [] w same = refl
    rows_loop-seen body body' err (row ∷ rows) w same =
        ap (step (rows_loop body' err rows)) (same row w)
        ∙ step-seen (rows_loop body err rows) (rows_loop body' err rows) (body row w)
            (λ w. rows_loop-seen body body' err rows w same)

    module _ (env : Setting) (size : GoType → ℕ)
        (sql_scan : R → List Slot → Memory → Memory × Result (Unit {0}))
        (alloc : Memory → ℕ × Memory) (yield : ℕ → Memory → Y → Y × Result (Unit {0}))
        (yield' : ℕ → Memory → Z → Z × Result (Unit {0}))
        (same : (vp : ℕ) (m : Memory) (y : Y)
          → yield' vp m (f y) ≡ (f (yield vp m y).0, (yield vp m y).1)) where
      after_scan-seen :
          (format : String) (vp : ℕ) (w : Scan Y) (m : Memory) (r : Result (Unit {0}))
          → after_scan env size sql_scan alloc yield' format vp (seen w) m r
            ≡ seen_end (after_scan env size sql_scan alloc yield format vp w m r)
      unfolding after_scan
      after_scan-seen format vp w m (ok u) = rw (same vp m w.out) refl
      after_scan-seen format vp w m (fail e) = refl
      after_scan-seen format vp w m panics = refl

      run_plan-seen :
          (rows : SqlRows R) (plan : Plan) (w : Scan Y)
          → run_plan env size sql_scan alloc yield' rows plan (seen w)
            ≡ seen_end (run_plan env size sql_scan alloc yield rows plan w)
      unfolding run_plan
      run_plan-seen rows (returns_early r) w = refl
      run_plan-seen rows (over_scannable t) w =
          rows_loop-seen (scan_scannable env size sql_scan alloc yield t)
            (scan_scannable env size sql_scan alloc yield' t) rows.err rows.pending w
            (λ row w. unfold scan_scannable in after_scan-seen _ _ w _ _)
      run_plan-seen rows (over_struct meta n) w =
          rows_loop-seen (scan_struct env size sql_scan alloc yield meta)
            (scan_struct env size sql_scan alloc yield' meta) rows.err rows.pending
            (record w { scan_dest = replicate n empty })
            (λ row w. unfold scan_struct in after_scan-seen _ _ (record w { scan_dest = _ }) _ _)

      iterate_body-seen :
          (rows : SqlRows R) (t : GoType) (is_unsafe strict : Bool) (caches : Caches) (w : Scan Y)
          → let p = iterate_body env size sql_scan alloc yield rows t is_unsafe strict caches w in
            iterate_body env size sql_scan alloc yield' rows t is_unsafe strict caches (seen w)
            ≡ (seen_end p.0, p.1)
      iterate_body-seen rows t is_unsafe strict caches w =
          let plan = iterate_plan env rows.columns t is_unsafe strict caches in
          rw
            (
              iterate_body-plan env size sql_scan alloc yield' rows t is_unsafe strict caches
                  (seen w),
              iterate_body-plan env size sql_scan alloc yield rows t is_unsafe strict caches w,
            )
            (ap (λ p. (p, plan.1)) (run_plan-seen rows plan.0 w))

      -- The whole call.
      abbrev pub seen_scan : Scanned R Y → Scanned R Z
      seen_scan s = record {
        scan = seen s.scan;
        result = s.result;
        rows = s.rows;
        caches = s.caches;
      }

      pub iterate_scan-seen :
          (rows : SqlRows R) (t : GoType) (is_unsafe strict : Bool) (caches : Caches)
          (memory : Memory) (y : Y)
          → iterate_scan env size sql_scan alloc yield' rows t is_unsafe strict caches memory (f y)
            ≡ seen_scan
                (iterate_scan env size sql_scan alloc yield rows t is_unsafe strict caches memory y)
      unfolding iterate_scan
      iterate_scan-seen rows t is_unsafe strict caches memory y =
          rw
            (iterate_body-seen rows t is_unsafe strict caches
              (record { memory = memory; scan_dest = []; out = y }))
            refl
