-- ===== src/Generics/Iter/Left.antt =====
-- A loop over `SelectIter` that is left early.
use sqlx_v.Prelude.{
  ℕ, Bool, true, false, Option, none, some, List, [], ◌∷◌, ◌≡◌, ◌≢◌, ◌⊎◌, refl, inl, inr, arith,
  String, Bool-cases, replicate, subst, sym,
}
use sqlx_v.Errors.{Error, stop_iter, Result, ok, fail, panics, Result-cases}
use sqlx_v.Value.{GoType, kind, is_pointer}
use sqlx_v.Reflectx.Mapper.{Mapper}
use sqlx_v.Reflectx.Address.{Memory}
use sqlx_v.Reflectx.Tags.{Setting}
use sqlx_v.Engine.Dest.{Slot, empty}
use sqlx_v.Engine.Scan.{
  SqlRows, closing, Caches, Scan, rows_loop, after_scan, scan_scannable, scan_struct, iterate_body,
  iterate_scan,
}
use sqlx_v.Engine.Scan.Plan.{
  Plan, returns_early, over_scannable, over_struct, run_plan, iterate_plan, iterate_body-plan,
}
use sqlx_v.Engine.Scan.Select.{copied_item, cells_from, new_object}
use sqlx_v.Handles.{Queryer}
use sqlx_v.Generics.{has_no_type, elem_type}
use sqlx_v.Generics.Iter.{
  Phase, running, left_at_row, left_at_error, Loop, Body, next_phase, call_yield, yield_row,
  yield_error, after_rows, iter_rows, iter_with, select_iter,
}

-- The loop runs, or a row was the last one and the closure returned the error.
abbrev RowEnd : Phase → Result (Unit {0}) → Type 0
RowEnd p r = (p ≡ running) ⊎ ((p ≡ left_at_row) × (r ≡ fail stop_iter))

-- The same behind the loop over the rows, which returns nil for that error.
abbrev LoopEnd : Phase → Result (Unit {0}) → Type 0
LoopEnd p r = (p ≡ running) ⊎ ((p ≡ left_at_row) × (r ≡ ok tt))

module _ {Y : Type 0} (body : Body Y) where
  yield_row-RowEnd :
      (is_ptr : Bool) (n vp : ℕ) (m : Memory) (y : Y)
      → let p = yield_row body is_ptr n vp m (record { vars = y; phase = running }) in
        RowEnd p.0.phase p.1
  unfolding yield_row call_yield
  yield_row-RowEnd true n vp m y = inl refl
  yield_row-RowEnd false n vp m y =
      elim (Bool-cases (body (ok (copied_item (cells_from m vp n))) y).1) [
        | inl goes_on ↦ inl (ground arith)
        | inr left ↦ inr (ground arith, ground arith)
      ]

module _ {R Y : Type 0} (env : Setting) (size : GoType → ℕ)
    (sql_scan : R → List Slot → Memory → Memory × Result (Unit {0})) (body : Body Y) (is_ptr : Bool)
    (n : ℕ) where
  abbrev RunsRows : (R → Scan (Loop Y) → Scan (Loop Y) × Result (Unit {0})) → Type 0
  RunsRows one_row =
      (row : R) (w : Scan (Loop Y))
      → w.out.phase ≡ running
      → RowEnd (one_row row w).0.out.phase (one_row row w).1

  after_scan-RowEnd :
      (format : String) (vp : ℕ) (w : Scan (Loop Y)) (m : Memory) (r : Result (Unit {0}))
      → w.out.phase ≡ running
      → let p =
          after_scan env size sql_scan (new_object n) (yield_row body is_ptr n) format vp w m r in
        RowEnd p.0.out.phase p.1
  unfolding after_scan
  after_scan-RowEnd format vp w m (ok u) runs =
      subst
        (λ p.
          RowEnd (yield_row body is_ptr n vp m (record { vars = w.out.vars; phase = p })).0.phase
            (yield_row body is_ptr n vp m (record { vars = w.out.vars; phase = p })).1)
        (sym runs) (yield_row-RowEnd body is_ptr n vp m w.out.vars)
  after_scan-RowEnd format vp w m (fail e) runs = inl runs
  after_scan-RowEnd format vp w m panics runs = inl runs

  rows_loop-LoopEnd :
      (one_row : R → Scan (Loop Y) → Scan (Loop Y) × Result (Unit {0})) (err : Option Error)
      (rows : List R) (w : Scan (Loop Y))
      → RunsRows one_row
      → w.out.phase ≡ running
      → LoopEnd (rows_loop one_row err rows w).0.out.phase (rows_loop one_row err rows w).1
  unfolding rows_loop
  rows_loop-LoopEnd one_row err [] w keeps runs = inl runs
  rows_loop-LoopEnd one_row err (row ∷ rows) w keeps runs = elim (Result-cases (one_row row w).1) [
    | inl (u, e) ↦ elim (keeps row w runs) [
      | inl still ↦
          rw (e, rows_loop) (rows_loop-LoopEnd one_row err rows (one_row row w).0 keeps still)
      | inr (left, stop) ↦ absurd (cc)
    ]
    | inr (inl (x, e)) ↦ elim (keeps row w runs) [
      | inl still ↦ rw (e, rows_loop) (inl still)
      | inr (left, stop) ↦ rw (stop, rows_loop) (inr (left, refl))
    ]
    | inr (inr e) ↦ elim (keeps row w runs) [
      | inl still ↦ rw (e, rows_loop) (inl still)
      | inr (left, stop) ↦ absurd (cc)
    ]
  ]

  run_plan-LoopEnd :
      (rows : SqlRows R) (plan : Plan) (w : Scan (Loop Y))
      → w.out.phase ≡ running
      → let p = run_plan env size sql_scan (new_object n) (yield_row body is_ptr n) rows plan w in
        LoopEnd p.0.out.phase p.1
  unfolding run_plan
  run_plan-LoopEnd rows (returns_early r) w runs = inl runs
  run_plan-LoopEnd rows (over_scannable t) w runs =
      rows_loop-LoopEnd
        (scan_scannable env size sql_scan (new_object n) (yield_row body is_ptr n) t) rows.err
        rows.pending w (λ row w runs. unfold scan_scannable in after_scan-RowEnd _ _ w _ _ runs)
        runs
  run_plan-LoopEnd rows (over_struct meta k) w runs =
      rows_loop-LoopEnd
        (scan_struct env size sql_scan (new_object n) (yield_row body is_ptr n) meta) rows.err
        rows.pending (record w { scan_dest = replicate k empty })
        (λ row w runs.
          unfold scan_struct in after_scan-RowEnd _ _ (record w { scan_dest = _ }) _ _ runs)
        runs

  iterate_body-LoopEnd :
      (rows : SqlRows R) (t : GoType) (is_unsafe strict : Bool) (caches : Caches)
      (w : Scan (Loop Y))
      → w.out.phase ≡ running
      → let p =
          iterate_body env size sql_scan
            (new_object n)
            (yield_row body is_ptr n)
            rows
            t
            is_unsafe
            strict
            caches
            w in
        LoopEnd p.0.0.out.phase p.0.1
  iterate_body-LoopEnd rows t is_unsafe strict caches w runs =
      rw
        (iterate_body-plan env size sql_scan (new_object n) (yield_row body is_ptr n) rows t
          is_unsafe strict caches w)
        (run_plan-LoopEnd rows (iterate_plan env rows.columns t is_unsafe strict caches).0 w runs)

-- What becomes of the iterator.
abbrev pub end_of_left : Option Error → Result (Unit {0})
end_of_left none = ok tt
end_of_left (some e) = panics

next_phase-error : (b : Bool) → next_phase b left_at_error ≢ left_at_row
next_phase-error true h = cc
next_phase-error false h = cc

after_rows-running :
    {Y : Type 0} (body : Body Y) (w : Loop Y) (r : Result (Unit {0}))
    → w.phase ≡ running
    → (after_rows body w r).0.phase ≢ left_at_row
unfolding after_rows yield_error call_yield
after_rows-running body w (ok u) runs h = cc
after_rows-running body w (fail e) runs h =
    next_phase-error _ (rw (runs, yield_error, call_yield) at h)
after_rows-running body w panics runs h = cc

after_rows-left :
    {Y : Type 0} (body : Body Y) (close_err : Option Error) (w : Loop Y) (r : Result (Unit {0}))
    → LoopEnd w.phase r
    → (after_rows body w (closing close_err r)).0.phase ≡ left_at_row
    → (after_rows body w (closing close_err r)).1 ≡ end_of_left close_err
unfolding after_rows yield_error call_yield
after_rows-left body close_err w r (inl runs) h = absurd (after_rows-running body w _ runs h)
after_rows-left body none w r (inr (left, stopped)) h = rw stopped refl
after_rows-left body (some e) w r (inr (left, stopped)) h =
    rw (stopped, after_rows, yield_error, call_yield, left) refl

iter_with-left :
    {R Y : Type 0} (env : Setting) (size : GoType → ℕ)
    (sql_scan : R → List Slot → Memory → Memory × Result (Unit {0})) (body : Body Y)
    (rows : SqlRows R) (t : GoType) (is_unsafe strict : Bool) (caches : Caches) (memory : Memory)
    (y : Y)
    → let p =
        iter_with env size sql_scan body rows t is_unsafe strict caches memory
          (record { vars = y; phase = running }) in
      p.0.phase ≡ left_at_row → p.1 ≡ end_of_left rows.close_err
unfolding iter_with iter_rows iterate_scan
iter_with-left env size sql_scan body rows t is_unsafe strict caches memory y =
    elim (Bool-cases (has_no_type t)) [
      | inl untyped ↦ rw (untyped, iter_with) (λ h. absurd (cc))
      | inr typed ↦
          rw (typed, iter_with)
            (after_rows-left body rows.close_err _ _ (
              iterate_body-LoopEnd env size sql_scan body (is_pointer (kind t)) (size (elem_type t))
                rows (elem_type t) is_unsafe strict caches
                (record {
                  memory = memory;
                  scan_dest = [];
                  out = record { vars = y; phase = running };
                })
                refl))
    ]

-- Once a row was the last one that the loop took, by a `break` or a `return`, the iterator returns if
-- the rows close without an error. If `Close` has an error, it is yielded to the loop that was left,
-- which panics.
pub select_iter-left :
    {R Y : Type 0} (default_mapper : Mapper) (env : Setting) (size : GoType → ℕ)
    (sql_scan : R → List Slot → Memory → Memory × Result (Unit {0})) (body : Body Y) (q : Queryer)
    (rows : SqlRows R) (t : GoType) (caches : Caches) (memory : Memory) (y : Y)
    → let (w, r) =
        select_iter default_mapper env size sql_scan body q (ok rows) t caches memory y in
      w.phase ≡ left_at_row → r ≡ end_of_left rows.close_err
unfolding select_iter
select_iter-left default_mapper env size sql_scan body q rows t caches memory y =
    iter_with-left _ size sql_scan body rows t _ _ caches memory y
