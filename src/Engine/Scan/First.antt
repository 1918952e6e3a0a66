-- ===== src/Engine/Scan/First.antt =====
-- `getScan` reads one row.
use sqlx_v.Prelude.{
  ℕ, Bool, false, Option, none, List, [], ◌∷◌, ◌≡◌, ◌≢◌, refl, ap, sym, ◌∙◌, inl, inr, arith,
  String, Bytes, Option-cases,
}
use sqlx_v.Errors.{Error, Result, ok, fail, panics, Result-cases}
use sqlx_v.Value.{GoType}
use sqlx_v.Reflectx.Address.{Memory}
use sqlx_v.Reflectx.Tags.{Setting}
use sqlx_v.Engine.Meta.{FieldMeta}
use sqlx_v.Engine.Dest.{Slot}
use sqlx_v.Engine.Scan.{
  SqlRows, Caches, Scan, rows_loop, after_scan, scan_scannable, scan_struct, iterate_body,
}
use sqlx_v.Engine.Scan.Plan.{
  Plan, returns_early, over_scannable, over_struct, iterate_plan, run_plan, iterate_body-plan,
}
use sqlx_v.Engine.Scan.Select.{Dest}
use sqlx_v.Engine.Scan.Get.{same_object, find_one, pointer_dest, get_scan}

-- Rows with some behind the first one, and with the first one only.
module _ {R : Type 0} (columns : Result (List Bytes)) (row : R) (rest : List R)
    (err close_err : Option Error) (closes : ℕ) where
  abbrev pub many_rows : SqlRows R
  many_rows = record {
    columns = columns;
    pending = row ∷ rest;
    err = err;
    close_err = close_err;
    closes = closes;
  }

  abbrev pub one_row : SqlRows R
  one_row = record {
    columns = columns;
    pending = row ∷ [];
    err = none;
    close_err = close_err;
    closes = closes;
  }

module _ {R : Type 0} (env : Setting) (size : GoType → ℕ)
    (sql_scan : R → List Slot → Memory → Memory × Result (Unit {0})) where
  module _ (target : ℕ) where
    -- The body of a loop ends it.
    abbrev Stops : (R → Scan Bool → Scan Bool × Result (Unit {0})) → Type 0
    Stops body = (row : R) (w : Scan Bool) → (body row w).1 ≢ ok tt

    after_scan-stops :
        (format : String) (vp : ℕ) (w : Scan Bool) (m : Memory) (r : Result (Unit {0}))
        → (after_scan env size sql_scan (same_object target) find_one format vp w m r).1 ≢ ok tt
    unfolding after_scan
    after_scan-stops format vp w m (ok u) h = absurd (ground arith)
    after_scan-stops format vp w m (fail e) h = absurd (ground arith)
    after_scan-stops format vp w m panics h = absurd (ground arith)

    scan_scannable-Stops :
        (t : GoType) → Stops (scan_scannable env size sql_scan (same_object target) find_one t)
    unfolding scan_scannable
    scan_scannable-Stops t row w = after_scan-stops _ target w _ _

    scan_struct-Stops :
        (meta : List FieldMeta)
        → Stops (scan_struct env size sql_scan (same_object target) find_one meta)
    unfolding scan_struct
    scan_struct-Stops meta row w = after_scan-stops _ target (record w { scan_dest = _ }) _ _

    rows_loop-first :
        (body : R → Scan Bool → Scan Bool × Result (Unit {0})) (err : Option Error) (row : R)
        (rest : List R) (w : Scan Bool)
        → Stops body
        → rows_loop body err (row ∷ rest) w ≡ rows_loop body none (row ∷ []) w
    unfolding rows_loop
    rows_loop-first body err row rest w stops = elim (Result-cases (body row w).1) [
      | inl (u, e) ↦ absurd (stops row w e)
      | inr (inl (x, e)) ↦ rw (e, rows_loop) refl
      | inr (inr e) ↦ rw (e, rows_loop) refl
    ]

    module _ (columns_read : Result (List Bytes)) (row : R) (rest : List R)
        (err close_err : Option Error) (closes : ℕ) where
      run_plan-first :
          (plan : Plan) (w : Scan Bool)
          → run_plan env size sql_scan
              (same_object target)
              find_one
              (many_rows columns_read row rest err close_err closes)
              plan
              w
            ≡ run_plan env size sql_scan
                (same_object target)
                find_one
                (one_row columns_read row rest err close_err closes)
                plan
                w
      unfolding run_plan
      run_plan-first (returns_early r) w = refl
      run_plan-first (over_scannable t) w =
          rows_loop-first (scan_scannable env size sql_scan (same_object target) find_one t) err row
            rest w (scan_scannable-Stops t)
      run_plan-first (over_struct meta n) w =
          rows_loop-first (scan_struct env size sql_scan (same_object target) find_one meta) err row
            rest (record w { scan_dest = _ }) (scan_struct-Stops meta)

      iterate_body-first :
          (t : GoType) (is_unsafe strict : Bool) (caches : Caches) (w : Scan Bool)
          → iterate_body env size sql_scan
              (same_object target)
              find_one
              (many_rows columns_read row rest err close_err closes)
              t
              is_unsafe
              strict
              caches
              w
            ≡ iterate_body env size sql_scan
                (same_object target)
                find_one
                (one_row columns_read row rest err close_err closes)
                t
                is_unsafe
                strict
                caches
                w
      iterate_body-first t is_unsafe strict caches w =
          let (plan, caches') = iterate_plan env columns_read t is_unsafe strict caches in
          iterate_body-plan env size sql_scan (same_object target) find_one
            (many_rows columns_read row rest err close_err closes) t is_unsafe strict caches w
          ∙ ap (λ p. (p, caches')) (run_plan-first plan w)
          ∙ sym (
              iterate_body-plan env size sql_scan (same_object target) find_one
                (one_row columns_read row rest err close_err closes) t is_unsafe strict caches w)

  -- `Get` reads one row: the others, and the error that the rows would report behind them, change
  -- nothing of what it returns, writes or caches.
  pub get_scan-first :
      (columns : Result (List Bytes)) (row : R) (rest : List R) (err close_err : Option Error)
      (closes : ℕ) (dest : Dest) (is_unsafe strict : Bool) (caches : Caches) (memory : Memory)
      → let all =
          get_scan env size sql_scan
            (many_rows columns row rest err close_err closes)
            dest
            is_unsafe
            strict
            caches
            memory in
        let one =
          get_scan env size sql_scan
            (one_row columns row rest err close_err closes)
            dest
            is_unsafe
            strict
            caches
            memory in
        (all.scan ≡ one.scan) × (all.result ≡ one.result) × (all.caches ≡ one.caches)
  unfolding get_scan
  get_scan-first columns row rest err close_err closes dest is_unsafe strict caches memory =
      elim (Option-cases (pointer_dest dest)) [
        | inl bad ↦ rw (bad, get_scan) (refl, refl, refl)
        | inr (t, good) ↦
            let same =
              iterate_body-first dest.target columns row rest err close_err closes t is_unsafe
                strict caches (record { memory = memory; scan_dest = []; out = false }) in
            rw (good, get_scan, same) (refl, refl, refl)
      ]
