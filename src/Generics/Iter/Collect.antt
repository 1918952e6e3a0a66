-- ===== src/Generics/Iter/Collect.antt =====
-- A loop over `SelectIter` that takes every row.
use sqlx_v.Prelude.{ℕ, Bool, true, false, Option, none, some, List, [], ◌∷◌, ◌++◌, ◌≡◌, ◌≢◌, refl}
use sqlx_v.Errors.{Error, root, Result, ok, fail, panics}
use sqlx_v.Value.{GoType, slice_of, pointer_to, kind, is_pointer}
use sqlx_v.Reflectx.Mapper.{Mapper}
use sqlx_v.Reflectx.Address.{Memory}
use sqlx_v.Reflectx.Tags.{Setting}
use sqlx_v.Engine.Dest.{Slot}
use sqlx_v.Engine.Scan.{SqlRows, Caches, Scanned}
use sqlx_v.Engine.Scan.Simulates.{iterate_scan-seen}
use sqlx_v.Engine.Scan.Select.{Item, new_object, append_item, select_into, select_scan}
use sqlx_v.Handles.{Queryer, select_context}
use sqlx_v.Generics.{has_no_type}
use sqlx_v.Generics.Select.Pointers.{slice_dest-slice_of}
use sqlx_v.Generics.Iter.{
  running, Loop, Body, call_yield, yield_row, yield_error, after_rows, iter_rows, iter_with,
  select_iter,
}

-- What a loop gathers: the values, and the error if there is one.
pub record Gathered : Type 0 where
  pub items : List Item
  pub err : Option Error

-- `for v, err := range … { if err != nil { gathered = err; continue }; items = append(items, v) }`.
abbrev pub gather : Body Gathered
gather (ok i) g = (record g { items = g.items ++ i ∷ [] }, true)
gather (fail e) g = (record g { err = some e }, true)
gather panics g = (g, true)

abbrev pub none_yet : Gathered
none_yet = record { items = []; err = none }

-- The loop that has gathered the items of a slice.
abbrev gathering : List Item → Loop Gathered
gathering items = record { vars = record { items = items; err = none }; phase = running }

-- What the loop has gathered is what the select returns.
abbrev pub SameGathered : Loop Gathered × Result (Unit {0}) → List Item → Result (Unit {0}) → Type 0
SameGathered (w, r) out (ok _) = (r ≡ ok tt) × (w.vars.items ≡ out) × (w.vars.err ≡ none)
SameGathered (w, r) out (fail e) =
    (r ≡ ok tt) × (w.vars.items ≡ out) × ((x : Error) × (w.vars.err ≡ some x) × (root x ≡ root e))
SameGathered (w, r) out panics = (r ≡ panics) × (w.vars.items ≡ out)

after_rows-gathering :
    (items : List Item) (r : Result (Unit {0}))
    → SameGathered (after_rows gather (gathering items) r) items r
unfolding after_rows yield_error call_yield
after_rows-gathering items (ok u) = (refl, refl, refl)
after_rows-gathering items (fail e) = (refl, refl, (_, refl, refl))
after_rows-gathering items panics = (refl, refl)

module _ {R : Type 0} (env : Setting) (size : GoType → ℕ)
    (sql_scan : R → List Slot → Memory → Memory × Result (Unit {0})) where
  yield_row-gathering :
      (n vp : ℕ) (m : Memory) (items : List Item)
      → yield_row gather false n vp m (gathering items)
        ≡ (gathering (append_item false n vp m items).0, (append_item false n vp m items).1)
  unfolding yield_row call_yield
  yield_row-gathering n vp m items = refl

  iter_with-select_into :
      (rows : SqlRows R) (t : GoType) (is_unsafe strict : Bool) (caches : Caches) (memory : Memory)
      → is_pointer (kind t) ≡ false
      → has_no_type t ≡ false
      → let s = select_into env size sql_scan rows t is_unsafe strict caches memory [] in
        SameGathered
          (iter_with env size sql_scan gather rows t is_unsafe strict caches memory (gathering []))
          s.scan.out
          s.result
  unfolding iter_with iter_rows select_into
  iter_with-select_into rows t is_unsafe strict caches memory value typed =
      rw (typed, iter_with, iter_rows, value)
        (rw
          (iterate_scan-seen gathering env size sql_scan (new_object (size t))
            (append_item false (size t)) (yield_row gather false (size t))
            (yield_row-gathering (size t)) rows t is_unsafe strict caches memory [])
          (after_rows-gathering _ _))

-- A loop that takes every row, over a type that is neither one of pointers nor an interface, gathers
-- what `Select` appends to an empty slice, from the same handle and rows: the same values in the same
-- order, those before an error too, the error with the same one at its root behind them, and a panic
-- in the same case.
pub select_iter-select_context :
    {R : Type 0} (default_mapper : Mapper) (env : Setting) (size : GoType → ℕ)
    (sql_scan : R → List Slot → Memory → Memory × Result (Unit {0})) (q : Queryer)
    (rows : SqlRows R) (t : GoType) (target : ℕ) (caches : Caches) (memory : Memory)
    → is_pointer (kind t) ≡ false
    → has_no_type t ≡ false
    → target ≢ 0
    → (s : Scanned R (List Item)) × (select_context default_mapper env size sql_scan q
          (ok rows)
          (record { type = some (pointer_to (slice_of t)); target = target })
          caches
          memory
          []
        ≡ ok s)
      × SameGathered
          (select_iter default_mapper env size sql_scan gather q (ok rows) t caches memory none_yet)
          s.scan.out
          s.result
unfolding select_iter select_context select_scan
select_iter-select_context default_mapper env size sql_scan q rows t target caches memory value
      typed nonzero =
    rw (slice_dest-slice_of t target nonzero, select_scan)
      (_, refl, iter_with-select_into _ size sql_scan rows t _ _ caches memory value typed)
