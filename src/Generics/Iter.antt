-- ===== src/Generics/Iter.antt =====
-- `SelectIter` in the loop `for v, err := range SelectIter[T](…) { … }`.
pub mod Left
pub mod Collect
use sqlx_v.Prelude.{ℕ, Bool, true, false, Option, none, some, List, [], ◌==◌, if◌then◌else◌}
use sqlx_v.Errors.{Error, stop_iter, errorf, Result, ok, fail, panics}
use sqlx_v.Value.{GoType, kind, is_pointer}
use sqlx_v.Reflectx.Mapper.{Mapper}
use sqlx_v.Reflectx.Address.{Memory}
use sqlx_v.Reflectx.Tags.{Setting}
use sqlx_v.Engine.Dest.{Slot}
use sqlx_v.Engine.Scan.{SqlRows, Caches, Scanned, iterate_scan}
use sqlx_v.Engine.Scan.Select.{Item, copied_item, cells_from, new_object}
use sqlx_v.Handles.{Queryer, extract_meta}
use sqlx_v.Generics.{has_no_type, elem_type}

-- Whether the loop goes on, and where it was left.
pub data Phase : Type 0 where
  running left_at_row left_at_error : Phase

-- The loop: the variables of its body, and where it is.
pub record Loop (Y : Type 0) : Type 0 where
  pub vars : Y
  pub phase : Phase

-- The loop's body: true if it goes on, and false behind a `break` or a `return`.
abbrev pub Body : Type 0 → Type 0
Body Y = Result Item → Y → Y × Bool

abbrev pub next_phase : Bool → Phase → Phase
next_phase true left = running
next_phase false left = left

-- `yield` of the compiler's: a call behind the one that returned false panics.
unfoldable pub call_yield :
    {Y : Type 0} → Body Y → Phase → Result Item → Loop Y → Loop Y × Result Bool
call_yield body left v w = elim w.phase [
  | running ↦
      let (y, go_on) = body v w.vars in
      (record { vars = y; phase = next_phase go_on left }, ok go_on)
  | left_at_row ↦ (w, panics)
  | left_at_error ↦ (w, panics)
]

-- `if !yield(…) { return ErrStopIter }; return nil`.
abbrev pub stop_unless : Result Bool → Result (Unit {0})
stop_unless (ok true) = ok tt
stop_unless (ok false) = fail stop_iter
stop_unless (fail e) = fail e
stop_unless panics = panics

-- What `yield` of an error leaves: the iterator returns, whatever its result.
abbrev pub return_after : Result Bool → Result (Unit {0})
return_after (ok _) = ok tt
return_after (fail e) = fail e
return_after panics = panics

-- The closure that is passed to `iterateScan`. For a type of pointers `vp.Elem()` is the object, whose
-- type is not `T`, so the assertion `.(T)` panics.
unfoldable pub yield_row :
    {Y : Type 0} → Body Y → Bool → ℕ → ℕ → Memory → Loop Y → Loop Y × Result (Unit {0})
unfolding call_yield
yield_row body true n vp m w = (w, panics)
yield_row body false n vp m w =
    let (w', r) = call_yield body left_at_row (ok (copied_item (cells_from m vp n))) w in
    (w', stop_unless r)

unfoldable pub yield_error : {Y : Type 0} → Body Y → Error → Loop Y → Loop Y × Result (Unit {0})
unfolding call_yield
yield_error body e w =
    let (w', r) = call_yield body left_at_error (fail e) w in (w', return_after r)

-- Behind `iterateScan`.
unfoldable pub after_rows :
    {Y : Type 0} → Body Y → Loop Y → Result (Unit {0}) → Loop Y × Result (Unit {0})
unfolding yield_error
after_rows body w (ok _) = (w, ok tt)
after_rows body w (fail e) = yield_error body (errorf "sqlx: error in SelectIter scan: %w" [] e) w
after_rows body w panics = (w, panics)

module _ {R Y : Type 0} (env : Setting) (size : GoType → ℕ)
    (sql_scan : R → List Slot → Memory → Memory × Result (Unit {0})) (body : Body Y) where
  -- Behind the query, with what `extractMeta` finds.
  unfoldable pub iter_rows :
      SqlRows R → GoType → Bool → Bool → Caches → Memory → Loop Y → Scanned R (Loop Y)
  unfolding yield_row
  iter_rows rows t is_unsafe strict caches memory w =
      iterate_scan env size sql_scan (new_object (size (elem_type t)))
        (yield_row body (is_pointer (kind t)) (size (elem_type t))) rows (elem_type t) is_unsafe
        strict caches memory w

  unfoldable pub iter_with :
      SqlRows R → GoType → Bool → Bool → Caches → Memory → Loop Y → Loop Y × Result (Unit {0})
  unfolding iter_rows after_rows
  iter_with rows t is_unsafe strict caches memory w =
      if has_no_type t
      then (w, panics)
      else let s = iter_rows rows t is_unsafe strict caches memory w in
        after_rows body s.scan.out s.result

-- The loop over `SelectIter`; `queried` is what `q.QueryContext` returns, and the result tells whether
-- the iterator returns.
unfoldable pub select_iter :
    {R Y : Type 0}
    → Mapper
    → Setting
    → (GoType → ℕ)
    → (R → List Slot → Memory → Memory × Result (Unit {0}))
    → Body Y
    → Queryer
    → Result (SqlRows R)
    → GoType
    → Caches
    → Memory
    → Y
    → Loop Y × Result (Unit {0})
unfolding extract_meta iter_with yield_error
select_iter default_mapper env size sql_scan body q queried t caches memory y =
    let w : Loop _ = record { vars = y; phase = running } in
    elim queried [
      | ok rows ↦
          let (is_unsafe, strict, mapper) = extract_meta default_mapper q in
          iter_with (record env { mapper = mapper }) size sql_scan body rows t is_unsafe strict
            caches memory w
      | fail e ↦ yield_error body (errorf "sqlx: error in SelectIter rows: %w" [] e) w
      | panics ↦ (w, panics)
    ]
