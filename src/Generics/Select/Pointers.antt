-- ===== src/Generics/Select/Pointers.antt =====
-- `SelectG` of pointers, and `Select`.
use sqlx_v.Prelude.{
  ℕ, Bool, true, false, Option, none, some, List, [], ◌≡◌, ◌≢◌, refl, inl, inr, ==_ne,
}
use sqlx_v.Errors.{Error, root, Result, ok, fail, panics, Result-cases}
use sqlx_v.Value.{
  GoType, slice_of, pointer_to, Kind, basic_kind, slice, array, pointer, map, struct, kind, elem,
  is_pointer,
}
use sqlx_v.Reflectx.Mapper.{Mapper}
use sqlx_v.Reflectx.Address.{Memory}
use sqlx_v.Reflectx.Tags.{Setting}
use sqlx_v.Engine.Dest.{Slot}
use sqlx_v.Engine.Scan.{SqlRows, closing, Caches, Scanned, iterate_body, iterate_scan}
use sqlx_v.Engine.Scan.Select.{Item, new_object, append_item, slice_dest, select_into, select_scan}
use sqlx_v.Handles.{Queryer, select_context}
use sqlx_v.Generics.{is_asserted, is_interface, deferred_close}
use sqlx_v.Generics.Select.{Selected, select_rows, select_with, select_g}
use sqlx_v.Generics.Select.Loops.{SameEnd, SameScan, select_columns-SameScan}

closes-SameEnd :
    (close_err : Option Error) (r : Result (List Item)) (out : List Item) (q : Result (Unit {0}))
    → SameEnd r out q
    → SameEnd (deferred_close close_err r) out (closing close_err q)
closes-SameEnd none (ok items) out q (e, same) = rw e (refl, same)
closes-SameEnd (some x) (ok items) out q (e, same) = rw e (x, refl, refl)
closes-SameEnd none (fail e) out q (x, h, same) = rw h (x, refl, same)
closes-SameEnd (some c) (fail e) out q (x, h, same) = rw h (x, refl, same)
closes-SameEnd none panics out q h = rw h refl
closes-SameEnd (some x) panics out q h = rw h refl

pointer_has_type : (k : Kind) → is_pointer k ≡ true → is_interface k ≡ false
pointer_has_type pointer h = refl
pointer_has_type (basic_kind k) h = absurd (cc)
pointer_has_type slice h = absurd (cc)
pointer_has_type array h = absurd (cc)
pointer_has_type map h = absurd (cc)
pointer_has_type struct h = absurd (cc)

-- What the two calls return, write and leave.
pub record SameSelect {R : Type 0} (s : Selected R) (r : Scanned R (List Item)) : Type 0 where
  pub same_memory : s.memory ≡ r.scan.memory
  pub same_results : SameEnd s.results r.scan.out r.result
  pub same_rows : s.rows ≡ r.rows
  pub same_caches : s.caches ≡ r.caches

module _ {R : Type 0} (env : Setting) (size : GoType → ℕ)
    (sql_scan : R → List Slot → Memory → Memory × Result (Unit {0})) where
  -- Behind `elemType`.
  select_rows-SameScan :
      (rows : SqlRows R) (t : GoType) (is_unsafe strict : Bool) (caches : Caches) (memory : Memory)
      → is_pointer (kind t) ≡ true
      → is_asserted t ≡ true
      → let p = select_rows env size sql_scan rows t is_unsafe strict caches memory in
        let s =
          iterate_body env size sql_scan
            (new_object (size (elem t)))
            (append_item true (size (elem t)))
            rows
            (elem t)
            is_unsafe
            strict
            caches
            (record { memory = memory; scan_dest = []; out = [] }) in
        SameScan p.0 s.0 × (p.1 ≡ s.1)
  unfolding select_rows iterate_body
  select_rows-SameScan rows t is_unsafe strict caches memory is_ptr asserted =
      simp (pointer_has_type (kind t) is_ptr) (elim (Result-cases rows.columns) [
        | inl (columns, e) ↦
            rw (e, iterate_body, asserted, is_ptr)
              (select_columns-SameScan env size sql_scan (elem t) rows is_unsafe strict columns
                caches memory)
        | inr (inl (x, e)) ↦ rw (e, iterate_body) ((refl, (_, refl, refl)), refl)
        | inr (inr e) ↦ rw (e, iterate_body) ((refl, refl), refl)
      ])

  select_with-select_into :
      (rows : SqlRows R) (t : GoType) (is_unsafe strict : Bool) (caches : Caches) (memory : Memory)
      → is_pointer (kind t) ≡ true
      → is_asserted t ≡ true
      → SameSelect
          (select_with env size sql_scan rows t is_unsafe strict caches memory)
          (select_into env size sql_scan rows t is_unsafe strict caches memory [])
  unfolding select_with select_into iterate_scan
  select_with-select_into rows t is_unsafe strict caches memory is_ptr asserted =
      let (same, cached) =
        select_rows-SameScan rows t is_unsafe strict caches memory is_ptr asserted in
      rw is_ptr (record {
        same_memory = same.0;
        same_results = closes-SameEnd rows.close_err _ _ _ same.1;
        same_rows = refl;
        same_caches = cached;
      })

pub slice_dest-slice_of :
    (t : GoType) (target : ℕ)
    → target ≢ 0
    → slice_dest (record { type = some (pointer_to (slice_of t)); target = target }) ≡ some t
unfolding slice_dest
slice_dest-slice_of t target nonzero = rw (==_ne nonzero) refl

-- The two calls end alike: both fail at the query, with the same error at the root, or both go on.
abbrev pub SameCall : {R : Type 0} → Result (Selected R) → Result (Scanned R (List Item)) → Type 0
SameCall (ok s) r = (s' : Scanned _ (List Item)) × (r ≡ ok s') × SameSelect s s'
SameCall (fail e) r = (x : Error) × (r ≡ fail x) × (root e ≡ root x)
SameCall panics r = r ≡ panics

-- With a type `*E`, and no type defined as one, `SelectG` is `Select` into a new slice: from the same handle and rows it
-- returns the same elements, an error with the same error at its root, or panics, on every path, and
-- writes the same memory, closes the rows and leaves the same caches.
pub select_g-select_context :
    {R : Type 0} (default_mapper : Mapper) (env : Setting) (size : GoType → ℕ)
    (sql_scan : R → List Slot → Memory → Memory × Result (Unit {0})) (q : Queryer)
    (queried : Result (SqlRows R)) (t : GoType) (target : ℕ) (caches : Caches) (memory : Memory)
    → is_pointer (kind t) ≡ true
    → is_asserted t ≡ true
    → target ≢ 0
    → SameCall (select_g default_mapper env size sql_scan q queried t caches memory) (
        select_context default_mapper env size sql_scan q queried
          (record { type = some (pointer_to (slice_of t)); target = target })
          caches
          memory
          [])
unfolding select_g select_context select_scan
select_g-select_context default_mapper env size sql_scan q (ok rows) t target caches memory is_ptr
      asserted nonzero =
    rw (slice_dest-slice_of t target nonzero, select_scan)
      (_, refl, select_with-select_into _ size sql_scan rows t _ _ caches memory is_ptr asserted)
select_g-select_context default_mapper env size sql_scan q (fail e) t target caches memory is_ptr
      asserted nonzero =
    (_, refl, refl)
select_g-select_context default_mapper env size sql_scan q panics t target caches memory is_ptr
      asserted nonzero =
    refl
