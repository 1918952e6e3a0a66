-- ===== src/Generics/Get/Same.antt =====
-- `GetG`, and `Get` into a new object.
use sqlx_v.Prelude.{true, ℕ, Bool, false, Option, none, some, List, [], ◌≡◌, refl, inl, inr}
use sqlx_v.Errors.{Error, no_rows, root, Result, ok, fail, panics, Result-cases}
use sqlx_v.Value.{GoType, pointer_to, kind, is_pointer}
use sqlx_v.Reflectx.Mapper.{Mapper}
use sqlx_v.Reflectx.Address.{Memory}
use sqlx_v.Reflectx.Tags.{Setting}
use sqlx_v.Engine.Dest.{Slot}
use sqlx_v.Engine.Scan.{SqlRows, closing, Caches, Scan, Scanned, iterate_body, iterate_scan}
use sqlx_v.Engine.Scan.Select.{Item, new_object}
use sqlx_v.Engine.Scan.Get.{same_object, find_one, found_one, get_into, get_scan}
use sqlx_v.Handles.{Queryer, get_context}
use sqlx_v.Generics.{is_asserted, elem_type, has_no_type, deferred_close}
use sqlx_v.Generics.Get.{item_at, Got, get_rows, get_with, get_g}
use sqlx_v.Generics.Get.Row.{SameGet, SameFirst, get_columns-SameFirst}

closes-SameGet :
    (close_err : Option Error) (item : Memory → Item) (p : Memory × Result Item)
    (q : Scan Bool × Result (Unit {0}))
    → SameFirst close_err item p q
    → SameGet item
        (p.0, deferred_close close_err p.1)
        (q.0.memory, found_one q.0.out (closing close_err q.1))
closes-SameGet none item (m, ok i) (w, r) (e, found, same, read) = rw (e, found) (refl, same, read)
closes-SameGet (some x) item (m, ok i) (w, r) (e, found, same, read) = rw e (x, refl, refl)
closes-SameGet none item (m, fail e) (w, r) (inl (x, h, same)) = rw h (x, refl, same)
closes-SameGet (some c) item (m, fail e) (w, r) (inl (x, h, same)) = rw h (x, refl, same)
closes-SameGet none item (m, fail e) (w, r) (inr (none_left, h, missing, quiet)) =
    rw (h, missing, none_left) (no_rows, refl, refl)
closes-SameGet (some c) item (m, fail e) (w, r) (inr (none_left, h, missing, quiet)) = absurd (cc)
closes-SameGet none item (m, panics) (w, r) h = rw h refl
closes-SameGet (some c) item (m, panics) (w, r) h = rw h refl

-- What the two calls return and leave.
pub record SameGot {R : Type 0} (item : Memory → Item) (s : Got R) (r : Scanned R Bool)
    : Type 0 where
  pub same_item : SameGet item (s.memory, s.item) (r.scan.memory, r.result)
  pub same_rows : s.rows ≡ r.rows
  pub same_caches : s.caches ≡ r.caches

-- The two calls end alike: both fail at the query, with the same error at the root, or both go on.
abbrev pub SameGetCall :
    {R : Type 0} → (Memory → Item) → Result (Got R) → Result (Scanned R Bool) → Type 0
SameGetCall item (ok s) r = (s' : Scanned _ Bool) × (r ≡ ok s') × SameGot item s s'
SameGetCall item (fail e) r = (x : Error) × (r ≡ fail x) × (root e ≡ root x)
SameGetCall item panics r = r ≡ panics

module _ {R : Type 0} (env : Setting) (size : GoType → ℕ)
    (sql_scan : R → List Slot → Memory → Memory × Result (Unit {0})) (t : GoType) (memory : Memory)
    (typed : has_no_type t ≡ false) (asserted : is_asserted t ≡ true) where
  get_rows-SameFirst :
      (rows : SqlRows R) (is_unsafe strict : Bool) (caches : Caches)
      → (rows.pending ≡ [] → rows.close_err ≡ none)
      → let p = get_rows env size sql_scan rows t is_unsafe strict caches memory in
        let s =
          iterate_body env size sql_scan
            (same_object memory.next)
            find_one
            rows
            (elem_type t)
            is_unsafe
            strict
            caches
            (record {
              memory = (new_object (size (elem_type t)) memory).1;
              scan_dest = [];
              out = false;
            }) in
        SameFirst rows.close_err
          (item_at (is_pointer (kind t)) (size (elem_type t)) memory.next)
          p.0
          s.0
        × (p.1 ≡ s.1)
  unfolding get_rows iterate_body
  get_rows-SameFirst rows is_unsafe strict caches quiet =
      simp typed (elim (Result-cases rows.columns) [
        | inl (columns, e) ↦
            rw (e, iterate_body, asserted)
              (get_columns-SameFirst env size sql_scan (is_pointer (kind t)) (elem_type t) memory
                rows quiet is_unsafe strict columns caches)
        | inr (inl (x, e)) ↦ rw (e, iterate_body) (inl (_, refl, refl), refl)
        | inr (inr e) ↦ rw (e, iterate_body) (refl, refl)
      ])

  get_with-get_into :
      (rows : SqlRows R) (is_unsafe strict : Bool) (caches : Caches)
      → (rows.pending ≡ [] → rows.close_err ≡ none)
      → SameGot
          (item_at (is_pointer (kind t)) (size (elem_type t)) memory.next)
          (get_with env size sql_scan rows t is_unsafe strict caches memory)
          (get_into env size sql_scan rows
            (elem_type t)
            memory.next
            is_unsafe
            strict
            caches
            (new_object (size (elem_type t)) memory).1)
  unfolding get_with get_into iterate_scan
  get_with-get_into rows is_unsafe strict caches quiet =
      let (same, cached) = get_rows-SameFirst rows is_unsafe strict caches quiet in
      record {
        same_item = closes-SameGet rows.close_err _ _ _ same;
        same_rows = refl;
        same_caches = cached;
      }

-- `GetG` is `Get` into a new object: from the same handle and rows, with no error of `Close` if there
-- is no row, it returns what `Get` leaves in the object, or the pointer to it, an error with the same
-- error at its root, or panics, closes the rows and leaves the same caches. The type is
-- no interface, and no defined type of pointers, whose assertion panics.
pub get_g-get_context :
    {R : Type 0} (default_mapper : Mapper) (env : Setting) (size : GoType → ℕ)
    (sql_scan : R → List Slot → Memory → Memory × Result (Unit {0})) (q : Queryer)
    (queried : Result (SqlRows R)) (t : GoType) (caches : Caches) (memory : Memory)
    → has_no_type t ≡ false
    → is_asserted t ≡ true
    → ((rows : SqlRows R) → queried ≡ ok rows → rows.pending ≡ [] → rows.close_err ≡ none)
    → SameGetCall
        (item_at (is_pointer (kind t)) (size (elem_type t)) memory.next)
        (get_g default_mapper env size sql_scan q queried t caches memory)
        (get_context default_mapper env size sql_scan q queried
          (record { type = some (pointer_to (elem_type t)); target = memory.next })
          caches
          (new_object (size (elem_type t)) memory).1)
unfolding get_g get_context get_scan
get_g-get_context default_mapper env size sql_scan q (ok rows) t caches memory typed asserted
      quiet =
    (
      _,
      refl,
      get_with-get_into _ size sql_scan t memory typed asserted rows _ _ caches (quiet rows refl),
    )
get_g-get_context default_mapper env size sql_scan q (fail e) t caches memory typed asserted quiet =
    (_, refl, refl)
get_g-get_context default_mapper env size sql_scan q panics t caches memory typed asserted quiet =
    refl
