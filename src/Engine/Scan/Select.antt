-- ===== src/Engine/Scan/Select.antt =====
-- `selectScan`.
use sqlx_v.Prelude.{
  ℕ, zero, suc, ◌+◌, Bool, not, ◌&&◌, Option, none, some, List, [], ◌∷◌, ◌++◌, ◌==◌, if◌then◌else◌,
}
use sqlx_v.Errors.{Error, plain, Result, ok, fail}
use sqlx_v.Value.{GoType, kind, elem, slice_elem, is_pointer, is_slice}
use sqlx_v.Reflectx.Address.{Memory}
use sqlx_v.Reflectx.Tags.{Setting}
use sqlx_v.Engine.Dest.{Slot}
use sqlx_v.Engine.Scan.{SqlRows, close_rows, Caches, Scanned, iterate_scan}

-- The argument `dest`: its type, none for nil, and the address that it holds if it is a pointer.
pub record Dest : Type 0 where
  pub type : Option GoType
  pub target : ℕ

-- An element of the slice: a pointer to the object, or a copy of its cells.
pub data Item : Type 0 where
  pointer_item : ℕ → Item
  copied_item : List ℕ → Item

abbrev pub cells_from : Memory → ℕ → ℕ → List ℕ
cells_from m p zero = []
cells_from m p (suc n) = m.cell p ∷ cells_from m (p + 1) n

-- `reflect.New(t)`.
abbrev pub new_object : ℕ → Memory → ℕ × Memory
new_object n m = (m.next, record m { next = m.next + n })

-- The closure that appends the object, or a copy of it, to the slice.
abbrev pub append_item : Bool → ℕ → ℕ → Memory → List Item → List Item × Result (Unit {0})
append_item is_ptr n vp m items =
    (items ++ (if is_ptr then pointer_item vp else copied_item (cells_from m vp n)) ∷ [], ok tt)

-- The type of the elements, if `dest` is a pointer to a slice; a nil pointer has no `Elem`.
unfoldable pub slice_dest : Dest → Option GoType
slice_dest dest = elim dest.type [
  | none ↦ none
  | some t ↦
      if is_pointer (kind t) && not (dest.target == 0) && is_slice (kind (elem t))
      then some (slice_elem (elem t))
      else none
]

-- `dest` is refused: the rows are closed, and the text names an error of `Close`.
abbrev pub refused_dest : Option Error → Result (Unit {0})
refused_dest none = fail (plain "sqlx: dest must be a pointer to a slice, got %T" [])
refused_dest (some e) =
    fail (plain "sqlx: dest must be a pointer to a slice, got %T; close error: %v" [])

module _ {R : Type 0} (env : Setting) (size : GoType → ℕ)
    (sql_scan : R → List Slot → Memory → Memory × Result (Unit {0})) where
  -- Behind the test on `dest`, with the type of the slice's elements.
  unfoldable pub select_into :
      SqlRows R → GoType → Bool → Bool → Caches → Memory → List Item → Scanned R (List Item)
  select_into rows t is_unsafe strict caches memory items =
      let is_ptr = is_pointer (kind t) in
      let t' = if is_ptr then elem t else t in
      iterate_scan env size sql_scan (new_object (size t')) (append_item is_ptr (size t')) rows t'
        is_unsafe strict caches memory items

  -- `selectScan`; the elements of the slice that `dest` points to are `items`.
  unfoldable pub select_scan :
      SqlRows R → Dest → Bool → Bool → Caches → Memory → List Item → Scanned R (List Item)
  unfolding select_into
  select_scan rows dest is_unsafe strict caches memory items =
      let refused : Scanned R (List Item) = record {
        scan = record { memory = memory; scan_dest = []; out = items };
        result = refused_dest rows.close_err;
        rows = close_rows rows;
        caches = caches;
      } in
      elim (slice_dest dest) [
        | none ↦ refused
        | some t ↦ select_into rows t is_unsafe strict caches memory items
      ]
