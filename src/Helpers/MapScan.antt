-- ===== src/Helpers/MapScan.antt =====
-- `MapScan` and `SliceScan` of helpers.go.
use sqlx_v.Prelude.{
  ℕ, ◌+◌, ◌*◌, Option, none, some, List, [], ◌∷◌, ◌≡◌, refl, sym, subst, ◌∙◌, inl, inr, arith,
  if◌then◌else◌, Bytes, bytes_eq, length, Option-cases,
}
use sqlx_v.Errors.{Result, ok, fail, panics, ◌>>=◌}
use sqlx_v.SyncMap.{load, store, load-store, bytes_key}
use sqlx_v.Value.{GoType, interface, basic}
use sqlx_v.Reflectx.Address.{Memory}
use sqlx_v.Engine.Dest.{Slot, into}
use sqlx_v.Engine.Scan.Select.{cells_from, new_object}
use sqlx_v.Helpers.StructScan.{ColScanner}

abbrev pub any_type : GoType
any_type = basic interface

-- An `any`: the cells that it takes.
abbrev pub Any : Type 0
Any = List ℕ

-- `dest[col] = values[i]` for each column of a map that is not nil.
unfoldable pub store_values : List Bytes → List Any → List (Bytes × Any) → List (Bytes × Any)
store_values (col ∷ cols) (v ∷ values) dest = store_values cols values (store col v dest)
store_values [] values dest = dest
store_values (col ∷ cols) [] dest = dest

-- `w` is the size of an `any`.
module _ (w : ℕ) where
  -- `valPtrs`: the addresses of the elements of `values`, which starts at `p`.
  abbrev pub value_pointers : ℕ → List Bytes → List Slot
  value_pointers p [] = []
  value_pointers p (col ∷ cols) = into (some any_type) p ∷ value_pointers (p + w) cols

  -- `values`, behind the scan.
  abbrev pub read_values : Memory → ℕ → List Bytes → List Any
  read_values m p [] = []
  read_values m p (col ∷ cols) = cells_from m p w ∷ read_values m (p + w) cols

  module _ {S : Type 0} (r : ColScanner S) where
    -- The scan into new values, for both functions.
    unfoldable pub scan_values : S → List Bytes → Memory → S × (Memory × Result (List Any))
    scan_values s columns m =
        let (p, m1) = new_object (length columns * w) m in
        let (s', after) = r.scan (value_pointers p columns) s m1 in
        (s', (after.0, after.1 >>= λ _. ok (read_values after.0 p columns)))

    -- `SliceScan`, behind `r.Columns()`.
    unfoldable pub slice_scan_columns :
        S → Memory → Result (List Bytes) → S × (Memory × Result (List Any))
    unfolding scan_values
    slice_scan_columns s m (ok columns) = scan_values s columns m
    slice_scan_columns s m (fail e) = (s, (m, fail e))
    slice_scan_columns s m panics = (s, (m, panics))

    unfoldable pub slice_scan : S → Memory → S × (Memory × Result (List Any))
    unfolding slice_scan_columns
    slice_scan s m = slice_scan_columns s m (r.columns s)

    -- The last loop of `MapScan`, if the scan had no error: the map, which may be nil, and the error. An
    -- assignment to a nil map panics.
    unfoldable pub store_scanned :
        List Bytes
        → Option (List (Bytes × Any))
        → Result (List Any)
        → Option (List (Bytes × Any)) × Result (Unit {0})
    unfolding store_values
    store_scanned columns (some dest) (ok values) = (some (store_values columns values dest), ok tt)
    store_scanned [] none (ok values) = (none, ok tt)
    store_scanned (col ∷ cols) none (ok values) = (none, panics)
    store_scanned columns dest (fail e) = (dest, fail e)
    store_scanned columns dest panics = (dest, panics)

    -- `MapScan`, behind `r.Columns()`.
    unfoldable pub map_scan_columns :
        S
        → Option (List (Bytes × Any))
        → Memory
        → Result (List Bytes)
        → S × (Memory × (Option (List (Bytes × Any)) × Result (Unit {0})))
    unfolding scan_values store_scanned
    map_scan_columns s dest m (ok columns) =
        let (s', after) = scan_values s columns m in
        (s', (after.0, store_scanned columns dest after.1))
    map_scan_columns s dest m (fail e) = (s, (m, (dest, fail e)))
    map_scan_columns s dest m panics = (s, (m, (dest, panics)))

    unfoldable pub map_scan :
        S
        → Option (List (Bytes × Any))
        → Memory
        → S × (Memory × (Option (List (Bytes × Any)) × Result (Unit {0})))
    unfolding map_scan_columns
    map_scan s dest m = map_scan_columns s dest m (r.columns s)

-- The value of the last column of the name.
abbrev pub last_value : Bytes → List Bytes → List Any → Option Any
last_value k (col ∷ cols) (v ∷ values) = elim (last_value k cols values) [
  | some later ↦ some later
  | none ↦ if bytes_eq col k then some v else none
]
last_value k [] values = none
last_value k (col ∷ cols) [] = none

abbrev pub or_else : Option Any → Option Any → Option Any
or_else (some v) o = some v
or_else none o = o

load-store_values :
    (k : Bytes) (cols : List Bytes) (values : List Any) (dest : List (Bytes × Any))
    → load k (store_values cols values dest) ≡ or_else (last_value k cols values) (load k dest)
unfolding store_values
load-store_values k [] values dest = refl
load-store_values k (c ∷ cols) [] dest = refl
load-store_values k (c ∷ cols) (v ∷ values) dest =
    load-store_values k cols values (store c v dest)
    ∙ (elim (Option-cases (last_value k cols values)) [
      | inl unnamed ↦ rw (unnamed, load-store k c v dest) (ground arith)
      | inr (later, named) ↦ rw named refl
    ])

-- Each name of a column has the value of the last column of that name, and each other one what it had; or
-- the scan failed, and the map is as it was. A nil map with a column to store panics.
abbrev pub SameValues :
    List Bytes
    → Option (List (Bytes × Any))
    → Result (List Any)
    → Option (List (Bytes × Any)) × Result (Unit {0})
    → Type 0
SameValues columns (some dest) (ok values) (dest', r) =
    (r ≡ ok tt)
    × ((after : List (Bytes × Any)) × (dest' ≡ some after)
        × ((k : Bytes) → load k after ≡ or_else (last_value k columns values) (load k dest)))
SameValues [] none (ok values) (dest', r) = (r ≡ ok tt) × (dest' ≡ none)
SameValues (col ∷ cols) none (ok values) (dest', r) = (r ≡ panics) × (dest' ≡ none)
SameValues columns dest (fail e) (dest', r) = (r ≡ fail e) × (dest' ≡ dest)
SameValues columns dest panics (dest', r) = (r ≡ panics) × (dest' ≡ dest)

module _ (w : ℕ) {S : Type 0} (r : ColScanner S) where
  store_scanned-SameValues :
      (columns : List Bytes) (dest : Option (List (Bytes × Any))) (values : Result (List Any))
      → SameValues columns dest values (store_scanned w r columns dest values)
  unfolding store_scanned
  store_scanned-SameValues columns (some dest) (ok values) =
      (refl, (_, refl, λ k. load-store_values k columns values dest))
  store_scanned-SameValues [] none (ok values) = (refl, refl)
  store_scanned-SameValues (col ∷ cols) none (ok values) = (refl, refl)
  store_scanned-SameValues columns dest (fail e) = (refl, refl)
  store_scanned-SameValues columns dest panics = (refl, refl)

  -- `MapScan` is `SliceScan` by name: on the same row both leave the same state and memory, and either
  -- fail alike, with the map as it was, or the map has, for each column's name, the value that
  -- `SliceScan` returns at the last column of that name, and nothing else is changed in it. If the map
  -- is nil and there is a column, `MapScan` panics.
  pub map_scan-slice_scan :
      (s : S) (dest : Option (List (Bytes × Any))) (m : Memory) {columns : List Bytes}
      → r.columns s ≡ ok columns
      → let p = slice_scan w r s m in
        let q = map_scan w r s dest m in
        (p.0 ≡ q.0) × (p.1.0 ≡ q.1.0) × SameValues columns dest p.1.1 q.1.1
  unfolding slice_scan map_scan slice_scan_columns map_scan_columns
  map_scan-slice_scan s dest m {columns} read =
      subst
        (λ c.
          let p = slice_scan_columns w r s m c in
          let q = map_scan_columns w r s dest m c in
          (p.0 ≡ q.0) × (p.1.0 ≡ q.1.0) × SameValues columns dest p.1.1 q.1.1)
        (sym read) (refl, refl, store_scanned-SameValues columns dest _)
