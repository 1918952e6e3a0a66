-- ===== src/Engine/Scan/Apart.antt =====
-- The objects that `selectScan` makes for a slice of pointers.
use sqlx_v.Prelude.{
  ℕ, ◌+◌, ◌≤◌, Bool, true, Option, some, List, [], ◌∷◌, ◌++◌, ◌≡◌, sym, subst, inl, inr, arith,
  String,
}
use sqlx_v.Errors.{Error, Result, ok, fail, panics, Result-cases}
use sqlx_v.Value.{GoType, kind, elem, is_pointer}
use sqlx_v.Reflectx.Address.{Memory}
use sqlx_v.Reflectx.Tags.{Setting}
use sqlx_v.Engine.Meta.{FieldMeta}
use sqlx_v.Engine.Dest.{Slot, into, populate_scan_dest}
use sqlx_v.Engine.Dest.Grows.{populate_scan_dest-next}
use sqlx_v.Engine.Scan.{
  SqlRows, Caches, Scan, rows_loop, after_scan, scan_scannable, scan_struct, iterate_scan,
}
use sqlx_v.Engine.Scan.Plan.{
  Plan, returns_early, over_scannable, over_struct, run_plan, iterate_body-plan,
}
use sqlx_v.Engine.Scan.Select.{
  Dest, Item, pointer_item, copied_item, slice_dest, new_object, append_item, select_into,
  select_scan,
}

-- Pointers to objects of the size `n`, one behind the other from `lo` on, all of them below `hi`.
abbrev pub Placed : ℕ → ℕ → ℕ → List Item → Type 0
Placed n lo hi [] = lo ≤ hi
Placed n lo hi (pointer_item p ∷ items) = (lo ≤ p) × Placed n (p + n) hi items
Placed n lo hi (copied_item cells ∷ items) = ⊥

Placed-later :
    (n lo hi hi' : ℕ) (items : List Item) → hi ≤ hi' → Placed n lo hi items → Placed n lo hi' items
Placed-later n lo hi hi' [] up h = omega arith
Placed-later n lo hi hi' (pointer_item p ∷ items) up (h, hs) =
    (h, Placed-later n (p + n) hi hi' items up hs)
Placed-later n lo hi hi' (copied_item cells ∷ items) up h = elim h [ ]

Placed-appended :
    (n lo p hi : ℕ) (items : List Item)
    → p + n ≤ hi
    → Placed n lo p items
    → Placed n lo hi (items ++ pointer_item p ∷ [])
Placed-appended n lo p hi [] room h = (h, room)
Placed-appended n lo p hi (pointer_item q ∷ items) room (h, hs) =
    (h, Placed-appended n (q + n) p hi items room hs)
Placed-appended n lo p hi (copied_item cells ∷ items) room h = elim h [ ]

module _ {R : Type 0} (env : Setting) (size : GoType → ℕ)
    (sql_scan : R → List Slot → Memory → Memory × Result (Unit {0}))
    (grows : (row : R) (dest : List Slot) (m : Memory) → m.next ≤ (sql_scan row dest m).0.next)
    (n lo : ℕ) where
  abbrev ScanPlaced : Scan (List Item) → Type 0
  ScanPlaced w = Placed n lo w.memory.next w.out

  -- The body of a loop.
  abbrev KeepsPlaced : (R → Scan (List Item) → Scan (List Item) × Result (Unit {0})) → Type 0
  KeepsPlaced body = (row : R) (w : Scan (List Item)) → ScanPlaced w → ScanPlaced (body row w).0

  after_scan-Placed :
      (format : String) (w : Scan (List Item)) (m : Memory) (r : Result (Unit {0}))
      → w.memory.next + n ≤ m.next
      → ScanPlaced w
      → ScanPlaced
          (after_scan env size sql_scan
            (new_object n)
            (append_item true n)
            format
            w.memory.next
            w
            m
            r).0
  unfolding after_scan
  after_scan-Placed format w m (ok u) room h =
      Placed-appended n lo w.memory.next m.next w.out room h
  after_scan-Placed format w m (fail e) room h =
      Placed-later n lo w.memory.next m.next w.out (omega arith) h
  after_scan-Placed format w m panics room h =
      Placed-later n lo w.memory.next m.next w.out (omega arith) h

  scan_scannable-Placed :
      (t : GoType)
      → KeepsPlaced (scan_scannable env size sql_scan (new_object n) (append_item true n) t)
  unfolding scan_scannable
  scan_scannable-Placed t row w h =
      after_scan-Placed _ w _ _
        (grows row (into (some t) w.memory.next ∷ []) (new_object n w.memory).1) h

  scan_struct-Placed :
      (meta : List FieldMeta)
      → KeepsPlaced (scan_struct env size sql_scan (new_object n) (append_item true n) meta)
  unfolding scan_struct
  scan_struct-Placed meta row w h =
      let m = (new_object n w.memory).1 in
      let (dest, m') = populate_scan_dest size w.memory.next meta w.scan_dest m in
      after_scan-Placed _ (record w { scan_dest = dest }) _ _
        (omega
          (arith, populate_scan_dest-next size w.memory.next meta w.scan_dest m, grows row dest m'))
        h

  rows_loop-Placed :
      (body : R → Scan (List Item) → Scan (List Item) × Result (Unit {0})) (err : Option Error)
      (rows : List R) (w : Scan (List Item))
      → KeepsPlaced body
      → ScanPlaced w
      → ScanPlaced (rows_loop body err rows w).0
  unfolding rows_loop
  rows_loop-Placed body err [] w keeps h = h
  rows_loop-Placed body err (row ∷ rows) w keeps h = elim (Result-cases (body row w).1) [
    | inl (u, e) ↦
        rw (e, rows_loop) (rows_loop-Placed body err rows (body row w).0 keeps (keeps row w h))
    | inr (inl (x, e)) ↦ rw (e, rows_loop) (keeps row w h)
    | inr (inr e) ↦ rw (e, rows_loop) (keeps row w h)
  ]

  run_plan-Placed :
      (rows : SqlRows R) (plan : Plan) (w : Scan (List Item))
      → ScanPlaced w
      → ScanPlaced (run_plan env size sql_scan (new_object n) (append_item true n) rows plan w).0
  unfolding run_plan
  run_plan-Placed rows (returns_early r) w h = h
  run_plan-Placed rows (over_scannable t) w h =
      rows_loop-Placed (scan_scannable env size sql_scan (new_object n) (append_item true n) t)
        rows.err rows.pending w (scan_scannable-Placed t) h
  run_plan-Placed rows (over_struct meta k) w h =
      rows_loop-Placed (scan_struct env size sql_scan (new_object n) (append_item true n) meta)
        rows.err rows.pending (record w { scan_dest = _ }) (scan_struct-Placed meta) h

-- The elements of a selected slice of pointers do not overlap: on every path, errors and panics included,
-- each element that `Select` has appended to an empty slice points to an object of its own, which lies in
-- memory that was free before, behind the object of the element before it, and is not free any more.
-- `rows.Scan` takes no memory back.
pub select_scan-Placed :
    {R : Type 0} (env : Setting) (size : GoType → ℕ)
    (sql_scan : R → List Slot → Memory → Memory × Result (Unit {0})) (rows : SqlRows R)
    (dest : Dest) (t : GoType) (is_unsafe strict : Bool) (caches : Caches) (memory : Memory)
    → ((row : R) (dest : List Slot) (m : Memory) → m.next ≤ (sql_scan row dest m).0.next)
    → slice_dest dest ≡ some t
    → is_pointer (kind t) ≡ true
    → let s = select_scan env size sql_scan rows dest is_unsafe strict caches memory [] in
      Placed (size (elem t)) memory.next s.scan.memory.next s.scan.out
unfolding select_scan select_into iterate_scan
select_scan-Placed env size sql_scan rows dest t is_unsafe strict caches memory grows good is_ptr =
    let w : Scan (List Item) = record { memory = memory; scan_dest = []; out = [] } in
    let n = size (elem t) in
    rw (good, select_scan, is_ptr)
      (subst (λ p. Placed n memory.next p.0.0.memory.next p.0.0.out)
        (sym (
          iterate_body-plan env size sql_scan (new_object n) (append_item true n) rows (elem t)
            is_unsafe strict caches w))
        (run_plan-Placed env size sql_scan grows n memory.next rows _ w (omega arith)))
