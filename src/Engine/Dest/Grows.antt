-- ===== src/Engine/Dest/Grows.antt =====
-- `populateScanDest` and `AddrByTraversal` take no memory back.
use sqlx_v.Prelude.{
  ℕ, ◌≤◌, List, [], ◌∷◌, inl, inr, arith, Bool-cases, Option-cases, ◌==◌, ◌+◌, set,
}
use sqlx_v.Value.{GoType}
use sqlx_v.Reflectx.Mapper.{Step}
use sqlx_v.Reflectx.Address.{Memory, step_address, addr_by_traversal}
use sqlx_v.Engine.Meta.{FieldMeta}
use sqlx_v.Engine.Dest.{Slot, slot_of, populate_scan_dest}

module _ (size : GoType → ℕ) where
  step_address-next : (p : ℕ) (s : Step) (m : Memory) → m.next ≤ (step_address size p s m).1.next
  unfolding step_address
  step_address-next p s m = elim (Option-cases s.type) [
    | inl flat ↦ rw (flat, step_address) (omega arith)
    | inr (t, loads) ↦ elim (Bool-cases (m.cell (p + s.offset) == 0)) [
      | inl missing ↦ rw (loads, step_address, missing) (omega arith)
      | inr there ↦ rw (loads, step_address, there) (omega arith)
    ]
  ]

  addr_by_traversal-next :
      (p : ℕ) (steps : List Step) (m : Memory) → m.next ≤ (addr_by_traversal size p steps m).1.next
  unfolding addr_by_traversal
  addr_by_traversal-next p [] m = omega arith
  addr_by_traversal-next p (s ∷ steps) m =
      let (p', m') = step_address size p s m in
      omega (arith, step_address-next p s m, addr_by_traversal-next p' steps m')

  slot_of-next : (base : ℕ) (fm : FieldMeta) (m : Memory) → m.next ≤ (slot_of size base fm m).1.next
  unfolding slot_of
  slot_of-next base fm m = ground (arith, addr_by_traversal-next base fm.traversal m)

  pub populate_scan_dest-next :
      (base : ℕ) (meta : List FieldMeta) (dest : List Slot) (m : Memory)
      → m.next ≤ (populate_scan_dest size base meta dest m).1.next
  unfolding populate_scan_dest
  populate_scan_dest-next base [] dest m = omega arith
  populate_scan_dest-next base (fm ∷ meta) dest m =
      let (slot, m') = slot_of size base fm m in
      omega (
        arith,
        slot_of-next base fm m,
        populate_scan_dest-next base meta (set dest fm.col_index slot) m',
      )
