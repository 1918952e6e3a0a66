-- ===== src/Engine/Dest.antt =====
-- `populateScanDest` and `isScannable` of engine.go.
pub mod Stores
pub mod Grows
pub mod Columns
use sqlx_v.Prelude.{
  ℕ, zero, suc, ◌+◌, Bool, true, false, ◌||◌, Option, none, some, List, [], ◌∷◌, ◌≡◌, refl, arith,
  ◌==◌, if◌then◌else◌, set,
}
use sqlx_v.Value.{
  BasicKind, interface, other_kind, uint8, GoType, basic, slice_of, defined, Kind, basic_kind,
  slice, kind, elem, is_pointer,
}
use sqlx_v.Reflectx.Mapper.{Step}
use sqlx_v.Reflectx.Address.{Memory, addr_by_traversal}
use sqlx_v.Engine.Meta.{FieldMeta}

-- An element of `scanDest`: nil, `new(any)`, or a pointer to a field of the type.
pub data Slot : Type 0 where
  empty discard : Slot
  into : Option GoType → ℕ → Slot

-- The sizes of Go types are the compiler's.
module _ (size : GoType → ℕ) where
  -- The body of the loop: what is stored at `scanDest[m.colIndex]`, and the memory. A nil
  -- `traversal` is the empty list.
  unfoldable pub slot_of : ℕ → FieldMeta → Memory → Slot × Memory
  slot_of base fm m = elim fm.traversal [
    | [] ↦ (discard, m)
    | s ∷ steps ↦
        let walked = addr_by_traversal size base (s ∷ steps) m in
        if fm.is_ptr_path
        then (into fm.field_type walked.0, walked.1)
        else (into fm.field_type (base + fm.offset), m)
  ]

  -- `populateScanDest`. Each `colIndex` is an index of `scanDest`, so no write is out of range.
  unfoldable pub populate_scan_dest : ℕ → List FieldMeta → List Slot → Memory → List Slot × Memory
  unfolding slot_of
  populate_scan_dest base [] dest m = (dest, m)
  populate_scan_dest base (fm ∷ meta) dest m =
      let (slot, m') = slot_of base fm m in
      populate_scan_dest base meta (set dest fm.col_index slot) m'

-- The kinds in the first case of the `switch`.
abbrev is_plain_kind : BasicKind → Bool
is_plain_kind interface = false
is_plain_kind other_kind = false
is_plain_kind _ = true

-- `Type.Elem` of a slice type has the kind `Uint8`.
abbrev is_byte_slice : GoType → Bool
is_byte_slice (slice_of t) = elim (kind t) [ basic_kind uint8 ↦ true | _ ↦ false ]
is_byte_slice (defined n t) = is_byte_slice t
is_byte_slice _ = false

abbrev is_basic : Kind → Bool
is_basic (basic_kind k) = is_plain_kind k
is_basic _ = false

-- `scanner` holds of the types that implement `sql.Scanner` or whose pointer does: user code.
unfoldable pub is_scannable : (GoType → Bool) → GoType → Bool
is_scannable scanner t =
    let t' = if is_pointer (kind t) then elem t else t in
    is_basic (kind t') || is_byte_slice t' || scanner t'
