-- ===== src/Helpers/StructScan/Columns.antt =====
-- The loop of `StructScan`, and `buildMeta` with `populateScanDest`.
use sqlx_v.Prelude.{
  ℕ, zero, suc, ◌+◌, ◌<◌, Bool, false, some, List, [], ◌∷◌, ◌≡◌, refl, sym, ◌∙◌, subst, inl, inr,
  arith, Bool-cases, Option-cases, Bytes, get_elem?, length, All,
}
use sqlx_v.Errors.{ok, fail, panics, >>=-elim, Result-cases}
use sqlx_v.SyncMap.{load, bytes_key}
use sqlx_v.Value.{GoType}
use sqlx_v.Reflectx.Mapper.{StructMap}
use sqlx_v.Reflectx.Address.{Memory, sum_offsets}
use sqlx_v.Reflectx.Flatten.Coherent.{load-All, InfoIsCoherent, IsCoherent, MapIsCoherent}
use sqlx_v.Engine.Meta.{
  FieldMeta, sort_by_offset, meta_of, discard_meta, column_meta, columns_meta, compute_meta,
}
use sqlx_v.Engine.Dest.{Slot, populate_scan_dest}
use sqlx_v.Engine.Dest.Columns.{slot_at, IsDirect, populate_scan_dest-column}
use sqlx_v.Helpers.StructScan.{column_dest, columns_dest}

module _ (size : GoType → ℕ) (base : ℕ) (name : Bytes) (tm : StructMap) (is_unsafe : Bool) where
  column_dest-slot_at :
      (col : Bytes) (m : Memory) {slot : Slot}
      → All (λ kv. InfoIsCoherent kv.1) tm.names
      → IsDirect (load col tm.names)
      → (column_dest size base tm is_unsafe col m).1 ≡ ok slot
      → slot ≡ slot_at base (load col tm.names)
  unfolding column_dest
  column_dest-slot_at col m {slot} coherent direct h = elim (Option-cases (load col tm.names)) [
    | inl gone ↦ rw gone (ground arith)
    | inr (fi, found) ↦
        let (steps, walks, _) = load-All InfoIsCoherent col tm.names coherent found in
        let flat : fi.is_ptr_path ≡ false = subst IsDirect found direct in
        let sum : sum_offsets fi.traversal ≡ fi.offset =
          (subst (IsCoherent fi.traversal fi.offset) flat steps).1 in
        rw found (ground (arith, sum, flat, found))
  ]

  -- Both loops refuse the same columns.
  column_dest-column_meta :
      (i : ℕ) (col : Bytes) (m : Memory) {slot : Slot}
      → (column_dest size base tm is_unsafe col m).1 ≡ ok slot
      → (fm : FieldMeta) × (column_meta name tm is_unsafe i col ≡ ok fm)
  unfolding column_dest column_meta
  column_dest-column_meta i col m h = elim (Option-cases (load col tm.names)) [
    | inl gone ↦ elim (Bool-cases is_unsafe) [
      | inl lax ↦ (discard_meta i, rw (gone, column_meta, lax) refl)
      | inr strict ↦ absurd (ground arith)
    ]
    | inr (fi, found) ↦ (meta_of fi i, rw (found, column_meta) refl)
  ]

  columns_dest-cons :
      {C : Type 0} (col : Bytes) (cols : List Bytes) (m : Memory) {slots : List Slot}
      → (columns_dest size base tm is_unsafe (col ∷ cols) m).1 ≡ ok slots
      → ((slot : Slot) (ss : List Slot)
          → (column_dest size base tm is_unsafe col m).1 ≡ ok slot
          → (columns_dest size base tm is_unsafe cols
              (column_dest size base tm is_unsafe col m).0).1
            ≡ ok ss
          → slots ≡ slot ∷ ss
          → C)
      → C
  unfolding columns_dest
  columns_dest-cons col cols m {slots} h k =
      elim (Result-cases (column_dest size base tm is_unsafe col m).1) [
        | inl (slot, e) ↦
            let m' = (column_dest size base tm is_unsafe col m).0 in
            >>=-elim (columns_dest size base tm is_unsafe cols m').1 (λ ss. ok (slot ∷ ss))
              (rw (e, columns_dest) at h) λ ss rest same. k slot ss e rest (ground arith)
        | inr (inl (x, e)) ↦
            let no_error : fail x ≡ ok slots = rw (e, columns_dest) at h in absurd (cc)
        | inr (inr e) ↦ let no_panic : panics ≡ ok slots = rw (e, columns_dest) at h in absurd (cc)
      ]

  columns_dest-columns_meta :
      (i : ℕ) (cols : List Bytes) (m : Memory) {slots : List Slot}
      → (columns_dest size base tm is_unsafe cols m).1 ≡ ok slots
      → (ms : List FieldMeta) × (columns_meta name tm is_unsafe i cols ≡ ok ms)
  unfolding columns_meta
  columns_dest-columns_meta i [] m h = ([], refl)
  columns_dest-columns_meta i (col ∷ cols) m h =
      columns_dest-cons col cols m h λ slot ss first rest same.
        let (fm, head) = column_dest-column_meta i col m first in
        let (ms, tail) = columns_dest-columns_meta (i + 1) cols _ rest in
        (fm ∷ ms, rw (head, tail) refl)

  columns_dest-slot_at :
      (cols : List Bytes) (k : ℕ) (col : Bytes) (m : Memory) {slots : List Slot}
      → All (λ kv. InfoIsCoherent kv.1) tm.names
      → IsDirect (load col tm.names)
      → get_elem? cols k ≡ some col
      → (columns_dest size base tm is_unsafe cols m).1 ≡ ok slots
      → get_elem? slots k ≡ some (slot_at base (load col tm.names))
  columns_dest-slot_at [] k col m coherent direct found h = absurd (cc)
  columns_dest-slot_at (c ∷ cols) zero col m coherent direct found h =
      columns_dest-cons c cols m h λ slot ss first rest same.
        let here : c ≡ col = ground arith in
        let e =
          column_dest-slot_at col m coherent direct
            (subst (λ c. (column_dest size base tm is_unsafe c m).1 ≡ ok slot) here first) in
        rw (same, e) refl
  columns_dest-slot_at (c ∷ cols) (suc k) col m coherent direct found h =
      columns_dest-cons c cols m h λ slot ss first rest same.
        rw same (columns_dest-slot_at cols k col _ coherent direct found rest)

  -- `StructScan` computes the destinations anew for each row, with neither cache nor sort, and they are
  -- those of `buildMeta` and `populateScanDest`: if its loop succeeds, `buildMeta` computes metadata, and
  -- with a coherent struct map, whatever `scanDest` and memory `populateScanDest` starts from, the two
  -- store the same for each column whose field is reached through no pointer, or that is no field.
  pub columns_dest-populate_scan_dest :
      (columns : List Bytes) (m : Memory) {slots : List Slot}
      → MapIsCoherent tm
      → (columns_dest size base tm is_unsafe columns m).1 ≡ ok slots
      → (meta : List FieldMeta) × (compute_meta name tm is_unsafe columns ≡ ok meta)
        × ((k : ℕ) (col : Bytes) (dest : List Slot) (m' : Memory)
            → get_elem? columns k ≡ some col
            → IsDirect (load col tm.names)
            → k < length dest
            → get_elem? (populate_scan_dest size base meta dest m').0 k ≡ get_elem? slots k)
  unfolding compute_meta
  columns_dest-populate_scan_dest columns m coherent h =
      let (ms, read) = columns_dest-columns_meta 0 columns m h in
      let computed : compute_meta name tm is_unsafe columns ≡ ok (sort_by_offset ms) =
        rw read refl in
      (
        sort_by_offset ms,
        computed,
        λ k col dest m' found direct within.
            populate_scan_dest-column size base name tm is_unsafe columns k col dest m' coherent
              computed found direct within
            ∙ sym (columns_dest-slot_at columns k col m coherent.names direct found h),
      )
