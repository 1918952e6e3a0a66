-- ===== src/Engine/Dest/Columns.antt =====
-- Where `populateScanDest` sends the columns of `buildMeta`.
use sqlx_v.Prelude.{
  ℕ, zero, suc, ◌+◌, ◌<◌, Bool, false, Option, none, some, List, [], ◌∷◌, ◌≡◌, inl, inr, refl,
  subst, arith, Option-cases, Bytes, get_elem?, length, All,
}
use sqlx_v.Errors.{ok, >>=-elim}
use sqlx_v.SyncMap.{load, bytes_key}
use sqlx_v.Value.{GoType}
use sqlx_v.Reflectx.Mapper.{FieldInfo, StructMap}
use sqlx_v.Reflectx.Address.{Memory, sum_offsets}
use sqlx_v.Reflectx.Flatten.Coherent.{load-All, InfoIsCoherent, IsCoherent, MapIsCoherent}
use sqlx_v.Engine.Meta.{
  FieldMeta, sort_from, sort_by_offset, meta_of, discard_meta, column_meta, columns_meta,
  compute_meta,
}
use sqlx_v.Engine.Dest.Stores.{
  count_at, count_at-sort_from, sort_from-All, Stores, populate_scan_dest-Stores,
}
use sqlx_v.Engine.Dest.{Slot, discard, into, slot_of, populate_scan_dest}

-- What a column is scanned into, from the field that the struct map has for it.
abbrev pub slot_at : ℕ → Option FieldInfo → Slot
slot_at base none = discard
slot_at base (some fi) = into (some fi.target_type) (base + sum_offsets fi.traversal)

-- The field is reached through no pointer.
abbrev pub IsDirect : Option FieldInfo → Type 0
IsDirect none = Unit
IsDirect (some fi) = fi.is_ptr_path ≡ false

slot_of-meta_of :
    (size : GoType → ℕ) (base k : ℕ) (fi : FieldInfo) (m : Memory)
    → InfoIsCoherent fi
    → IsDirect (some fi)
    → (slot_of size base (meta_of fi k) m).0 ≡ slot_at base (some fi)
unfolding slot_of
slot_of-meta_of size base k fi m (coherent, walks, _) direct =
    let sum : sum_offsets fi.traversal ≡ fi.offset =
      (subst (IsCoherent fi.traversal fi.offset) direct coherent).1 in
    ground (arith, sum, direct, walks)

module _ (size : GoType → ℕ) (base : ℕ) (name : Bytes) (tm : StructMap) (is_unsafe : Bool) where
  column_meta-col_index :
      (i : ℕ) (col : Bytes) {fm : FieldMeta}
      → column_meta name tm is_unsafe i col ≡ ok fm
      → fm.col_index ≡ i
  unfolding column_meta
  column_meta-col_index i col h = ground arith

  column_meta-slot_at :
      (k : ℕ) (col : Bytes) (m : Memory) {fm : FieldMeta}
      → All (λ kv. InfoIsCoherent kv.1) tm.names
      → IsDirect (load col tm.names)
      → column_meta name tm is_unsafe k col ≡ ok fm
      → (slot_of size base fm m).0 ≡ slot_at base (load col tm.names)
  unfolding column_meta
  column_meta-slot_at k col m {fm} coherent direct h = elim (Option-cases (load col tm.names)) [
    | inl gone ↦ let e : fm ≡ discard_meta k = ground arith in rw (gone, e) (unfold slot_of in refl)
    | inr (fi, found) ↦
        let e : fm ≡ meta_of fi k = ground arith in
        rw (found, e)
          (slot_of-meta_of size base k fi m (load-All InfoIsCoherent col tm.names coherent found)
            (subst IsDirect found direct))
  ]

  columns_meta-later :
      (k i : ℕ) (slot : Slot) (cols : List Bytes) {ms : List FieldMeta}
      → k < i
      → columns_meta name tm is_unsafe i cols ≡ ok ms
      → Stores size base k slot ms
  unfolding columns_meta
  columns_meta-later k i slot [] {ms} lt h = let e : ms ≡ [] = ground arith in rw e tt
  columns_meta-later k i slot (c ∷ cs) {ms} lt h =
      >>=-elim (column_meta name tm is_unsafe i c) _ h λ fm first h1.
        >>=-elim (columns_meta name tm is_unsafe (i + 1) cs) _ h1 λ ms' rest h2.
          let e : ms ≡ fm ∷ ms' = ground arith in
          let at_i = column_meta-col_index i c first in
          rw e (
            (λ here m. absurd (omega (arith, at_i, here))),
            columns_meta-later k (i + 1) slot cs (omega arith) rest,
          )

  columns_meta-Stores :
      (i j : ℕ) (cols : List Bytes) (col : Bytes) {ms : List FieldMeta}
      → All (λ kv. InfoIsCoherent kv.1) tm.names
      → IsDirect (load col tm.names)
      → get_elem? cols j ≡ some col
      → columns_meta name tm is_unsafe i cols ≡ ok ms
      → Stores size base (i + j) (slot_at base (load col tm.names)) ms × (0 < count_at (i + j) ms)
  unfolding columns_meta
  columns_meta-Stores i j [] col coherent direct found h = absurd (ground arith)
  columns_meta-Stores i j (c ∷ cs) col {ms} coherent direct found h =
      >>=-elim (column_meta name tm is_unsafe i c) _ h λ fm first h1.
        >>=-elim (columns_meta name tm is_unsafe (i + 1) cs) _ h1 λ ms' rest h2.
          let e : ms ≡ fm ∷ ms' = ground arith in
          rw e (
            at_column j found fm ms' first rest
              (λ j found. columns_meta-Stores (i + 1) j cs col coherent direct found rest))
    where
      at_column :
          (j : ℕ)
          → get_elem? (c ∷ cs) j ≡ some col
          → (fm : FieldMeta) (ms' : List FieldMeta) → column_meta name tm is_unsafe i c ≡ ok fm
          → columns_meta name tm is_unsafe (i + 1) cs ≡ ok ms'
          → ((j : ℕ)
              → get_elem? cs j ≡ some col
              → Stores size base (i + 1 + j) (slot_at base (load col tm.names)) ms'
                × (0 < count_at (i + 1 + j) ms'))
          → Stores size base (i + j) (slot_at base (load col tm.names)) (fm ∷ ms')
            × (0 < count_at (i + j) (fm ∷ ms'))
      at_column zero found fm ms' first rest ih =
          let same : c ≡ col = ground arith in
          let at_i = column_meta-col_index i c first in
          (
            (
              (λ here m.
                  column_meta-slot_at i col m coherent direct
                    (subst (λ c. column_meta name tm is_unsafe i c ≡ ok fm) same first)),
              columns_meta-later (i + 0) (i + 1) _ cs (omega arith) rest,
            ),
            ground arith,
          )
      at_column (suc j) found fm ms' first rest ih =
          let at_i = column_meta-col_index i c first in
          let (stores, counted) = ih j (ground arith) in
          let shift : i + 1 + j ≡ i + suc j = omega arith in
          (
            (
              (λ here m. absurd (omega (arith, at_i, here))),
              subst (λ k. Stores size base k (slot_at base (load col tm.names)) ms') shift stores,
            ),
            ground (arith, subst (λ k. 0 < count_at k ms') shift counted),
          )

  -- With a coherent struct map and the metadata that `buildMeta` computes from it, whatever the order
  -- of its sort and the elements that `scanDest` has from the last row, `populateScanDest` stores at
  -- the index of a column, if `scanDest` has it, the address that the traversal steps of the column's
  -- field add up to if the field is reached through no pointer, and a place to discard the value if
  -- the column is no field.
  pub populate_scan_dest-column :
      (columns : List Bytes) (k : ℕ) (col : Bytes) (dest : List Slot) (m : Memory)
      {meta : List FieldMeta}
      → MapIsCoherent tm
      → compute_meta name tm is_unsafe columns ≡ ok meta
      → get_elem? columns k ≡ some col
      → IsDirect (load col tm.names)
      → k < length dest
      → get_elem? (populate_scan_dest size base meta dest m).0 k
        ≡ some (slot_at base (load col tm.names))
  unfolding compute_meta
  populate_scan_dest-column columns k col dest m {meta} coherent computed found direct within =
      >>=-elim (columns_meta name tm is_unsafe 0 columns) _ computed λ ms read h1.
        let e : meta ≡ sort_by_offset ms = ground arith in
        let (stores, counted) =
          columns_meta-Stores 0 k columns col coherent.names direct found read in
        rw e (
          sorted ms
            (subst (λ k. Stores size base k (slot_at base (load col tm.names)) ms) no_shift stores)
            (subst (λ k. 0 < count_at k ms) no_shift counted))
    where
      no_shift : 0 + k ≡ k
      no_shift = omega arith

      sorted :
          (ms : List FieldMeta)
          → Stores size base k (slot_at base (load col tm.names)) ms
          → 0 < count_at k ms
          → get_elem? (populate_scan_dest size base (sort_by_offset ms) dest m).0 k
            ≡ some (slot_at base (load col tm.names))
      sorted ms stores counted =
          unfold sort_by_offset in
          populate_scan_dest-Stores size base k _ (sort_from [] ms) dest m
            (sort_from-All _ [] ms tt stores) within
            (inr (omega (arith, count_at-sort_from k [] ms, counted)))
