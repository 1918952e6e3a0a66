-- ===== src/Helpers/StructScan/Open.antt =====
-- `StructScan` of a `Row` with a column that is no field.
use sqlx_v.Prelude.{
  ℕ, zero, suc, Bool, false, none, some, List, [], ◌∷◌, ◌≡◌, ◌⊎◌, refl, sym, ap, ◌∙◌, subst, inl,
  inr, arith, Bool-cases, Option-cases, Bytes, get_elem?,
}
use sqlx_v.Errors.{Error, column_not_found, root, Result, ok, fail, panics, ◌>>=◌}
use sqlx_v.SyncMap.{load, bytes_key}
use sqlx_v.Value.{GoType}
use sqlx_v.Reflectx.Mapper.{Mapper, StructMap}
use sqlx_v.Reflectx.Address.{Memory}
use sqlx_v.Reflectx.Tags.{Setting}
use sqlx_v.Bind.Args.{type_map_of}
use sqlx_v.Engine.Dest.{Slot}
use sqlx_v.Engine.Scan.{strict_error}
use sqlx_v.Engine.Scan.Select.{Dest}
use sqlx_v.Engine.Rows.{Row, struct_dest}
use sqlx_v.Handles.{used_mapper}
use sqlx_v.Helpers.StructScan.{
  ColScanner, RowSettings, column_dest, columns_dest, scan_columns, scan_checked, scan_mapped,
  scan_typed, scan_into, struct_scan_of, scan_settings, row_columns, row_scanner,
}

-- It fails, and an `errors.Is` at `ErrColumnNotFound` holds.
abbrev pub Refused : {A : Type 0} → Result A → Type 0
Refused (ok a) = ⊥
Refused (fail e) = root e ≡ column_not_found
Refused panics = ⊥

Refused-bind : {A B : Type 0} (r : Result A) (f : A → Result B) → Refused r → Refused (r >>= f)
Refused-bind (ok a) f h = absurd h
Refused-bind (fail e) f h = h
Refused-bind panics f h = absurd h

module _ (size : GoType → ℕ) (base : ℕ) (tm : StructMap) where
  -- A column is stored, or refused.
  column_dest-cases :
      (col : Bytes) (m : Memory)
      → let r = (column_dest size base tm false col m).1 in
        ((slot : Slot) × (r ≡ ok slot)) ⊎ ((e : Error) × (r ≡ fail e) × (root e ≡ column_not_found))
  unfolding column_dest
  column_dest-cases col m = elim (Option-cases (load col tm.names)) [
    | inl gone ↦ rw (gone, column_dest) (inr (_, refl, refl))
    | inr (fi, found) ↦ elim (Bool-cases fi.is_ptr_path) [
      | inl walks ↦ rw (found, column_dest, walks) (inl (_, refl))
      | inr flat ↦ rw (found, column_dest, flat) (inl (_, refl))
    ]
  ]

  column_dest-missing :
      (col : Bytes) (m : Memory)
      → load col tm.names ≡ none
      → (e : Error) × ((column_dest size base tm false col m).1 ≡ fail e)
        × (root e ≡ column_not_found)
  unfolding column_dest
  column_dest-missing col m gone = rw (gone, column_dest) (_, refl, refl)

  columns_dest-Refused :
      (cols : List Bytes) (k : ℕ) (col : Bytes) (m : Memory)
      → load col tm.names ≡ none
      → get_elem? cols k ≡ some col
      → Refused (columns_dest size base tm false cols m).1
  unfolding columns_dest
  columns_dest-Refused [] k col m gone found = absurd (cc)
  columns_dest-Refused (c ∷ cols) zero col m gone found =
      let here : col ≡ c = ground arith in
      let (e, failed, same) =
        column_dest-missing c m (subst (λ c. load c tm.names ≡ none) here gone) in
      rw (failed, columns_dest) same
  columns_dest-Refused (c ∷ cols) (suc k) col m gone found = elim (column_dest-cases c m) [
    | inr (e, failed, same) ↦ rw (failed, columns_dest) same
    | inl (slot, stored) ↦
        rw (stored, columns_dest) (Refused-bind _ _ (columns_dest-Refused cols k col _ gone found))
  ]

-- What the loop over the columns refuses is returned with the state as it was.
scan_columns-Refused :
    {S : Type 0} (env : Setting) (default_mapper : Mapper) (size : GoType → ℕ) (c : ColScanner S)
    (s : S) (p : Memory × Result (List Slot))
    → Refused p.1
    → ((scan_columns env default_mapper size c s p).0 ≡ s)
      × Refused (scan_columns env default_mapper size c s p).1.1
unfolding scan_columns
scan_columns-Refused env default_mapper size c s (m, ok dest) h = absurd h
scan_columns-Refused env default_mapper size c s (m, fail e) h = (refl, h)
scan_columns-Refused env default_mapper size c s (m, panics) h = absurd h

-- A `Row` whose `StructScan` meets a column that is no field of the struct is not closed: unless the row
-- is unsafe, the call fails with `ErrColumnNotFound` at the root, and the row and its `sql.Rows` are as
-- they were, however often the call is made. With strict tags the type has no tag error.
pub row_struct_scan-open :
    {R : Type 0} (env : Setting) (default_mapper : Mapper) (size : GoType → ℕ)
    (is_raw : GoType → Bool) (sql_scan : R → List Slot → Memory → Memory × Result (Unit {0}))
    (settings : RowSettings) (r : Row R) (dest : Dest) (m : Memory) (columns : List Bytes) (k : ℕ)
    (col : Bytes) {t : GoType} {tm : StructMap}
    → row_columns r ≡ ok columns
    → struct_dest dest ≡ some t
    → type_map_of (record env { mapper = used_mapper default_mapper settings.mapper }) t ≡ ok tm
    → strict_error settings.strict_tag_parsing tm.errors ≡ none
    → settings.is_unsafe ≡ false
    → get_elem? columns k ≡ some col
    → load col tm.names ≡ none
    → let (r', after) =
        struct_scan_of env default_mapper size
          (row_scanner is_raw sql_scan)
          (some settings)
          r
          dest
          m in
      (r' ≡ r) × Refused after.1
unfolding struct_scan_of scan_into scan_typed scan_settings scan_mapped row_scanner row_columns
row_struct_scan-open env default_mapper size is_raw sql_scan settings r dest m columns k col {t}
      {tm} open_row struct mapped fine safe found gone =
    let c = row_scanner is_raw sql_scan in
    let refused =
      scan_columns-Refused env default_mapper size c r
        (columns_dest size dest.target tm false columns m)
        (columns_dest-Refused size dest.target tm columns k col m gone found) in
    let path =
      ap (scan_into env default_mapper size c (some settings) r dest m) open_row
      ∙ ap (scan_typed env default_mapper size c (some settings) r columns dest.target m) struct
      ∙ ap
          (scan_mapped env default_mapper size c r settings.is_unsafe settings.strict_tag_parsing
            columns dest.target m)
          mapped
      ∙ ap
          (λ lax.
            scan_checked env default_mapper size c r lax columns dest.target m tm
              (strict_error settings.strict_tag_parsing tm.errors))
          safe
      ∙ ap (scan_checked env default_mapper size c r false columns dest.target m tm) fine in
    subst (λ (p : Row _ × (Memory × Result (Unit {0}))). (p.0 ≡ r) × Refused p.1.1) (sym path)
      (unfold scan_checked in refused)
