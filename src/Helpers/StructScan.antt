-- ===== src/Helpers/StructScan.antt =====
-- `StructScan` of helpers.go, which `Row.StructScan` calls.
pub mod Columns
pub mod Open
use sqlx_v.Prelude.{
  ℕ, zero, suc, ◌+◌, Bool, true, false, not, ◌||◌, Option, none, some, List, [], ◌∷◌, ◌≡◌, refl,
  ◌==◌, if◌then◌else◌, Bytes,
}
use sqlx_v.Errors.{Error, column_not_found, errorf, plain, Result, ok, fail, panics, ◌>>=◌, wrap}
use sqlx_v.SyncMap.{load, bytes_key}
use sqlx_v.Value.{GoType}
use sqlx_v.Reflectx.Mapper.{Mapper, StructMap}
use sqlx_v.Reflectx.Address.{Memory, addr_by_traversal}
use sqlx_v.Reflectx.Tags.{Setting}
use sqlx_v.Bind.Args.{type_map_of}
use sqlx_v.Engine.Dest.{Slot, empty, discard, into}
use sqlx_v.Engine.Scan.{SqlRows, strict_error}
use sqlx_v.Engine.Scan.Select.{Dest}
use sqlx_v.Engine.Rows.{Row, row_scan, struct_dest, no_struct}
use sqlx_v.Handles.{used_mapper}

-- The interface `ColScanner`, without `Err`, which nothing here calls: a state with its two methods.
pub record ColScanner (S : Type 0) : Type 0 where
  pub columns : S → Result (List Bytes)
  pub scan : List Slot → S → Memory → S × (Memory × Result (Unit {0}))

-- The settings of a `*Row` or `*Rows`.
pub record RowSettings : Type 0 where
  pub mapper : Option Mapper
  pub is_unsafe : Bool
  pub strict_tag_parsing : Bool

-- What the `switch` on the type of the `ColScanner` sets; other types keep the defaults.
unfoldable pub scan_settings : Mapper → Option RowSettings → Bool × Bool × Mapper
scan_settings default_mapper none = (false, false, default_mapper)
scan_settings default_mapper (some s) =
    (s.is_unsafe, s.strict_tag_parsing, used_mapper default_mapper s.mapper)

module _ (size : GoType → ℕ) (base : ℕ) (tm : StructMap) (is_unsafe : Bool) where
  -- The body of the loop over the columns: what is stored in `scanDest`, and the memory.
  unfoldable pub column_dest : Bytes → Memory → Memory × Result Slot
  column_dest col m = elim (load col tm.names) [
    | some fi ↦
        let walked = addr_by_traversal size base fi.traversal m in
        if fi.is_ptr_path
        then (walked.1, ok (into (some fi.target_type) walked.0))
        else (m, ok (into (some fi.target_type) (base + fi.offset)))
    | none ↦
        if not is_unsafe
        then (
          m,
          fail (errorf "sqlx: missing destination name %q in %s: %w" (col ∷ []) column_not_found),
        )
        else (m, ok discard)
  ]

  -- The loop; each round fills the next place of `scanDest`.
  unfoldable pub columns_dest : List Bytes → Memory → Memory × Result (List Slot)
  unfolding column_dest
  columns_dest [] m = (m, ok [])
  columns_dest (col ∷ cols) m =
      let (m', r) = column_dest col m in
      let (m'', slots) = columns_dest cols m' in
      elim r [
        | ok slot ↦ (m'', slots >>= λ ss. ok (slot ∷ ss))
        | fail e ↦ (m', fail e)
        | panics ↦ (m', panics)
      ]

module _ {S : Type 0} (env : Setting) (default_mapper : Mapper) (size : GoType → ℕ)
    (r : ColScanner S) where
  -- Behind the loop over the columns.
  unfoldable pub scan_columns : S → Memory × Result (List Slot) → S × (Memory × Result (Unit {0}))
  scan_columns s (m, ok dest) =
      let (s', after) = r.scan dest s m in
      let (m', scanned) = after in (s', (m', wrap "sqlx: struct scan error: %w" scanned))
  scan_columns s (m, fail e) = (s, (m, fail e))
  scan_columns s (m, panics) = (s, (m, panics))

  -- Behind the test for a tag error.
  unfoldable pub scan_checked :
      S
      → Bool
      → List Bytes
      → ℕ
      → Memory
      → StructMap
      → Option Error
      → S × (Memory × Result (Unit {0}))
  unfolding columns_dest scan_columns
  scan_checked s is_unsafe columns base m tm (some e) =
      (s, (m, fail (errorf "sqlx: strict tag error: %w" [] e)))
  scan_checked s is_unsafe columns base m tm none =
      scan_columns s (columns_dest size base tm is_unsafe columns m)

  -- Behind `TypeMap`.
  unfoldable pub scan_mapped :
      S
      → Bool
      → Bool
      → List Bytes
      → ℕ
      → Memory
      → Result StructMap
      → S × (Memory × Result (Unit {0}))
  unfolding scan_checked
  scan_mapped s is_unsafe strict columns base m (ok tm) =
      scan_checked s is_unsafe columns base m tm (strict_error strict tm.errors)
  scan_mapped s is_unsafe strict columns base m (fail e) = (s, (m, fail e))
  scan_mapped s is_unsafe strict columns base m panics = (s, (m, panics))

  -- Behind the test on `dest`, with the type of the struct.
  unfoldable pub scan_typed :
      Option RowSettings
      → S
      → List Bytes
      → ℕ
      → Memory
      → Option GoType
      → S × (Memory × Result (Unit {0}))
  unfolding scan_settings scan_mapped
  scan_typed settings s columns base m none = (s, (m, fail no_struct))
  scan_typed settings s columns base m (some t) =
      let (is_unsafe, strict, mapper) = scan_settings default_mapper settings in
      scan_mapped s is_unsafe strict columns base m (type_map_of (record env { mapper = mapper }) t)

  -- Behind `r.Columns()`.
  unfoldable pub scan_into :
      Option RowSettings
      → S
      → Dest
      → Memory
      → Result (List Bytes)
      → S × (Memory × Result (Unit {0}))
  unfolding scan_typed
  scan_into settings s dest m (ok columns) =
      scan_typed settings s columns dest.target m (struct_dest dest)
  scan_into settings s dest m (fail e) = (s, (m, fail e))
  scan_into settings s dest m panics = (s, (m, panics))

  -- `StructScan`.
  unfoldable pub struct_scan_of :
      Option RowSettings → S → Dest → Memory → S × (Memory × Result (Unit {0}))
  unfolding scan_into
  struct_scan_of settings s dest m = scan_into settings s dest m (r.columns s)

-- `Row.Columns`.
unfoldable pub row_columns : {R : Type 0} → Row R → Result (List Bytes)
row_columns r = elim r.err [ some e ↦ fail e | none ↦ r.rows.columns ]

-- A pointer to a `sql.RawBytes` among the destinations.
unfoldable pub has_raw_bytes : (GoType → Bool) → List Slot → Bool
has_raw_bytes is_raw [] = false
has_raw_bytes is_raw (into (some t) p ∷ dest) = is_raw t || has_raw_bytes is_raw dest
has_raw_bytes is_raw (into none p ∷ dest) = has_raw_bytes is_raw dest
has_raw_bytes is_raw (empty ∷ dest) = has_raw_bytes is_raw dest
has_raw_bytes is_raw (discard ∷ dest) = has_raw_bytes is_raw dest

-- A `Row` as a `ColScanner`; `is_raw` is equality with the type `sql.RawBytes`.
unfoldable pub row_scanner :
    {R : Type 0}
    → (GoType → Bool)
    → (R → List Slot → Memory → Memory × Result (Unit {0}))
    → ColScanner (Row R)
unfolding row_columns has_raw_bytes row_scan
row_scanner is_raw sql_scan = record {
  columns = row_columns;
  scan = λ dest r m. row_scan (λ row. sql_scan row dest) r (has_raw_bytes is_raw dest) m;
}
