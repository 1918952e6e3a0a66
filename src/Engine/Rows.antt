-- ===== src/Engine/Rows.antt =====
-- rows.go: `Row.Scan` and `Rows.StructScan`, with its state between the calls.
pub mod Sized
use sqlx_v.Prelude.{
  ℕ, zero, suc, ◌+◌, Bool, true, false, not, ◌&&◌, ◌||◌, Option, none, some, List, [], ◌∷◌, ◌≡◌,
  ◌≢◌, refl, sym, ap, ap₂, ◌∙◌, inl, inr, arith, ◌==◌, if◌then◌else◌, Bytes, length, replicate,
  length-set, length-replicate, Bool-cases, Option-cases,
}
use sqlx_v.Errors.{Error, no_rows, errorf, plain, Result, ok, fail, panics, Result-cases}
use sqlx_v.Value.{GoType, kind, elem, is_pointer, is_struct, type_eq, type_eq_iff}
use sqlx_v.Reflectx.Mapper.{Mapper, StructMap}
use sqlx_v.Reflectx.Address.{Memory}
use sqlx_v.Reflectx.Tags.{Setting}
use sqlx_v.Engine.Meta.{FieldMeta}
use sqlx_v.Engine.Meta.Cache.{MetaCache, build_meta}
use sqlx_v.Engine.Dest.{Slot, empty, populate_scan_dest}
use sqlx_v.Engine.Scan.{SqlRows, close_rows, returned, closing, type_name}
use sqlx_v.Engine.Scan.Select.{Dest}
use sqlx_v.Bind.Args.{type_map_of}

-- `Row`, and what its `Scan` leaves. `rows` counts if `err` is nil.
pub record Row (R : Type 0) : Type 0 where
  pub err : Option Error
  pub rows : SqlRows R

-- The rest of `Row.Scan` behind the check of `dest`; `scan` is `rows.Scan(dest...)`, which changes the
-- memory.
unfoldable pub first_row :
    {R : Type 0}
    → (R → Memory → Memory × Result (Unit {0}))
    → SqlRows R
    → Memory
    → Memory × Result (Unit {0})
first_row scan rows memory = elim rows.pending [
  | [] ↦ (memory, elim rows.err [ some e ↦ fail e | none ↦ fail no_rows ])
  | row ∷ rest ↦ scan row memory
]

-- `Row.Scan`; the flag tells whether a `*sql.RawBytes` is in `dest`.
unfoldable pub row_scan :
    {R : Type 0}
    → (R → Memory → Memory × Result (Unit {0}))
    → Row R
    → Bool
    → Memory
    → Row R × (Memory × Result (Unit {0}))
unfolding first_row
row_scan scan r has_raw_bytes memory = elim r.err [
  | some e ↦ (r, (memory, fail e))
  | none ↦
      let (memory', result) =
        if has_raw_bytes
        then (memory, fail (plain "sql: RawBytes isn't allowed on Row.Scan" []))
        else first_row scan r.rows memory in
      (record r { rows = close_rows r.rows }, (memory', closing r.rows.close_err result))
]

-- The fields of `Rows` that `StructScan` reads and writes, with what `Columns` returns.
pub record Rows : Type 0 where
  pub columns : Result (List Bytes)
  pub mapper : Option Mapper
  pub is_unsafe : Bool
  pub started : Bool
  pub meta : List FieldMeta
  pub scan_dest : List Slot
  pub base_type : Option GoType

-- The type of the struct, if `dest` is a pointer to one.
abbrev pub struct_dest : Dest → Option GoType
struct_dest dest = elim dest.type [
  | none ↦ none
  | some t ↦
      if is_pointer (kind t) && not (dest.target == 0) && is_struct (kind (elem t))
      then some (elem t)
      else none
]

-- `r.baseType != elemType`.
abbrev pub is_type : Option GoType → GoType → Bool
is_type none t = false
is_type (some b) t = type_eq b t

abbrev pub no_struct : Error
no_struct = plain "sqlx: dest must be a pointer to a struct, got %T" []

abbrev pub other_type : Error
other_type =
    plain
      "sqlx: StructScan called with structurally different type than previous iteration (expected %s, got %s)"
      []

module _ (env : Setting) (default_mapper : Mapper) (size : GoType → ℕ) where
  -- The last steps of the first call, with the metadata.
  start_with : Rows → GoType → Result (List FieldMeta) → Rows × Result (Unit {0})
  start_with r t (ok meta) = (
    record r {
      meta = meta;
      scan_dest = replicate (length meta) empty;
      started = true;
      base_type = some t;
    },
    ok tt,
  )
  start_with r t (fail e) = (r, fail (errorf "sqlx: error building meta: %w" [] e))
  start_with r t panics = (r, panics)

  -- The mapper of the rows, or the default one.
  abbrev pub used_mapper : Option Mapper → Mapper
  used_mapper none = default_mapper
  used_mapper (some m) = m

  -- Behind `TypeMap`.
  unfoldable pub start_mapped :
      Rows
      → GoType
      → List Bytes
      → MetaCache
      → Result StructMap
      → (Rows × Result (Unit {0})) × MetaCache
  unfolding start_with
  start_mapped r t columns metas (ok tm) =
      let (built, metas') = build_meta t (type_name env t) columns tm r.is_unsafe metas in
      (start_with r t built, metas')
  start_mapped r t columns metas (fail e) = ((r, fail e), metas)
  start_mapped r t columns metas panics = ((r, panics), metas)

  -- Behind `r.Columns()`.
  unfoldable pub start_columns :
      Rows → GoType → MetaCache → Result (List Bytes) → (Rows × Result (Unit {0})) × MetaCache
  unfolding start_mapped
  start_columns r t metas (ok columns) =
      let m = used_mapper r.mapper in
      start_mapped (record r { mapper = some m }) t columns metas
        (type_map_of (record env { mapper = m }) t)
  start_columns r t metas (fail e) = ((r, fail e), metas)
  start_columns r t metas panics = ((r, panics), metas)

  -- `if !r.started { … } else if r.baseType != elemType { … }`, by the two tests.
  unfoldable pub prepare_by :
      Rows → GoType → MetaCache → Bool → Bool → (Rows × Result (Unit {0})) × MetaCache
  unfolding start_columns
  prepare_by r t metas false same_type = start_columns r t metas r.columns
  prepare_by r t metas true false = ((r, fail other_type), metas)
  prepare_by r t metas true true = ((r, ok tt), metas)

  -- Behind the test on `dest`, up to the scan.
  unfoldable pub prepare : Rows → GoType → MetaCache → (Rows × Result (Unit {0})) × MetaCache
  unfolding prepare_by
  prepare r t metas = prepare_by r t metas r.started (is_type r.base_type t)

  -- `sql_scan` is `r.Scan` of database/sql on the row at hand.
  module _ (sql_scan : List Slot → Memory → Memory × Result (Unit {0})) where
    -- The scan into the object at the address.
    unfoldable pub scan_object : Rows → ℕ → Memory → Rows × (Memory × Result (Unit {0}))
    scan_object r base memory =
        let (dest, memory') = populate_scan_dest size base r.meta r.scan_dest memory in
        (record r { scan_dest = dest }, sql_scan dest memory')

    unfoldable pub scan_if :
        Rows × Result (Unit {0}) → ℕ → Memory → Rows × (Memory × Result (Unit {0}))
    unfolding scan_object
    scan_if (r, ok _) base memory = scan_object r base memory
    scan_if (r, fail e) base memory = (r, (memory, fail e))
    scan_if (r, panics) base memory = (r, (memory, panics))

    -- `Rows.StructScan`: the rows, the memory and the error, and the cache.
    unfoldable pub struct_scan :
        Rows → Dest → MetaCache → Memory → (Rows × (Memory × Result (Unit {0}))) × MetaCache
    unfolding prepare scan_if
    struct_scan r dest metas memory = elim (struct_dest dest) [
      | none ↦ ((r, (memory, fail no_struct)), metas)
      | some t ↦
          let (ready, metas') = prepare r t metas in (scan_if ready dest.target memory, metas')
    ]

    -- A call of `StructScan` behind a first one that succeeded: with another type of struct, or with no
    -- pointer to a struct, it fails, and changes neither the memory nor the rows nor the cache.
    pub struct_scan-other_type :
        (r : Rows) (dest : Dest) (metas : MetaCache) (memory : Memory) (b : GoType)
        → r.started ≡ true
        → r.base_type ≡ some b
        → struct_dest dest ≢ some b
        → (e : Error) × (struct_scan r dest metas memory ≡ ((r, (memory, fail e)), metas))
    unfolding struct_scan prepare prepare_by scan_if
    struct_scan-other_type r dest metas memory b started base other =
        elim (Option-cases (struct_dest dest)) [
          | inl bad ↦ (no_struct, rw (bad, struct_scan) refl)
          | inr (t, good) ↦ elim (Bool-cases (type_eq b t)) [
            | inl same ↦ absurd (other (good ∙ ap some (sym ((type_eq_iff b t).0 same))))
            | inr differs ↦
                let refused : prepare r t metas ≡ ((r, fail other_type), metas) =
                  ap₂ (prepare_by r t metas) started (ap (λ o. is_type o t) base ∙ differs) in
                (other_type, rw (good, struct_scan, refused) refl)
          ]
        ]

-- A scan of a `Row` that succeeds had no deferred error and no `sql.RawBytes`, found a row, and closed
-- the rows without an error.
pub row_scan-ok :
    {R : Type 0} (scan : R → Memory → Memory × Result (Unit {0})) (r : Row R) (has_raw_bytes : Bool)
    (memory : Memory)
    → (row_scan scan r has_raw_bytes memory).1.1 ≡ ok tt
    → (r.err ≡ none) × (has_raw_bytes ≡ false) × (r.rows.pending ≢ []) × (r.rows.close_err ≡ none)
unfolding row_scan first_row
row_scan-ok scan r has_raw_bytes memory h = ground arith
