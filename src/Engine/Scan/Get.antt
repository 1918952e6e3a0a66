-- ===== src/Engine/Scan/Get.antt =====
-- `getScan`.
use sqlx_v.Prelude.{ℕ, Bool, true, false, Option, none, some, List, [], if◌then◌else◌}
use sqlx_v.Errors.{Error, stop_iter, no_rows, plain, Result, ok, fail, panics}
use sqlx_v.Value.{GoType, kind, elem, is_pointer}
use sqlx_v.Reflectx.Address.{Memory}
use sqlx_v.Reflectx.Tags.{Setting}
use sqlx_v.Engine.Dest.{Slot}
use sqlx_v.Engine.Scan.{SqlRows, close_rows, Caches, Scanned, iterate_scan}
use sqlx_v.Engine.Scan.Select.{Dest}

-- The closures: the object is `dest`, and one row is enough. The variable is `found`.
abbrev pub same_object : ℕ → Memory → ℕ × Memory
same_object target m = (target, m)

abbrev pub find_one : ℕ → Memory → Bool → Bool × Result (Unit {0})
find_one vp m found = (true, fail stop_iter)

abbrev pub pointer_dest : Dest → Option GoType
pointer_dest dest = elim dest.type [
  | none ↦ none
  | some t ↦ if is_pointer (kind t) then some (elem t) else none
]

-- `dest` is refused.
abbrev pub refused_pointer : Option Error → Result (Unit {0})
refused_pointer none = fail (plain "sqlx: dest must be a pointer, got %T" [])
refused_pointer (some e) = fail (plain "sqlx: dest must be a pointer, got %T; close error: %v" [])

-- What follows the call of `iterateScan`.
abbrev pub found_one : Bool → Result (Unit {0}) → Result (Unit {0})
found_one found (fail e) = fail e
found_one found panics = panics
found_one true (ok _) = ok tt
found_one false (ok _) = fail no_rows

module _ {R : Type 0} (env : Setting) (size : GoType → ℕ)
    (sql_scan : R → List Slot → Memory → Memory × Result (Unit {0})) where
  unfoldable pub get_into : SqlRows R → GoType → ℕ → Bool → Bool → Caches → Memory → Scanned R Bool
  unfolding iterate_scan
  get_into rows t target is_unsafe strict caches memory =
      let s =
        iterate_scan env size sql_scan (same_object target) find_one rows t is_unsafe strict caches
          memory false in
      record s { result = found_one s.scan.out s.result }

  unfoldable pub get_scan : SqlRows R → Dest → Bool → Bool → Caches → Memory → Scanned R Bool
  unfolding get_into
  get_scan rows dest is_unsafe strict caches memory = elim (pointer_dest dest) [
    | none ↦ record {
      scan = record { memory = memory; scan_dest = []; out = false };
      result = refused_pointer rows.close_err;
      rows = close_rows rows;
      caches = caches;
    }
    | some t ↦ get_into rows t dest.target is_unsafe strict caches memory
  ]
