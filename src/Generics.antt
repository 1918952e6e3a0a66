-- ===== src/Generics.antt =====
-- generics.go: `SelectG`, `GetG` and `SelectIter`. What is here is the code that `SelectG` and `GetG`
-- share: they do not call `iterateScan`.
pub mod Select
pub mod Get
pub mod Iter
use sqlx_v.Prelude.{Bool, true, false, Option, none, some, List, [], ◌≡◌, if◌then◌else◌, Bytes}
use sqlx_v.Errors.{Error, errorf, Result, ok, fail, panics, wrap}
use sqlx_v.Value.{GoType, type_eq, pointer_to, interface, Kind, basic_kind, kind, elem, is_pointer}
use sqlx_v.Reflectx.Mapper.{StructMap}
use sqlx_v.Reflectx.Tags.{Setting}
use sqlx_v.Reflectx.Flatten.{Mapped, done, panicked, no_fuel}
use sqlx_v.Engine.Meta.{FieldMeta}
use sqlx_v.Engine.Meta.Cache.{MetaCache, build_meta}
use sqlx_v.Engine.Scan.{strict_error, type_name}

-- `reflect.TypeOf(zero)` is nil for an interface `T`, and a call of `Kind` on it panics.
abbrev pub is_interface : Kind → Bool
is_interface (basic_kind interface) = true
is_interface _ = false

abbrev pub has_no_type : GoType → Bool
has_no_type t = is_interface (kind t)

-- `elemType` of a type `T`.
abbrev pub elem_type : GoType → GoType
elem_type t = if is_pointer (kind t) then elem t else t

-- The assertions `vp.(T)` and `vp.Interface().(T)` of `SelectG` and `GetG`, where `vp` is a new
-- `*elemType`: they panic at a defined pointer type. A type that is no pointer has none.
abbrev pub is_asserted : GoType → Bool
is_asserted t = if is_pointer (kind t) then type_eq t (pointer_to (elem t)) else true

-- The deferred function: the error of `Close` counts if there is no other.
abbrev pub deferred_close {ℓ} : {A : Type ℓ} → Option Error → Result A → Result A
deferred_close none r = r
deferred_close (some e) (ok _) = fail e
deferred_close (some e) (fail x) = fail x
deferred_close (some e) panics = panics

-- `if err := rows.Err(); err != nil { … }` and what is returned else.
abbrev pub row_error {ℓ} : {A : Type ℓ} → Option Error → Result A → Result A
row_error none r = r
row_error (some e) r = fail (errorf "sqlx: row error: %w" [] e)

-- The strict tags and `buildMeta`.
unfoldable pub meta_for :
    Setting
    → GoType
    → Bool
    → Bool
    → List Bytes
    → Mapped StructMap
    → MetaCache
    → Result (List FieldMeta) × MetaCache
meta_for env t is_unsafe strict columns (done tm) metas = elim (strict_error strict tm.errors) [
  | some e ↦ (fail (errorf "sqlx: strict tag error: %w" [] e), metas)
  | none ↦
      let (r, metas') = build_meta t (type_name env t) columns tm is_unsafe metas in
      (wrap "sqlx: error building meta: %w" r, metas')
]
meta_for env t is_unsafe strict columns panicked metas = (panics, metas)
meta_for env t is_unsafe strict columns no_fuel metas = (panics, metas)
