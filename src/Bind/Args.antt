-- ===== src/Bind/Args.antt =====
-- The arguments of a named query: `bindAnyArgs`, `bindArgs`, `bindMapArgs`, `bindStructDirect`, with
-- `TraversalsByNameFunc` and `FieldByIndexesReadOnly` of internal/reflectx/reflectx.go. The mapper's
-- cache has no part in what `TypeMap` returns, so `mapType` stands in its place.
pub mod Direct
use sqlx_v.Prelude.{
  ℕ, zero, suc, ◌+◌, Bool, true, false, Option, none, some, List, [], ◌∷◌, ◌++◌, ◌≡◌, refl, arith,
  ◌==◌, if◌then◌else◌, Bytes, bytes_eq, get_elem?, set, length, replicate, String,
}
use sqlx_v.Errors.{Error, named_property_not_found, errorf, Result, ok, fail, panics, ◌>>=◌}
use sqlx_v.SyncMap.{load, bytes_key}
use sqlx_v.Value.{
  GoType, basic, string, interface, map_of, defined, struct_type, pointer_to, kind, elem, deref,
  is_pointer, Value, nil, struct_value, pointer_value, nil_pointer, map_value, Entries, no_entry,
  entry, to_list, type_of,
}
use sqlx_v.Reflectx.Mapper.{StructField, StructDef, Structs, FieldInfo, StructMap}
use sqlx_v.Reflectx.Tags.{Setting}
use sqlx_v.Reflectx.Flatten.{Mapped, done, panicked, no_fuel, map_type, struct_id}

-- A `reflect.Value` on the way to a field: a value, or the zero value of a type.
pub data Arg : Type 0 where
  of_value : Value → Arg
  zero_of : GoType → Arg

-- `for v.Kind() == reflect.Pointer { v = v.Elem() }` at a value of the type; `none` is the invalid
-- value behind a nil pointer.
unfoldable pub deref_all : GoType → Value → Option (GoType × Value)
deref_all t (pointer_value t' v) =
    let inner = deref_all (elem t) v in
    if is_pointer (kind t) then inner else some (t, pointer_value t' v)
deref_all t (nil_pointer t') = if is_pointer (kind t) then none else some (t, nil_pointer t')
deref_all t v = some (t, v)

-- `map[string]any`, or a type defined by it.
abbrev pub is_string_map : GoType → Bool
is_string_map (map_of (basic string) (basic interface)) = true
is_string_map (defined n t) = is_string_map t
is_string_map _ = false

-- `convertMapStringInterface`; it panics at nil, which has no type.
unfoldable pub convert_map_string_interface : Value → Result (Option Entries)
convert_map_string_interface nil = panics
convert_map_string_interface (map_value t es) = if is_string_map t then ok (some es) else ok none
convert_map_string_interface _ = ok none

-- `arg[name]`.
unfoldable pub look_up : Bytes → Entries → Option Value
look_up name no_entry = none
look_up name (entry k v es) = if bytes_eq k name then some v else look_up name es

abbrev pub not_in_map : Bytes → Error
not_in_map name =
    errorf "sqlx: could not find name %q in map: %w" (name ∷ []) named_property_not_found

unfoldable pub bind_map_args : List Bytes → Entries → Result (List Arg)
unfolding look_up
bind_map_args [] es = ok []
bind_map_args (name ∷ names) es =
    let rest = bind_map_args names es in
    elim (look_up name es) [
      | none ↦ fail (not_in_map name)
      | some v ↦ (rest >>= λ args. ok (of_value v ∷ args))
    ]

-- `reflect.Indirect(v).Field(i)` on a struct; anything else panics.
abbrev pub field_at : Value → ℕ → Result Arg
field_at (struct_value t vs) i = elim (get_elem? (to_list vs) i) [
  | none ↦ panics
  | some v ↦ ok (of_value v)
]
field_at _ i = panics

module _ (structs : Structs) where
  -- A field of the zero value of a struct type, or of what a nil pointer to it points to.
  zero_field : GoType → ℕ → Result Arg
  zero_field t i = elim (get_elem? structs (struct_id t)) [
    | none ↦ panics
    | some d ↦ elim (get_elem? d.fields i) [ none ↦ panics | some f ↦ ok (zero_of f.type) ]
  ]

  -- The body of the loop of `FieldByIndexesReadOnly`.
  read_field : Arg → ℕ → Result Arg
  unfolding zero_field
  read_field (of_value (pointer_value t v)) i = field_at v i
  read_field (of_value (nil_pointer t)) i = zero_field t i
  read_field (of_value v) i = field_at v i
  read_field (zero_of t) i = zero_field (deref t) i

  unfoldable pub field_by_indexes_read_only : Arg → List ℕ → Result Arg
  unfolding read_field
  field_by_indexes_read_only a [] = ok a
  field_by_indexes_read_only a (i ∷ indexes) = do
    b ← read_field a i
    field_by_indexes_read_only b indexes

-- `TypeMap`. `map_type-ends` rules out the last case.
abbrev pub type_map_of : Setting → GoType → Result StructMap
type_map_of env t = elim (map_type env (deref t)) [
  | done sm ↦ ok sm
  | panicked ↦ panics
  | no_fuel ↦ panics
]

-- The text names what has no such field.
abbrev pub not_found : String → Bytes → Error
not_found format name = errorf format (name ∷ []) named_property_not_found

-- `val.Interface()` panics at an unexported field. The mapper maps one only if it is embedded, and
-- `Field` drops that mark of an embedded one on the way to a field of it, so the last field counts.
abbrev pub interfaced : Bool → Result Arg → Result Arg
interfaced true r = r
interfaced false (ok a) = panics
interfaced false (fail e) = fail e
interfaced false panics = panics

module _ (env : Setting) where
  -- The function that `bindArgs` and `bindArray` pass to `TraversalsByNameFunc`: it reads the field
  -- of `v` at the indexes, and has no field if there are none. The flag is that of the last field.
  unfoldable pub read_traversal : String → Value → Bytes → Bool → List ℕ → Result Arg
  read_traversal format v name exported [] = fail (not_found format name)
  read_traversal format v name exported (i ∷ indexes) =
      interfaced exported (field_by_indexes_read_only env.structs (of_value v) (i ∷ indexes))

  -- The loop of `TraversalsByNameFunc` with this function; a name that is not mapped has no indexes.
  unfoldable pub traversals_by_name : String → StructMap → Value → List Bytes → Result (List Arg)
  unfolding read_traversal
  traversals_by_name format tm v [] = ok []
  traversals_by_name format tm v (name ∷ names) = do
    a ← elim (load name tm.names) [
      | none ↦ read_traversal format v name true []
      | some fi ↦ read_traversal format v name fi.field.exported fi.index
    ]
    args ← traversals_by_name format tm v names
    ok (a ∷ args)

  -- Behind the loop that takes off the pointers; the type of the invalid value panics.
  unfoldable pub bind_fields : String → List Bytes → Option (GoType × Value) → Result (List Arg)
  unfolding traversals_by_name
  bind_fields format names none = panics
  bind_fields format names (some (t, v)) = do
    tm ← type_map_of env t
    traversals_by_name format tm v names

  abbrev pub in_value : String
  in_value = "sqlx: could not find name %q in %T: %w"

  -- `reflect.ValueOf(arg)`, with the pointers taken off; nil is the invalid value.
  abbrev pub target_of : Value → Option (GoType × Value)
  target_of arg = elim (type_of arg) [ none ↦ none | some t ↦ deref_all t arg ]

  unfoldable pub bind_args : List Bytes → Value → Result (List Arg)
  unfolding bind_fields
  bind_args names arg = bind_fields in_value names (target_of arg)

  unfoldable pub bind_any_args : List Bytes → Value → Result (List Arg)
  unfolding convert_map_string_interface bind_map_args bind_args
  bind_any_args names arg = do
    found ← convert_map_string_interface arg
    elim found [ some es ↦ bind_map_args names es | none ↦ bind_args names arg ]

  -- The loop of `bindStructDirect` at the index `i`, over `arglist`.
  unfoldable pub direct_loop : StructMap → Value → ℕ → List Bytes → List Arg → Result (List Arg)
  direct_loop tm v i [] arglist = ok arglist
  direct_loop tm v i (name ∷ names) arglist = elim (load name tm.names) [
    | none ↦ fail (not_found in_value name)
    | some fi ↦
        (interfaced fi.field.exported (field_by_indexes_read_only env.structs (of_value v) fi.index)
          >>= λ a. direct_loop tm v (i + 1) names (set arglist i a))
  ]

  -- `bindStructDirect` into `arglist`.
  unfoldable pub bind_struct_direct : List Bytes → Value → List Arg → Result (List Arg)
  unfolding direct_loop
  bind_struct_direct names arg arglist = elim (target_of arg) [
    | none ↦ panics
    | some tv ↦ (type_map_of env tv.0 >>= λ tm. direct_loop tm tv.1 0 names arglist)
  ]
