-- ===== src/Reflectx/Flatten.antt =====
-- `flattenFields` and `mapType`.
pub mod Calls
pub mod Fuel
pub mod Total
pub mod Coherent
pub mod Offsets
use sqlx_v.Prelude.{
  ℕ, zero, suc, ◌+◌, Bool, true, false, not, ◌&&◌, ◌||◌, Option, none, some, List, [], ◌∷◌, ◌++◌,
  ◌≡◌, refl, arith, ◌==◌, if◌then◌else◌, String, Bytes, bytes_eq, codes, get_elem?, length,
}
use sqlx_v.Errors.{Error, plain}
use sqlx_v.SyncMap.{load, store, bytes_key}
use sqlx_v.Value.{
  GoType, pointer_to, struct_type, defined, slice_of, array_of, map_of, basic, Kind, kind, deref,
  elem, is_pointer, is_struct, pointer, struct,
}
use sqlx_v.Reflectx.Mapper.{StructField, StructDef, Structs, Mapper, Step, FieldInfo, StructMap}
use sqlx_v.Reflectx.Tags.{Setting, split, tag_mapped, options_of, tag_errors}

-- A computation on fuel that may panic.
pub data Mapped {ℓ} (A : Type ℓ) : Type ℓ where
  done : A → Mapped A
  panicked : Mapped A
  no_fuel : Mapped A

infixl 5 ◌>>=◌
abbrev pub ◌>>=◌ {ℓ κ} : {A : Type ℓ} {B : Type κ} → Mapped A → (A → Mapped B) → Mapped B
done a >>= f = f a
panicked >>= f = panicked
no_fuel >>= f = no_fuel

abbrev pub empty_map : StructMap
empty_map = record { index = []; paths = []; names = []; errors = [] }

-- What a field has of its parent: `Traversal`, `Offset` and `IsPtrPath`. The tree's root has none.
pub record Place : Type 0 where
  pub traversal : List Step
  pub offset : ℕ
  pub is_ptr_path : Bool

abbrev pub root_place : Place
root_place = record { traversal = []; offset = 0; is_ptr_path = false }

abbrev pub is_empty {ℓ} : {A : Type ℓ} → List A → Bool
is_empty [] = true
is_empty (x ∷ xs) = false

-- The traversal steps and the offset of a field; a pointer is one more step, and ends the offsets.
unfoldable pub place_of : Place → StructField → Place
place_of parent f =
    let is_ptr_path = if is_empty parent.traversal then false else parent.is_ptr_path in
    let steps = parent.traversal ++ (record { offset = f.offset; type = none }) ∷ [] in
    if is_pointer (kind f.type)
    then record {
      traversal = steps ++ (record { offset = 0; type = some (elem f.type) }) ∷ [];
      offset = 0;
      is_ptr_path = true;
    }
    else record {
      traversal = steps;
      offset = if is_ptr_path then 0 else parent.offset + f.offset;
      is_ptr_path = is_ptr_path;
    }

-- The number of a struct type.
abbrev pub struct_id : GoType → ℕ
struct_id (struct_type n) = n
struct_id (defined n t) = struct_id t
struct_id t = 0

abbrev pub has : List ℕ → ℕ → Bool
has [] n = false
has (m ∷ ms) n = m == n || has ms n

-- A call of `flattenFields` at a struct type: `sm`, the type, and the other arguments in order.
abbrev pub Recur : Type 0
Recur = StructMap → ℕ → Place → Bytes → List ℕ → List ℕ → Mapped (StructMap × List FieldInfo)

-- `sm.Paths[fi.Path] = fi`, `sm.Names[fi.Path] = fi`, and `sm.Names[fi.Name] = fi` if it is free.
unfoldable pub record_field : FieldInfo → StructMap → StructMap
record_field fi sm =
    let names = store fi.path fi sm.names in
    record sm {
      paths = store fi.path fi sm.paths;
      names = elim (load fi.name names) [ none ↦ store fi.name fi names | some _ ↦ names ];
    }

abbrev pub new_info : StructField → List ℕ → Place → List (Bytes × Bytes) → FieldInfo
new_info f index place options = record {
  index = index;
  path = [];
  field = f;
  name = [];
  options = options;
  embedded = false;
  traversal = place.traversal;
  offset = place.offset;
  target_type = deref f.type;
  is_ptr_path = place.is_ptr_path;
}

-- A field with its tag read: the errors are in `sm`, and `name` is empty if the tag gives none.
pub record Tagged : Type 0 where
  pub sm : StructMap
  pub info : FieldInfo
  pub name : Bytes

pub data Role : Type 0 where
  skipped embeds has_name : Role

-- `parts[0]` and `parts[1:]`.
abbrev pub first_part : List Bytes → Bytes
first_part [] = []
first_part (p ∷ ps) = p

abbrev pub further_parts : List Bytes → List Bytes
further_parts [] = []
further_parts (p ∷ ps) = ps

-- An embedded struct: its fields are flattened with the prefix of the struct around it.
unfoldable pub embedded_field :
    Recur → StructMap → FieldInfo → Place → Bytes → List ℕ → Mapped (StructMap × Option FieldInfo)
embedded_field recur sm info place prefix visited = do
  (sm', _) ← recur sm (struct_id (deref info.field.type)) place prefix info.index visited
  done (sm', some (record info { embedded = true }))

module _ (env : Setting) where
  -- `if name == "" { name = m.mapFunc(f.Name) }`; a nil function panics.
  pub mapped_name : Bytes → Bytes → Mapped Bytes
  mapped_name [] field_name = elim env.mapper.map_func [
    | none ↦ panicked
    | some g ↦ done (g field_name)
  ]
  mapped_name name field_name = done name

  -- A struct that is no `Scanner` is flattened too, with the field's path as the prefix.
  inner_fields :
      Recur
      → StructMap
      → GoType
      → Place
      → Bytes
      → List ℕ
      → List ℕ
      → Mapped (StructMap × List FieldInfo)
  inner_fields recur sm type place path index visited =
      let ft = deref type in
      if is_struct (kind ft) && not (env.scanner ft)
      then recur sm (struct_id ft) place path index visited
      else done (sm, [])

  -- A field that is no embedded struct, behind its tag.
  named_field :
      Recur
      → StructMap
      → FieldInfo
      → Bytes
      → Place
      → Bytes
      → List ℕ
      → Mapped (StructMap × Option FieldInfo)
  named_field recur sm info tag_name place prefix visited = do
    name ← mapped_name tag_name info.field.name
    let path = if is_empty prefix then name else prefix ++ (b'.' ∷ name)
    let fi = record info { path = path; name = name }
    (sm', _) ← inner_fields recur sm info.field.type place path info.index visited
    done (record_field fi sm', some fi)

  -- The body of the loop up to the tag's end, at the i-th field of the struct type `struct_name`.
  read_tag : StructMap → Bytes → Place → List ℕ → ℕ → StructField → Tagged
  read_tag sm struct_name parent index i f =
      let parts = split f.tag b',' in
      let name = if is_empty f.tag then [] else tag_mapped env (first_part parts) in
      let errors = if is_empty f.tag then [] else tag_errors env name struct_name f.name f.tag in
      let options = if is_empty f.tag then [] else options_of env (further_parts parts) [] in
      record {
        sm = record sm { errors = sm.errors ++ errors };
        info = new_info f (index ++ i ∷ []) (place_of parent f) options;
        name = name;
      }

  -- The tests on a field, in the order of the loop.
  role_of : StructField → Role
  role_of f =
      let ft = deref f.type in
      if not f.exported && not f.anonymous
      then skipped
      else if bytes_eq f.tag (codes "-")
      then skipped
      else if is_struct (kind ft) && is_empty f.tag && f.anonymous && not (env.scanner ft)
      then embeds
      else has_name

  by_role :
      Recur
      → StructMap
      → Tagged
      → Place
      → Bytes
      → List ℕ
      → Role
      → Mapped (StructMap × Option FieldInfo)
  by_role recur sm tagged place prefix visited skipped = done (sm, none)
  by_role recur sm tagged place prefix visited embeds =
      embedded_field recur tagged.sm tagged.info place prefix visited
  by_role recur sm tagged place prefix visited has_name =
      named_field recur tagged.sm tagged.info tagged.name place prefix visited

  -- The body of the loop.
  field_step :
      Recur
      → StructMap
      → Bytes
      → Place
      → Bytes
      → List ℕ
      → List ℕ
      → ℕ
      → StructField
      → Mapped (StructMap × Option FieldInfo)
  field_step recur sm struct_name parent prefix index visited i f =
      by_role recur sm (read_tag sm struct_name parent index i f) (place_of parent f) prefix visited
        (role_of f)

  pub fields_loop :
      Recur
      → StructMap
      → Bytes
      → Place
      → Bytes
      → List ℕ
      → List ℕ
      → ℕ
      → List StructField
      → Mapped (StructMap × List FieldInfo)
  fields_loop recur sm struct_name parent prefix index visited i [] = done (sm, [])
  fields_loop recur sm struct_name parent prefix index visited i (f ∷ fs) = do
    (sm', fi) ← field_step recur sm struct_name parent prefix index visited i f
    (sm'', fis) ← fields_loop recur sm' struct_name parent prefix index visited (i + 1) fs
    done (sm'', elim fi [ none ↦ fis | some x ↦ x ∷ fis ])

  -- `flattenFields`. `visited` grows with the calls and is given back by `defer delete`, so it is
  -- handed down. A number that is in no struct table has no fields.
  pub flatten_fields : ℕ → Recur
  flatten_fields zero sm t parent prefix index visited = no_fuel
  flatten_fields (suc fuel) sm t parent prefix index visited =
      let loop = λ (d : StructDef).
        fields_loop (flatten_fields fuel) sm d.name parent prefix index (t ∷ visited) 0 d.fields in
      if has visited t
      then done (sm, [])
      else elim (get_elem? env.structs t) [ none ↦ done (sm, []) | some d ↦ loop d ]

  -- `mapType`. A call visits a struct type that is not yet visited, so one more level than there
  -- are struct types is enough.
  unfoldable pub map_type : GoType → Mapped StructMap
  unfolding flatten_fields fields_loop field_step by_role role_of read_tag named_field inner_fields
      embedded_field mapped_name record_field split tag_mapped options_of tag_errors place_of load
      store
  map_type t = if not (is_struct (kind t)) then done empty_map else do
    (sm, index) ←
        flatten_fields (suc (length env.structs)) empty_map (struct_id t) root_place [] [] []
    done (record sm { index = index })
