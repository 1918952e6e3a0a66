-- ===== src/Reflectx/Mapper.antt =====
-- `Mapper`, `FieldInfo`, `Step` and `StructMap`, and what the mapper reads of a struct type. `Tree`,
-- `Parent`, `Children` and `Zero` are left out: nothing reads them.
use sqlx_v.Prelude.{ℕ, Bool, false, Option, none, some, List, Bytes}
use sqlx_v.Errors.{Error}
use sqlx_v.Value.{GoType}

-- A `reflect.StructField`. `tag` is `Tag.Get` at the mapper's `tagName`.
pub record StructField : Type 0 where
  pub name : Bytes
  pub exported : Bool
  pub anonymous : Bool
  pub tag : Bytes
  pub type : GoType
  pub offset : ℕ

-- A struct type: `Name` and its fields.
pub record StructDef : Type 0 where
  pub name : Bytes
  pub fields : List StructField

-- The struct types of the program: `struct_type n` is the n-th.
abbrev pub Structs : Type 0
Structs = List StructDef

-- `mapFunc` and `tagMapFunc` may be nil. The function of the mapper's user is a Go function on strings.
pub record Mapper : Type 0 where
  pub map_func : Option (Bytes → Bytes)
  pub tag_map_func : Option (Bytes → Bytes)
  pub strict_tags : Bool

-- A step adds an offset, or loads a pointer to a value of the type, which `PtrType` is the type of.
pub record Step : Type 0 where
  pub offset : ℕ
  pub type : Option GoType

pub record FieldInfo : Type 0 where
  pub index : List ℕ
  pub path : Bytes
  pub field : StructField
  pub name : Bytes
  pub options : List (Bytes × Bytes)
  pub embedded : Bool
  pub traversal : List Step
  pub offset : ℕ
  pub target_type : GoType
  pub is_ptr_path : Bool

pub record StructMap : Type 0 where
  pub index : List FieldInfo
  pub paths : List (Bytes × FieldInfo)
  pub names : List (Bytes × FieldInfo)
  pub errors : List Error

-- `NewMapper`, and those with functions; the tag name is in the fields.
unfoldable pub new_mapper : Mapper
new_mapper = record { map_func = none; tag_map_func = none; strict_tags = false }

abbrev pub new_mapper_func : (Bytes → Bytes) → Mapper
new_mapper_func f = record { map_func = some f; tag_map_func = none; strict_tags = false }

abbrev pub new_mapper_tag_func : (Bytes → Bytes) → (Bytes → Bytes) → Mapper
new_mapper_tag_func f tag_map_func = record {
  map_func = some f;
  tag_map_func = some tag_map_func;
  strict_tags = false;
}

abbrev pub new_mapper_func_strict : (Bytes → Bytes) → Bool → Mapper
new_mapper_func_strict f strict = record {
  map_func = some f;
  tag_map_func = none;
  strict_tags = strict;
}
