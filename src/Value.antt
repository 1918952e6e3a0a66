-- ===== src/Value.antt =====
-- Go types and values as `reflect` shows them.
use sqlx_v.Prelude.{
  ℕ, Bool, true, false, Option, none, some, List, [], ◌∷◌, if◌then◌else◌, Bytes, ◌≡◌, ◌↔◌, refl,
  arith,
}
use native.Mathlib.Decide.{ℕ_discrete}

-- The kinds of types with no parts. `other_kind` is any of the rest: complex numbers, channels,
-- functions, interfaces, unsafe pointers.
pub data BasicKind : Type 0 where
  string bool : BasicKind
  int int8 int16 int32 int64 : BasicKind
  uint uint8 uint16 uint32 uint64 : BasicKind
  float32 float64 : BasicKind
  interface other_kind : BasicKind

-- A `reflect.Type`. A struct type is a number, which a table of struct types explains, since a
-- struct type may mention itself. `defined n t` is a defined type that is no struct.
pub data GoType : Type 0 where
  basic : BasicKind → GoType
  slice_of : GoType → GoType
  array_of : GoType → GoType
  pointer_to : GoType → GoType
  map_of : GoType → GoType → GoType
  struct_type : ℕ → GoType
  defined : ℕ → GoType → GoType

pub data Kind : Type 0 where
  basic_kind : BasicKind → Kind
  slice array pointer map struct : Kind

-- `Type.Kind`.
abbrev pub kind : GoType → Kind
kind (basic k) = basic_kind k
kind (slice_of t) = slice
kind (array_of t) = array
kind (pointer_to t) = pointer
kind (map_of k t) = map
kind (struct_type n) = struct
kind (defined n t) = kind t

-- `Type.Elem` of a pointer type.
abbrev pub elem : GoType → GoType
elem (pointer_to t) = t
elem (defined n t) = elem t
elem t = t

-- `Type.Elem` of a slice type.
abbrev pub slice_elem : GoType → GoType
slice_elem (slice_of t) = t
slice_elem (defined n t) = slice_elem t
slice_elem t = t

abbrev pub is_pointer : Kind → Bool
is_pointer pointer = true
is_pointer _ = false

abbrev pub is_slice : Kind → Bool
is_slice slice = true
is_slice _ = false

abbrev pub is_struct : Kind → Bool
is_struct struct = true
is_struct _ = false

-- `reflectx.Deref`: one pointer is taken off the type.
abbrev pub deref : GoType → GoType
deref t = if is_pointer (kind t) then elem t else t

-- `reflect.TypeFor[[]byte]()`.
abbrev pub bytes_type : GoType
bytes_type = slice_of (basic uint8)

abbrev pub is_bytes_type : GoType → Bool
is_bytes_type (slice_of (basic uint8)) = true
is_bytes_type _ = false

-- Go's `==` on types.
pub GoType-discrete : Discrete GoType
GoType-discrete = hlevel ℕ_discrete

unfoldable pub type_eq : GoType → GoType → Bool
unfolding GoType-discrete ℕ_discrete
type_eq a b = elim (GoType-discrete a b) [ yes _ ↦ true | no _ ↦ false ]

pub type_eq_iff : (a b : GoType) → (type_eq a b ≡ true) ↔ (a ≡ b)
unfolding type_eq
type_eq_iff a b = ground arith

type_eq_test : type_eq (slice_of (basic int)) (slice_of (basic int)) ≡ true
unfolding type_eq
type_eq_test = refl

-- An `any`, or a `reflect.Value` that is valid. `nil` is the nil interface; each other value holds
-- its type, a pointer the type that it points to. The parts of a value are what `Interface` gives
-- of them. The number of a basic value tells it from the others of its type.
mutual
  pub data Value : Type 0 where
    nil : Value
    basic_value : GoType → ℕ → Value
    slice_value : GoType → Values → Value
    array_value : GoType → Values → Value
    pointer_value : GoType → Value → Value
    nil_pointer : GoType → Value
    struct_value : GoType → Values → Value
    map_value : GoType → Entries → Value

  pub data Values : Type 0 where
    end : Values
    cons : Value → Values → Values

  pub data Entries : Type 0 where
    no_entry : Entries
    entry : Bytes → Value → Entries → Entries

abbrev pub to_list : Values → List Value
to_list end = []
to_list (cons v vs) = v ∷ to_list vs

abbrev pub from_list : List Value → Values
from_list [] = end
from_list (v ∷ vs) = cons v (from_list vs)

-- `reflect.TypeOf`, with `none` for nil.
abbrev pub type_of : Value → Option GoType
type_of nil = none
type_of (basic_value t n) = some t
type_of (slice_value t vs) = some t
type_of (array_value t vs) = some t
type_of (pointer_value t v) = some (pointer_to t)
type_of (nil_pointer t) = some (pointer_to t)
type_of (struct_value t vs) = some t
type_of (map_value t es) = some t
