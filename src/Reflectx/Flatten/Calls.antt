-- ===== src/Reflectx/Flatten/Calls.antt =====
-- The calls of `flattenFields`, for a property of computations that a value has and that a chain
-- inherits from its parts.
use sqlx_v.Prelude.{ℕ, ◌+◌, Bool, true, false, not, ◌&&◌, List, [], ◌∷◌, if◌then◌else◌, Bytes}
use sqlx_v.Value.{GoType, kind, deref, is_struct}
use sqlx_v.Reflectx.Mapper.{StructField, FieldInfo, StructMap}
use sqlx_v.Reflectx.Tags.{Setting}
use sqlx_v.Reflectx.Flatten.{
  Mapped, done, ◌>>=◌, Place, Recur, struct_id, mapped_name, inner_fields, named_field,
  embedded_field, field_step, by_role, Role, skipped, embeds, has_name, Tagged, read_tag, role_of,
  fields_loop, place_of,
}

module _ (Fine : (A : Type 0) → Mapped A → Type 0)
    (done-Fine : (A : Type 0) (a : A) → Fine A (done a))
    (bind-Fine : (A B : Type 0) (m : Mapped A) (f : A → Mapped B)
      → Fine A m
      → ((a : A) → Fine B (f a))
      → Fine B (m >>= f)) where
  -- The calls with this list of visited types are fine.
  abbrev pub Calls : Recur → List ℕ → Type 0
  Calls recur visited =
      (sm : StructMap) (t : ℕ) (parent : Place) (prefix : Bytes) (index : List ℕ)
      → Fine _ (recur sm t parent prefix index visited)

  pub if-Fine :
      {A : Type 0} (b : Bool) (x y : Mapped A) → Fine A x → Fine A y → Fine A (if b then x else y)
  if-Fine true x y h k = h
  if-Fine false x y h k = k

  module _ (env : Setting) (recur : Recur) (visited : List ℕ) (calls : Calls recur visited)
      (named : (a b : Bytes) → Fine Bytes (mapped_name env a b)) where
    inner_fields-Fine :
        (sm : StructMap) (type : GoType) (place : Place) (path : Bytes) (index : List ℕ)
        → Fine _ (inner_fields env recur sm type place path index visited)
    unfolding inner_fields
    inner_fields-Fine sm type place path index =
        if-Fine (is_struct (kind (deref type)) && not (env.scanner (deref type))) _ _
          (calls sm (struct_id (deref type)) place path index) (done-Fine _ _)

    named_field-Fine :
        (sm : StructMap) (info : FieldInfo) (tag_name : Bytes) (place : Place) (prefix : Bytes)
        → Fine _ (named_field env recur sm info tag_name place prefix visited)
    unfolding named_field
    named_field-Fine sm info tag_name place prefix =
        bind-Fine _ _ (mapped_name env tag_name info.field.name) _ (named tag_name info.field.name)
          λ name.
            bind-Fine _ _ (inner_fields env recur sm info.field.type place _ info.index visited) _
              (inner_fields-Fine sm info.field.type place _ info.index) (λ r. done-Fine _ _)

    embedded_field-Fine :
        (sm : StructMap) (info : FieldInfo) (place : Place) (prefix : Bytes)
        → Fine _ (embedded_field recur sm info place prefix visited)
    unfolding embedded_field
    embedded_field-Fine sm info place prefix =
        bind-Fine _ _ (recur sm _ place prefix info.index visited) _ (calls _ _ _ _ _)
          (λ r. done-Fine _ _)

    by_role-Fine :
        (sm : StructMap) (tagged : Tagged) (place : Place) (prefix : Bytes) (role : Role)
        → Fine _ (by_role env recur sm tagged place prefix visited role)
    unfolding by_role
    by_role-Fine sm tagged place prefix skipped = done-Fine _ _
    by_role-Fine sm tagged place prefix embeds =
        embedded_field-Fine tagged.sm tagged.info place prefix
    by_role-Fine sm tagged place prefix has_name =
        named_field-Fine tagged.sm tagged.info tagged.name place prefix

    field_step-Fine :
        (sm : StructMap) (struct_name : Bytes) (parent : Place) (prefix : Bytes) (index : List ℕ)
        (i : ℕ) (f : StructField)
        → Fine _ (field_step env recur sm struct_name parent prefix index visited i f)
    unfolding field_step
    field_step-Fine sm struct_name parent prefix index i f =
        by_role-Fine sm (read_tag env sm struct_name parent index i f) (place_of parent f) prefix
          (role_of env f)

    pub fields_loop-Fine :
        (fs : List StructField) (sm : StructMap) (struct_name : Bytes) (parent : Place)
        (prefix : Bytes) (index : List ℕ) (i : ℕ)
        → Fine _ (fields_loop env recur sm struct_name parent prefix index visited i fs)
    unfolding fields_loop
    fields_loop-Fine [] sm struct_name parent prefix index i = done-Fine _ _
    fields_loop-Fine (f ∷ fs) sm struct_name parent prefix index i =
        bind-Fine _ _ (field_step env recur sm struct_name parent prefix index visited i f) _
          (field_step-Fine sm struct_name parent prefix index i f)
          λ r.
            bind-Fine _ _
              (fields_loop env recur r.0 struct_name parent prefix index visited (i + 1) fs) _
              (fields_loop-Fine fs r.0 struct_name parent prefix index (i + 1)) (λ q. done-Fine _ _)
