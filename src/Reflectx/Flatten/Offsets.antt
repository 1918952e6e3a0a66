-- ===== src/Reflectx/Flatten/Offsets.antt =====
-- The offset that `flattenFields` records is the sum of the steps that it records.
use sqlx_v.Prelude.{
  ℕ, zero, suc, ◌+◌, Bool, true, false, not, ◌&&◌, Option, none, some, List, [], ◌∷◌, refl,
  if◌then◌else◌, Bytes, get_elem?, length,
}
use sqlx_v.SyncMap.{bytes_key}
use sqlx_v.Value.{GoType, kind, deref, is_struct}
use sqlx_v.Reflectx.Mapper.{StructField, StructDef, FieldInfo, StructMap}
use sqlx_v.Reflectx.Tags.{Setting}
use sqlx_v.Reflectx.Flatten.{
  Mapped, done, panicked, no_fuel, ◌>>=◌, Place, root_place, empty_map, has, Recur, struct_id,
  mapped_name, inner_fields, named_field, embedded_field, field_step, by_role, Role, skipped,
  embeds, has_name, Tagged, read_tag, role_of, fields_loop, flatten_fields, map_type, place_of,
}
use sqlx_v.Reflectx.Flatten.Coherent.{
  PlaceIsCoherent, InfoIsCoherent, MapIsCoherent, place_of-IsCoherent, append-nonempty,
  place_of-walks, record_field-IsCoherent,
}

-- A computation whose value, if there is one, has the property.
abbrev pub Gives {ℓ κ} : {A : Type ℓ} → (A → Type κ) → Mapped A → Type κ
Gives P (done a) = P a
Gives P panicked = Unit
Gives P no_fuel = Unit

>>=-Gives {ℓ κ μ ν} :
    {A : Type ℓ} {B : Type κ} (P : A → Type μ) (Q : B → Type ν) (m : Mapped A) (f : A → Mapped B)
    → Gives P m
    → ((a : A) → P a → Gives Q (f a))
    → Gives Q (m >>= f)
>>=-Gives P Q (done a) f h k = k a h
>>=-Gives P Q panicked f h k = tt
>>=-Gives P Q no_fuel f h k = tt

always {ℓ} : {A : Type ℓ} (m : Mapped A) → Gives (λ _. Unit {0}) m
always (done a) = tt
always panicked = tt
always no_fuel = tt

abbrev FirstIsCoherent {ℓ} : {A : Type ℓ} → StructMap × A → Type 0
FirstIsCoherent r = MapIsCoherent r.0

-- The calls with this list of visited types keep the map coherent.
abbrev Keeps : Recur → List ℕ → Type 0
Keeps recur visited =
    (sm : StructMap) (t : ℕ) (parent : Place) (prefix : Bytes) (index : List ℕ)
    → MapIsCoherent sm
    → PlaceIsCoherent parent
    → Gives FirstIsCoherent (recur sm t parent prefix index visited)

if-Gives {ℓ κ} :
    {A : Type ℓ} (P : A → Type κ) (b : Bool) (x y : Mapped A)
    → Gives P x
    → Gives P y
    → Gives P (if b then x else y)
if-Gives P true x y h k = h
if-Gives P false x y h k = k

module _ (env : Setting) (recur : Recur) (visited : List ℕ) (keeps : Keeps recur visited) where
  inner_fields-Keeps :
      (sm : StructMap) (type : GoType) (place : Place) (path : Bytes) (index : List ℕ)
      → MapIsCoherent sm
      → PlaceIsCoherent place
      → Gives FirstIsCoherent (inner_fields env recur sm type place path index visited)
  unfolding inner_fields
  inner_fields-Keeps sm type place path index hm hp =
      if-Gives FirstIsCoherent (is_struct (kind (deref type)) && not (env.scanner (deref type))) _ _
        (keeps sm (struct_id (deref type)) place path index hm hp) hm

  named_field-Keeps :
      (sm : StructMap) (info : FieldInfo) (tag_name : Bytes) (place : Place) (prefix : Bytes)
      → MapIsCoherent sm
      → PlaceIsCoherent place
      → InfoIsCoherent info
      → Gives FirstIsCoherent (named_field env recur sm info tag_name place prefix visited)
  unfolding named_field
  named_field-Keeps sm info tag_name place prefix hm hp hi =
      >>=-Gives (λ _. Unit {0}) FirstIsCoherent (mapped_name env tag_name info.field.name) _
        (always _)
        λ name _.
          >>=-Gives FirstIsCoherent FirstIsCoherent
            (inner_fields env recur sm info.field.type place _ info.index visited) _
            (inner_fields-Keeps sm info.field.type place _ info.index hm hp)
            (λ r h. record_field-IsCoherent _ r.0 hi h)

  embedded_field-Keeps :
      (sm : StructMap) (info : FieldInfo) (place : Place) (prefix : Bytes)
      → MapIsCoherent sm
      → PlaceIsCoherent place
      → Gives FirstIsCoherent (embedded_field recur sm info place prefix visited)
  unfolding embedded_field
  embedded_field-Keeps sm info place prefix hm hp =
      >>=-Gives FirstIsCoherent FirstIsCoherent (recur sm _ place prefix info.index visited) _
        (keeps sm _ place prefix info.index hm hp) (λ r h. h)

  by_role-Keeps :
      (sm : StructMap) (tagged : Tagged) (place : Place) (prefix : Bytes) (role : Role)
      → MapIsCoherent sm
      → MapIsCoherent tagged.sm
      → PlaceIsCoherent place
      → InfoIsCoherent tagged.info
      → Gives FirstIsCoherent (by_role env recur sm tagged place prefix visited role)
  unfolding by_role
  by_role-Keeps sm tagged place prefix skipped hm ht hp hi = hm
  by_role-Keeps sm tagged place prefix embeds hm ht hp hi =
      embedded_field-Keeps tagged.sm tagged.info place prefix ht hp
  by_role-Keeps sm tagged place prefix has_name hm ht hp hi =
      named_field-Keeps tagged.sm tagged.info tagged.name place prefix ht hp hi

  field_step-Keeps :
      (sm : StructMap) (struct_name : Bytes) (parent : Place) (prefix : Bytes) (index : List ℕ)
      (i : ℕ) (f : StructField)
      → MapIsCoherent sm
      → PlaceIsCoherent parent
      → Gives FirstIsCoherent (field_step env recur sm struct_name parent prefix index visited i f)
  unfolding field_step read_tag
  field_step-Keeps sm struct_name parent prefix index i f hm hp =
      let here = place_of-IsCoherent parent f hp in
      by_role-Keeps sm (read_tag env sm struct_name parent index i f) (place_of parent f) prefix
        (role_of env f) hm (record { paths = hm.paths; names = hm.names }) here
        (here, place_of-walks parent f, append-nonempty index i)

  fields_loop-Keeps :
      (fs : List StructField) (sm : StructMap) (struct_name : Bytes) (parent : Place)
      (prefix : Bytes) (index : List ℕ) (i : ℕ)
      → MapIsCoherent sm
      → PlaceIsCoherent parent
      → Gives FirstIsCoherent
          (fields_loop env recur sm struct_name parent prefix index visited i fs)
  unfolding fields_loop
  fields_loop-Keeps [] sm struct_name parent prefix index i hm hp = hm
  fields_loop-Keeps (f ∷ fs) sm struct_name parent prefix index i hm hp =
      >>=-Gives FirstIsCoherent FirstIsCoherent
        (field_step env recur sm struct_name parent prefix index visited i f) _
        (field_step-Keeps sm struct_name parent prefix index i f hm hp)
        λ r h.
          >>=-Gives FirstIsCoherent FirstIsCoherent
            (fields_loop env recur r.0 struct_name parent prefix index visited (i + 1) fs) _
            (fields_loop-Keeps fs r.0 struct_name parent prefix index (i + 1) h hp) (λ q g. g)

module _ (env : Setting) where
  flatten_fields-Keeps : (fuel : ℕ) (visited : List ℕ) → Keeps (flatten_fields env fuel) visited
  unfolding flatten_fields
  flatten_fields-Keeps zero visited sm t parent prefix index hm hp = tt
  flatten_fields-Keeps (suc fuel) visited sm t parent prefix index hm hp =
      if-Gives FirstIsCoherent (has visited t) _ _ hm
        (known (flatten_fields-Keeps fuel (t ∷ visited)) (get_elem? env.structs t))
    where
      known :
          Keeps (flatten_fields env fuel) (t ∷ visited)
          → (o : Option StructDef)
          → Gives FirstIsCoherent (elim o as (λ _. Mapped (StructMap × List FieldInfo)) [
            | none ↦ done (sm, [])
            | some d ↦
                fields_loop env
                  (flatten_fields env fuel)
                  sm
                  d.name
                  parent
                  prefix
                  index
                  (t ∷ visited)
                  0
                  d.fields
          ])
      known keeps none = hm
      known keeps (some d) =
          fields_loop-Keeps env (flatten_fields env fuel) (t ∷ visited) keeps d.fields sm d.name
            parent prefix index 0 hm hp

  -- What `mapType` returns is coherent: each name and path in it has steps and indexes; if it is
  -- reached through no pointer, the steps load none and the offset is the sum of their offsets; for
  -- the others the offset is 0.
  pub map_type-IsCoherent : (t : GoType) → Gives MapIsCoherent (map_type env t)
  unfolding map_type
  map_type-IsCoherent t = if-Gives MapIsCoherent (not (is_struct (kind t))) _ _ start (
      >>=-Gives FirstIsCoherent MapIsCoherent
        (flatten_fields env (suc (length env.structs)) empty_map (struct_id t) root_place [] [] [])
        _
        (flatten_fields-Keeps (suc (length env.structs)) [] empty_map (struct_id t) root_place [] []
          start (tt, refl))
        (λ r h. record { paths = h.paths; names = h.names }))
    where
      start : MapIsCoherent empty_map
      start = record { paths = tt; names = tt }
