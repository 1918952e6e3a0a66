-- ===== src/Tests/ScanTests.antt =====
-- internal/reflectx/reflectx.go and engine.go at concrete inputs.
use sqlx_v.Prelude.{
  ℕ, Bool, true, false, none, some, List, [], ◌∷◌, ◌≡◌, ◌≢◌, refl, arith, map, bytes_eq, Bytes,
  codes,
}
use sqlx_v.Errors.{ok}
use sqlx_v.SyncMap.{load}
use sqlx_v.Value.{GoType, basic, int, string, pointer_to, struct_type}
use sqlx_v.Reflectx.Mapper.{StructField, Structs, Step, FieldInfo, StructMap}
use sqlx_v.Reflectx.Address.{Memory, addr_by_traversal}
use sqlx_v.Reflectx.Tags.{Setting}
use sqlx_v.Reflectx.Flatten.{Mapped, done, no_fuel, map_type, empty_map}
use sqlx_v.Reflectx.Flatten.Fuel.{map_type-ends}
use sqlx_v.Reflectx.Flatten.Total.{map_type-done}
use sqlx_v.Reflectx.Flatten.Coherent.{MapIsCoherent}
use sqlx_v.Reflectx.Flatten.Offsets.{Gives, map_type-IsCoherent}
use sqlx_v.Engine.Meta.{FieldMeta, sort_by_offset, compute_meta}
use sqlx_v.Engine.Meta.Order.{Falling, sort_by_offset-Falling}
use sqlx_v.Engine.Meta.Cache.{
  IsCurrent, build_meta, build_meta-IsCurrent, build_meta-other_mapper, cached_meta, keep,
}
use mathlib.Core.List.{Perm}

abbrev field : Bytes → GoType → ℕ → StructField
field name type offset = record {
  name = name;
  exported = true;
  anonymous = false;
  tag = name;
  type = type;
  offset = offset;
}

-- A user has an id, a parent, who is a user, and an address, which has a city.
abbrev structs : Structs
structs =
    (record {
      name = codes "User";
      fields =
          field (codes "id") (basic int) 0
          ∷ field (codes "parent") (pointer_to (struct_type 0)) 8
          ∷ field (codes "addr") (struct_type 1) 16
          ∷ [];
    })
    ∷ (record {
      name = codes "Addr";
      fields = field (codes "zip") (basic int) 0 ∷ field (codes "city") (basic string) 8 ∷ [];
    })
    ∷ []

abbrev setting : Setting
setting = record {
  structs = structs;
  mapper = record { map_func = none; tag_map_func = none; strict_tags = false };
  scanner = λ t. false;
  is_letter_or_digit = λ r. true;
  runes = λ s. s;
}

map_type-ends_example : map_type setting (struct_type 0) ≢ no_fuel
map_type-ends_example = map_type-ends setting (struct_type 0)

map_type-IsCoherent_example : Gives MapIsCoherent (map_type setting (struct_type 0))
map_type-IsCoherent_example = map_type-IsCoherent setting (struct_type 0)

abbrev paths_of : Mapped StructMap → List (Bytes × ℕ × Bool)
paths_of (done sm) = map (λ kv. (kv.0, kv.1.offset, kv.1.is_ptr_path)) sm.paths
paths_of _ = []

user_paths :
    paths_of (map_type setting (struct_type 0))
    ≡ (codes "id", 0, false)
      ∷ (codes "parent", 0, true)
      ∷ (codes "addr.zip", 16, false)
      ∷ (codes "addr.city", 24, false)
      ∷ (codes "addr", 16, false)
      ∷ []
unfolding map_type bytes_eq
user_paths = refl

abbrev flat_steps : List Step
flat_steps = (record { offset = 16; type = none }) ∷ (record { offset = 8; type = none }) ∷ []

abbrev fresh : Memory
fresh = record { cell = λ p. 0; next = 1000 }

-- A nil pointer on the way is set to a new value.
allocated :
    (addr_by_traversal
      (λ t. 8)
      100
      ((record { offset = 8; type = none })
        ∷ (record { offset = 0; type = some (struct_type 0) })
        ∷ (record { offset = 4; type = none })
        ∷ [])
      fresh).0
    ≡ 1004
unfolding addr_by_traversal
allocated = refl

abbrev meta_at : ℕ → ℕ → FieldMeta
meta_at o i = record {
  traversal = [];
  field_type = none;
  offset = o;
  is_ptr_path = false;
  col_index = i;
}

sort_by_offset-Falling_example :
    Falling (sort_by_offset (meta_at 0 0 ∷ meta_at 8 1 ∷ []))
    × Perm (sort_by_offset (meta_at 0 0 ∷ meta_at 8 1 ∷ [])) (meta_at 0 0 ∷ meta_at 8 1 ∷ [])
sort_by_offset-Falling_example = sort_by_offset-Falling (meta_at 0 0 ∷ meta_at 8 1 ∷ [])

sorted :
    map (λ m. m.col_index) (sort_by_offset (meta_at 0 0 ∷ meta_at 8 1 ∷ meta_at 0 2 ∷ []))
    ≡ 1 ∷ 0 ∷ 2 ∷ []
unfolding sort_by_offset
sorted = refl

empty_cache_IsCurrent : IsCurrent (λ t. codes "User") (λ t. empty_map) []
empty_cache_IsCurrent key v found = absurd (unfold load in ground arith)

build_meta-IsCurrent_example :
    ((build_meta (struct_type 0) (codes "User") (codes "id" ∷ []) empty_map true []).0
      ≡ compute_meta (codes "User") empty_map true (codes "id" ∷ []))
    × IsCurrent
        (λ t. codes "User")
        (λ t. empty_map)
        (build_meta (struct_type 0) (codes "User") (codes "id" ∷ []) empty_map true []).1
build_meta-IsCurrent_example =
    build_meta-IsCurrent (λ t. codes "User") (λ t. empty_map) (struct_type 0) (codes "id" ∷ []) true
      [] empty_cache_IsCurrent

abbrev id_info : FieldInfo
id_info = record {
  index = 0 ∷ [];
  path = codes "id";
  field = field (codes "id") (basic int) 0;
  name = codes "id";
  options = [];
  embedded = false;
  traversal = (record { offset = 0; type = none }) ∷ [];
  offset = 0;
  target_type = basic int;
  is_ptr_path = false;
}

abbrev id_map : StructMap
id_map = record {
  index = id_info ∷ [];
  paths = (codes "id", id_info) ∷ [];
  names = (codes "id", id_info) ∷ [];
  errors = [];
}

-- The second mapper knows no column `id`, so that its call should fail.
build_meta-other_mapper_example :
    (build_meta
      (struct_type 0)
      (codes "User")
      (codes "id" ∷ [])
      empty_map
      false
      (build_meta (struct_type 0) (codes "User") (codes "id" ∷ []) id_map false []).1).0
    ≡ ok (
        (record {
          traversal = (record { offset = 0; type = none }) ∷ [];
          field_type = some (basic int);
          offset = 0;
          is_ptr_path = false;
          col_index = 0;
        })
        ∷ [])
unfolding build_meta cached_meta keep compute_meta load bytes_eq
build_meta-other_mapper_example =
    build_meta-other_mapper (struct_type 0) (codes "User") (codes "id" ∷ []) id_map empty_map false
      [] refl

abbrev keep_name : Bytes → Bytes
keep_name s = s

abbrev named_setting : Setting
named_setting = record {
  structs = structs;
  mapper = record { map_func = some keep_name; tag_map_func = none; strict_tags = false };
  scanner = λ t. false;
  is_letter_or_digit = λ r. true;
  runes = λ s. s;
}

map_type-done_example : (sm : StructMap) × (map_type named_setting (struct_type 0) ≡ done sm)
map_type-done_example = map_type-done named_setting keep_name refl (struct_type 0)
