-- ===== src/Tests/Users.antt =====
-- A struct type with one field, its struct map, and rows of numbers, for the tests.
use sqlx_v.Prelude.{arith, ℕ, true, false, none, some, List, [], ◌∷◌, ◌≡◌, refl, bytes_eq, codes}
use sqlx_v.Errors.{Result, ok}
use sqlx_v.SyncMap.{load}
use sqlx_v.Value.{GoType, basic, int, slice_of, pointer_to, struct_type, type_eq}
use sqlx_v.Reflectx.Mapper.{StructField, FieldInfo, StructMap}
use sqlx_v.Reflectx.Address.{Memory, write_cell}
use sqlx_v.Reflectx.Tags.{Setting}
use sqlx_v.Reflectx.Flatten.{done, map_type}
use sqlx_v.Reflectx.TypeMap.{type_map}
use sqlx_v.Reflectx.Flatten.Coherent.{InfoIsCoherent}
use sqlx_v.Engine.Meta.{FieldMeta, compute_meta}
use sqlx_v.Engine.Meta.Cache.{build_meta, cached_meta, keep}
use sqlx_v.Engine.Dest.{Slot, empty, discard, into, is_scannable}
use sqlx_v.Engine.Scan.{SqlRows, Caches}
use sqlx_v.Engine.Scan.Select.{Dest}
use sqlx_v.Engine.Scan.Ready.{Ready}
use sqlx_v.Bind.Compile.Cache.{IsCurrent}

abbrev pub id_field : StructField
id_field = record {
  name = codes "Id";
  exported = true;
  anonymous = false;
  tag = codes "id";
  type = basic int;
  offset = 0;
}

abbrev pub setting : Setting
setting = record {
  structs = (record { name = codes "User"; fields = id_field ∷ [] }) ∷ [];
  mapper = record { map_func = none; tag_map_func = none; strict_tags = false };
  scanner = λ t. false;
  is_letter_or_digit = λ r. true;
  runes = λ s. s;
}

abbrev pub id_info : FieldInfo
id_info = record {
  index = 0 ∷ [];
  path = codes "id";
  field = id_field;
  name = codes "id";
  options = [];
  embedded = false;
  traversal = (record { offset = 0; type = none }) ∷ [];
  offset = 0;
  target_type = basic int;
  is_ptr_path = false;
}

abbrev pub user_map : StructMap
user_map = record {
  index = id_info ∷ [];
  paths = (codes "id", id_info) ∷ [];
  names = (codes "id", id_info) ∷ [];
  errors = [];
}

pub user_map_is_mapped : map_type setting (struct_type 0) ≡ done user_map
unfolding map_type bytes_eq
user_map_is_mapped = refl

abbrev pub id_meta : List FieldMeta
id_meta =
    (record {
      traversal = (record { offset = 0; type = none }) ∷ [];
      field_type = some (basic int);
      offset = 0;
      is_ptr_path = false;
      col_index = 0;
    })
    ∷ []

abbrev pub size : GoType → ℕ
size t = 8

abbrev pub fresh : Memory
fresh = record { cell = λ p. 0; next = 1000 }

pub id_IsCoherent : InfoIsCoherent id_info
id_IsCoherent = (((refl, tt), refl), (λ e. cc), (λ e. cc))

-- The number of a row is written through the first pointer.
abbrev pub sql_scan : ℕ → List Slot → Memory → Memory × Result (Unit {0})
sql_scan n (into t p ∷ dest) m = (write_cell m p n, ok tt)
sql_scan n _ m = (m, ok tt)

pub sql_scan-ok : (n : ℕ) (dest : List Slot) (m : Memory) → (sql_scan n dest m).1 ≡ ok tt
sql_scan-ok n [] m = refl
sql_scan-ok n (empty ∷ dest) m = refl
sql_scan-ok n (discard ∷ dest) m = refl
sql_scan-ok n (into t p ∷ dest) m = refl

abbrev pub caches : Caches
caches = record { types = (struct_type 0, user_map) ∷ []; metas = [] }

abbrev pub rows_of : List ℕ → SqlRows ℕ
rows_of ns = record {
  columns = ok (codes "id" ∷ []);
  pending = ns;
  err = none;
  close_err = none;
  closes = 0;
}

pub ready : (ns : List ℕ) → Ready setting (rows_of ns) (struct_type 0) false true caches
unfolding type_map build_meta cached_meta keep compute_meta is_scannable load bytes_eq type_eq
ready ns = record {
  columns = codes "id" ∷ [];
  tm = user_map;
  meta = id_meta;
  read = refl;
  is_struct_scan = refl;
  mapped = refl;
  lenient = refl;
  known = refl;
}

abbrev pub slice : Dest
slice = record { type = some (pointer_to (slice_of (pointer_to (struct_type 0)))); target = 100 }

abbrev pub object : Dest
object = record { type = some (pointer_to (struct_type 0)); target = 200 }

pub empty_IsCurrent : IsCurrent []
empty_IsCurrent key r found = absurd (unfold load in ground arith)
