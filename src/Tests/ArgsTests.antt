-- ===== src/Tests/ArgsTests.antt =====
-- The arguments of named queries of internal/bind/bind.go at concrete inputs.
use sqlx_v.Prelude.{
  ℕ, ◌≡◌, refl, none, true, false, [], ◌∷◌, arith, bytes_eq, codes, replicate, Lacks,
}
use sqlx_v.Errors.{ok}
use sqlx_v.GoStrings.{index_byte, last_index_byte, itoa}
use sqlx_v.SyncMap.{load, store}
use sqlx_v.Value.{
  Value, nil, basic_value, slice_value, struct_value, cons, end, basic, int, slice_of, struct_type,
}
use sqlx_v.Reflectx.Mapper.{StructField}
use sqlx_v.Reflectx.Tags.{Setting}
use sqlx_v.Reflectx.Flatten.{map_type}
use sqlx_v.Bind.Registry.{dollar}
use sqlx_v.Bind.Rebind.{rebind}
use sqlx_v.Bind.Compile.{compile}
use sqlx_v.Bind.Compile.Cache.{compile_named_query}
use sqlx_v.Bind.Args.{
  Arg, of_value, bind_fields, deref_all, bind_struct_direct, bind_args, field_by_indexes_read_only,
}
use sqlx_v.Bind.Args.Direct.{bind_struct_direct-bind_args}
use sqlx_v.Bind.Named.{bind_array}
use sqlx_v.Bind.Named.Balance.{BindsAll, bind_array-BindsAll}
use sqlx_v.Tests.Users.{empty_IsCurrent}

abbrev id_field : StructField
id_field = record {
  name = codes "Id";
  exported = true;
  anonymous = false;
  tag = codes "id";
  type = basic int;
  offset = 0;
}

abbrev setting : Setting
setting = record {
  structs = (record { name = codes "User"; fields = id_field ∷ [] }) ∷ [];
  mapper = record { map_func = none; tag_map_func = none; strict_tags = false };
  scanner = λ t. false;
  is_letter_or_digit = λ r. true;
  runes = λ s. s;
}

abbrev user : ℕ → Value
user n = struct_value (struct_type 0) (cons (basic_value (basic int) n) end)

abbrev id_of : ℕ → Arg
id_of n = of_value (basic_value (basic int) n)

user_args : bind_args setting (codes "id" ∷ []) (user 7) ≡ ok (id_of 7 ∷ [])
unfolding bind_args map_type load store bytes_eq deref_all field_by_indexes_read_only
user_args = refl

bind_struct_direct-bind_args_example :
    bind_struct_direct setting (codes "id" ∷ []) (user 7) (replicate 1 (of_value nil))
    ≡ bind_args setting (codes "id" ∷ []) (user 7)
bind_struct_direct-bind_args_example =
    bind_struct_direct-bind_args setting (codes "id" ∷ []) (user 7)

abbrev users : Value
users = slice_value (slice_of (struct_type 0)) (cons (user 7) (cons (user 8) end))

inserted :
    (bind_array setting dollar (codes "INTO t VALUES (:id)") users []).0
    ≡ ok (codes "INTO t VALUES ($1), ($2)", id_of 7 ∷ id_of 8 ∷ [])
unfolding bind_array compile_named_query compile rebind map_type load store bytes_eq deref_all
    field_by_indexes_read_only index_byte last_index_byte itoa bind_fields
inserted = refl

bind_array-BindsAll_example :
    BindsAll setting dollar (codes "INTO t VALUES ($1), ($2)") (id_of 7 ∷ id_of 8 ∷ [])
bind_array-BindsAll_example =
    bind_array-BindsAll setting dollar (codes "INTO t VALUES (:id)") users [] insert_Lacks
      empty_IsCurrent inserted
  where
    insert_Lacks : Lacks b'?' (codes "INTO t VALUES (:id)")
    insert_Lacks = omega arith
