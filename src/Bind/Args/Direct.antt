-- ===== src/Bind/Args/Direct.antt =====
-- `bindStructDirect` against `bindArgs`.
use sqlx_v.Prelude.{
  ℕ, zero, suc, ◌+◌, Bool, List, [], ◌∷◌, ◌++◌, ◌≡◌, ◌≢◌, refl, ap, subst, ◌∙◌, inl, inr, arith,
  Bytes, set, length, length-append, replicate, String, Option-cases, append_assoc, All,
}
use sqlx_v.Errors.{Result, ok, fail, panics, ◌>>=◌, Result-cases}
use sqlx_v.SyncMap.{load, bytes_key}
use sqlx_v.Value.{deref, Value, nil}
use sqlx_v.Reflectx.Mapper.{FieldInfo, StructMap}
use sqlx_v.Reflectx.Tags.{Setting}
use sqlx_v.Reflectx.Flatten.{Mapped, done, panicked, no_fuel, map_type}
use sqlx_v.Reflectx.Flatten.Coherent.{InfoIsCoherent, MapIsCoherent, load-All}
use sqlx_v.Reflectx.Flatten.Offsets.{Gives, map_type-IsCoherent}
use sqlx_v.Bind.Args.{
  Arg, of_value, field_by_indexes_read_only, type_map_of, interfaced, read_traversal,
  traversals_by_name, bind_fields, in_value, target_of, bind_args, direct_loop, bind_struct_direct,
}

set-append :
    (pre rest : List Arg) (r a : Arg)
    → set (pre ++ r ∷ rest) (length pre) a ≡ (pre ++ a ∷ []) ++ rest
set-append [] rest r a = refl
set-append (x ∷ pre) rest r a = ap (◌∷◌ x) (set-append pre rest r a)

read_traversal-nonempty :
    (env : Setting) (format : String) (v : Value) (name : Bytes) (exported : Bool) (index : List ℕ)
    → index ≢ []
    → read_traversal env format v name exported index
      ≡ interfaced exported (field_by_indexes_read_only env.structs (of_value v) index)
unfolding read_traversal
read_traversal-nonempty env format v name exported [] h = absurd (h refl)
read_traversal-nonempty env format v name exported (i ∷ index) h = refl

-- The arguments behind those that are there.
abbrev put_behind : List Arg → Result (List Arg) → Result (List Arg)
put_behind pre r = r >>= λ args. ok (pre ++ args)

put_behind-cons :
    (pre : List Arg) (a : Arg) (r : Result (List Arg))
    → put_behind (pre ++ a ∷ []) r ≡ put_behind pre (r >>= λ args. ok (a ∷ args))
put_behind-cons pre a (ok args) = ap ok (append_assoc pre (a ∷ []) args)
put_behind-cons pre a (fail e) = refl
put_behind-cons pre a panics = refl

module _ (env : Setting) (tm : StructMap) (v : Value)
    (indexed : All (λ kv. InfoIsCoherent kv.1) tm.names) where
  abbrev Agree : List Bytes → Type 0
  Agree names =
      (pre rest : List Arg)
      → length rest ≡ length names
      → direct_loop env tm v (length pre) names (pre ++ rest)
        ≡ put_behind pre (traversals_by_name env (in_value env) tm v names)

  direct_loop-read :
      (name : Bytes) (names : List Bytes) (fi : FieldInfo) (pre rest : List Arg) (r : Arg)
      (read : Result Arg)
      → Agree names
      → length rest ≡ length names
      → (read >>= λ a.
          direct_loop env tm v (length pre + 1) names (set (pre ++ r ∷ rest) (length pre) a))
        ≡ put_behind pre (
            read >>= λ a.
            traversals_by_name env (in_value env) tm v names >>= λ args. ok (a ∷ args))
  direct_loop-read name names fi pre rest r (ok a) agree fit =
      let i : length pre + 1 ≡ length (pre ++ a ∷ []) = omega (arith, length-append pre (a ∷ [])) in
      rw (set-append pre rest r a, i)
        (agree (pre ++ a ∷ []) rest fit
          ∙ put_behind-cons pre a (traversals_by_name env (in_value env) tm v names))
  direct_loop-read name names fi pre rest r (fail e) agree fit = refl
  direct_loop-read name names fi pre rest r panics agree fit = refl

  direct_loop-traversals : (names : List Bytes) → Agree names
  unfolding direct_loop traversals_by_name
  direct_loop-traversals [] pre [] fit = refl
  direct_loop-traversals [] pre (r ∷ rest) fit = absurd (ground arith)
  direct_loop-traversals (name ∷ names) pre [] fit = absurd (ground arith)
  direct_loop-traversals (name ∷ names) pre (r ∷ rest) fit =
      elim (Option-cases (load name tm.names)) [
        | inl gone ↦ rw (gone, direct_loop, traversals_by_name) (unfold read_traversal in refl)
        | inr (fi, found) ↦
            let known = load-All InfoIsCoherent name tm.names indexed found in
            rw
              (
                found,
                direct_loop,
                traversals_by_name,
                read_traversal-nonempty env (in_value env) v name fi.field.exported fi.index
                    known.2,
              )
              (direct_loop-read name names fi pre rest r
                (interfaced fi.field.exported
                  (field_by_indexes_read_only env.structs (of_value v) fi.index))
                (direct_loop-traversals names) (ground (arith, fit)))
      ]

map_type-names :
    (m : Mapped StructMap) {tm : StructMap}
    → Gives MapIsCoherent m
    → elim m as (λ _. Result StructMap) [ done sm ↦ ok sm | panicked ↦ panics | no_fuel ↦ panics ]
      ≡ ok tm
    → All (λ kv. InfoIsCoherent kv.1) tm.names
map_type-names (done sm) {tm} h e =
    let same : sm ≡ tm = ground arith in
    subst (λ (tm : StructMap). All {A = Bytes × FieldInfo} (λ kv. InfoIsCoherent kv.1) tm.names)
      same h.names
map_type-names panicked {tm} h e = absurd (ground arith)
map_type-names no_fuel {tm} h e = absurd (ground arith)

nothing_before : (r : Result (List Arg)) → put_behind [] r ≡ r
nothing_before (ok args) = refl
nothing_before (fail e) = refl
nothing_before panics = refl

length-replicate_arg : (n : ℕ) (a : Arg) → length (replicate n a) ≡ n
length-replicate_arg zero a = refl
length-replicate_arg (suc n) a = ap suc (length-replicate_arg n a)

-- The direct binding of a struct into a list with a place for each name is that of `bindArgs`: the
-- same arguments in the order of the names, the same error at the first name without a field, and a
-- panic at the same arguments.
pub bind_struct_direct-bind_args :
    (env : Setting) (names : List Bytes) (arg : Value)
    → bind_struct_direct env names arg (replicate (length names) (of_value nil))
      ≡ bind_args env names arg
unfolding bind_struct_direct bind_args bind_fields
bind_struct_direct-bind_args env names arg = elim (Option-cases (target_of env arg)) [
  | inl invalid ↦ rw (invalid, bind_struct_direct, bind_args, bind_fields) refl
  | inr ((t, v), target) ↦ elim (Result-cases (type_map_of env t)) [
    | inl (tm, mapped) ↦
        rw (target, bind_struct_direct, bind_args, bind_fields, mapped)
          (direct_loop-traversals env tm v
              (map_type-names (map_type env (deref t)) (map_type-IsCoherent env (deref t)) mapped)
              names [] _ (length-replicate_arg (length names) (of_value nil))
            ∙ nothing_before _)
    | inr (inl (e, mapped)) ↦ rw (target, bind_struct_direct, bind_args, bind_fields, mapped) refl
    | inr (inr mapped) ↦ rw (target, bind_struct_direct, bind_args, bind_fields, mapped) refl
  ]
]
