-- ===== src/Bind/Named.antt =====
-- `bindStruct`, `bindArray` and `bindNamedMapper`, each with the compile cache before and behind it.
pub mod Spread
pub mod Balance
pub mod Struct
use sqlx_v.Prelude.{
  ℕ, zero, suc, ◌+◌, Bool, true, false, Option, none, some, List, [], ◌∷◌, ◌++◌, ◌≡◌, refl, ap, ◌∙◌,
  arith, ◌==◌, if◌then◌else◌, Bytes, codes, length, replicate, take, drop, String,
}
use sqlx_v.Errors.{
  Error, bind_mismatch, unsupported_type, no_rows, errorf, Result, ok, fail, panics, ◌>>=◌, wrap,
}
use sqlx_v.GoStrings.{index_byte, last_index_byte}
use sqlx_v.Value.{
  BasicKind, string, GoType, slice_of, array_of, pointer_to, map_of, defined, Kind, basic_kind,
  slice, array, map, struct, kind, is_pointer, is_struct, Value, nil, slice_value, array_value,
  Entries, to_list, type_of,
}
use sqlx_v.Reflectx.Tags.{Setting}
use sqlx_v.Bind.Registry.{question}
use sqlx_v.Bind.Rebind.{rebind}
use sqlx_v.Bind.Compile.Cache.{CompileResult, CompileCache, compile_named_query}
use sqlx_v.Bind.Args.{
  Arg, of_value, deref_all, convert_map_string_interface, bind_map_args, bind_fields,
  bind_struct_direct,
}

-- A call that returns a query and its arguments, and leaves the cache.
abbrev pub Bound : Type 0
Bound = Result (Bytes × List Arg) × CompileCache

-- `strings.Join(groups, ", ")` of `n` times the same group.
abbrev pub join_groups : ℕ → Bytes → Bytes
join_groups zero group = []
join_groups (suc zero) group = group
join_groups (suc (suc n)) group = group ++ (codes ", " ++ join_groups (suc n) group)

abbrev pub no_parentheses : Error
no_parentheses =
    errorf
      "sqlx: slice binding is only valid for queries where parameters are enclosed in parentheses, like INSERT: %w"
      [] bind_mismatch

-- The query with the group around its `?` repeated, `open_p` and `close_p` known.
abbrev pub repeat_group : ℕ → Bytes → ℕ → ℕ → Bytes
repeat_group n u open_p close_p =
    take open_p u ++ (join_groups n (drop open_p (take (close_p + 1) u)) ++ drop (close_p + 1) u)

-- The third step of `bindArray`, for `n` elements.
unfoldable pub spread : ℕ → Bytes → Result Bytes
spread n u = elim (index_byte b'?' u) [
  | none ↦ ok u
  | some first_q ↦ elim (last_index_byte b'?' u) [
    | none ↦ ok u
    | some last_q ↦ elim (last_index_byte b'(' (take first_q u)) [
      | none ↦ fail no_parentheses
      | some open_p ↦ elim (index_byte b')' (drop last_q u)) [
        | none ↦ fail no_parentheses
        | some close_p ↦ ok (repeat_group n u open_p (close_p + last_q))
      ]
    ]
  ]
]

-- The elements of an array or a slice, with their type.
abbrev pub list_elem : GoType → GoType
list_elem (slice_of t) = t
list_elem (array_of t) = t
list_elem (defined n t) = list_elem t
list_elem t = t

abbrev pub elements_of : Value → Option (GoType × List Value)
elements_of (slice_value t vs) = some (list_elem t, to_list vs)
elements_of (array_value t vs) = some (list_elem t, to_list vs)
elements_of _ = none

-- `Rebind`, whose fuel `rebind-substitute` shows to be enough.
abbrev pub rebound_query : ℕ → Bytes → Result Bytes
rebound_query t u = elim (rebind t u) [ none ↦ panics | some q ↦ ok q ]

module _ (env : Setting) where
  abbrev pub in_element : String
  in_element = "sqlx: could not find name %q in slice element %T: %w"

  -- The second step of `bindArray`.
  unfoldable pub bind_elements : List Bytes → GoType → List Value → Result (List Arg)
  bind_elements names t [] = ok []
  bind_elements names t (v ∷ vs) = do
    args ←
        wrap "sqlx: error in traversal during bindArray: %w"
          (bind_fields env in_element names (deref_all t v))
    rest ← bind_elements names t vs
    ok (args ++ rest)

  -- Behind the compilation.
  unfoldable pub bind_rows : ℕ → GoType → List Value → CompileResult → Result (Bytes × List Arg)
  unfolding bind_elements spread
  bind_rows t elem_type vs (u, []) =
      fail (errorf "sqlx: no named parameters found in slice binding: %w" [] bind_mismatch)
  bind_rows t elem_type vs (u, name ∷ names) = do
    args ← bind_elements (name ∷ names) elem_type vs
    new_query ← spread (length vs) u
    q ← rebound_query t new_query
    ok (q, args)

  unfoldable pub bind_array : ℕ → Bytes → Value → CompileCache → Bound
  unfolding bind_rows
  bind_array t query arg cache = elim (elements_of arg) [
    | none ↦ (
      fail (errorf "sqlx: bindArray expects an array or slice, got %T: %w" [] bind_mismatch),
      cache,
    )
    | some (elem_type, vs) ↦ elim vs [
      | [] ↦ (fail (errorf "sqlx: bindArray cannot bind an empty slice: %w" [] no_rows), cache)
      | v ∷ more ↦
          let (r, cache') = compile_named_query question query cache in
          ((r >>= bind_rows t elem_type (v ∷ more)), cache')
    ]
  ]

  unfoldable pub bind_struct : ℕ → Bytes → Value → CompileCache → Bound
  bind_struct t query arg cache =
      let (r, cache') = compile_named_query t query cache in
      (
        (do
          (bound, names) ← wrap "sqlx: error compiling named query: %w" r
          args ←
              wrap "sqlx: error binding args: %w"
                (bind_struct_direct env names arg (replicate (length names) (of_value nil)))
          ok (bound, args)),
        cache',
      )

  -- The map case of `bindNamedMapper`.
  unfoldable pub bind_map : ℕ → Bytes → Value → CompileCache → Bound
  bind_map t query arg cache = elim (convert_map_string_interface arg) [
    | fail e ↦ (fail e, cache)
    | panics ↦ (panics, cache)
    | ok found ↦ elim found [
      | none ↦ (fail (errorf "sqlx: unsupported map type %T: %w" [] unsupported_type), cache)
      | some es ↦
          let (r, cache') = compile_named_query t query cache in
          (
            (do
              (bound, names) ← wrap "sqlx: error in compileNamedQuery (map): %w" r
              args ← wrap "sqlx: error in bindMapArgs: %w" (bind_map_args names es)
              ok (bound, args)),
            cache',
          )
    ]
  ]

  -- `for k == reflect.Pointer { t = t.Elem() }`.
  abbrev pub pointed : GoType → GoType
  pointed (pointer_to t) = pointed t
  pointed (defined n t) =
      let inner = pointed t in if is_pointer (kind t) then inner else defined n t
  pointed t = t

  -- `t.Key().Kind() == reflect.String` of a map type.
  abbrev pub has_string_key : GoType → Bool
  has_string_key (map_of k t) = elim (kind k) [ basic_kind string ↦ true | _ ↦ false ]
  has_string_key (defined n t) = has_string_key t
  has_string_key _ = false

  -- The `switch`, with the type of the argument.
  unfoldable pub bind_by_kind : Kind → ℕ → Bytes → Value → GoType → CompileCache → Bound
  unfolding bind_struct bind_map bind_array
  bind_by_kind map t query arg arg_type cache =
      if has_string_key arg_type then bind_map t query arg cache else bind_struct t query arg cache
  bind_by_kind array t query arg arg_type cache = bind_array t query arg cache
  bind_by_kind slice t query arg arg_type cache = bind_array t query arg cache
  bind_by_kind _ t query arg arg_type cache = bind_struct t query arg cache

  -- `bindNamedMapper`, and `Named` at the bind type `QUESTION`; nil has no type, and panics.
  unfoldable pub bind_named_mapper : ℕ → Bytes → Value → CompileCache → Bound
  unfolding bind_by_kind
  bind_named_mapper t query arg cache = elim (type_of arg) [
    | none ↦ (panics, cache)
    | some arg_type ↦ bind_by_kind (kind (pointed arg_type)) t query arg (pointed arg_type) cache
  ]

  pub bind_named_mapper-kind :
      (t : ℕ) (query : Bytes) (arg : Value) (cache : CompileCache) {arg_type : GoType} {k : Kind}
      → type_of arg ≡ some arg_type
      → kind (pointed arg_type) ≡ k
      → bind_named_mapper t query arg cache ≡ bind_by_kind k t query arg (pointed arg_type) cache
  unfolding bind_named_mapper
  bind_named_mapper-kind t query arg cache {arg_type} typed is_kind =
      ap
        (λ o. elim o [
          | none ↦ (panics, cache)
          | some a ↦ bind_by_kind (kind (pointed a)) t query arg (pointed a) cache
        ])
        typed
      ∙ ap (λ k. bind_by_kind k t query arg (pointed arg_type) cache) is_kind
