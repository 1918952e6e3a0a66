-- ===== src/Handles/Statements/Prepared.antt =====
-- `PrepareNamedContext` of db.go and `BindAnyArgs` of internal/bind/bind.go, against `BindNamed`.
use sqlx_v.Prelude.{
  ℕ, true, none, some, ◌≡◌, ◌⊎◌, refl, ap, sym, ◌∙◌, arith, inl, inr, Bool-cases, Bytes, String,
}
use sqlx_v.Errors.{Result, ok, ◌>>=◌, >>=-elim, wrap, wrap-ok}
use sqlx_v.Value.{
  GoType, basic, slice_of, array_of, pointer_to, map_of, defined, struct_type, map, struct, kind,
  Value, nil, basic_value, slice_value, array_value, pointer_value, nil_pointer, struct_value,
  map_value, Entries, type_of,
}
use sqlx_v.Reflectx.Tags.{Setting}
use sqlx_v.Bind.Registry.{Binds, bind_type}
use sqlx_v.Bind.Compile.{compile}
use sqlx_v.Bind.Compile.Cache.{
  CompileCache, CompileResult, IsCurrent, compile_named_query, compile_named_query-IsCurrent,
}
use sqlx_v.Bind.Args.{is_string_map, convert_map_string_interface, bind_any_args}
use sqlx_v.Bind.Named.{
  pointed, has_string_key, bind_map, bind_by_kind, bind_named_mapper, bind_named_mapper-kind,
}
use sqlx_v.Bind.Named.Struct.{bind_struct-bind_args}
use sqlx_v.Handles.{Handle, NamedStmt, prepare_named_context}
use sqlx_v.Handles.Settings.{prepared_named-fields}
use sqlx_v.Handles.Exec.{bind_statement_args}
use sqlx_v.Handles.Calls.{bind_default_mapper, named_env, bind_named, handle_bind_named}

-- What `map[string]any` and the types defined by it are to the `switch` of `bindNamedMapper`.
is_string_map-kind :
    (env : Setting) (t : GoType)
    → is_string_map t ≡ true
    → (kind t ≡ map) × (pointed env t ≡ t) × (has_string_key env t ≡ true)
is_string_map-kind env (basic k) h = absurd (cc)
is_string_map-kind env (slice_of t) h = absurd (cc)
is_string_map-kind env (array_of t) h = absurd (cc)
is_string_map-kind env (pointer_to t) h = absurd (cc)
is_string_map-kind env (map_of k t) h = (refl, refl, ground arith)
is_string_map-kind env (struct_type n) h = absurd (cc)
is_string_map-kind env (defined n t) h =
    let (is_map, same, keyed) = is_string_map-kind env t h in
    (is_map, rw (same, is_map) refl, keyed)

convert-type_of :
    (env : Setting) (arg : Value) {es : Entries}
    → convert_map_string_interface arg ≡ ok (some es)
    → (t : GoType) × (type_of arg ≡ some t)
      × (kind (pointed env t) ≡ map)
      × (has_string_key env (pointed env t) ≡ true)
unfolding convert_map_string_interface
convert-type_of env nil h = absurd (cc)
convert-type_of env (basic_value t n) h = absurd (cc)
convert-type_of env (slice_value t vs) h = absurd (cc)
convert-type_of env (array_value t vs) h = absurd (cc)
convert-type_of env (pointer_value t v) h = absurd (cc)
convert-type_of env (nil_pointer t) h = absurd (cc)
convert-type_of env (struct_value t vs) h = absurd (cc)
convert-type_of env (map_value t es) h = elim (Bool-cases (is_string_map t)) [
  | inl e ↦
      let (is_map, same, keyed) = is_string_map-kind env t e in
      (t, refl, rw (same, is_map) refl, rw same keyed)
  | inr e ↦ absurd (ground arith)
]

struct-convert :
    (env : Setting) (arg : Value) {t : GoType}
    → type_of arg ≡ some t
    → kind (pointed env t) ≡ struct
    → convert_map_string_interface arg ≡ ok none
unfolding convert_map_string_interface
struct-convert env nil typed h = absurd (cc)
struct-convert env (basic_value t n) typed h = refl
struct-convert env (slice_value t vs) typed h = refl
struct-convert env (array_value t vs) typed h = refl
struct-convert env (pointer_value t v) typed h = refl
struct-convert env (nil_pointer t) typed h = refl
struct-convert env (struct_value t vs) typed h = refl
struct-convert env (map_value t' es) {t} typed h = elim (Bool-cases (is_string_map t')) [
  | inl e ↦
      let (is_map, same, keyed) = is_string_map-kind env t' e in
      let there : t' ≡ t = cc in
      let clash : map ≡ struct =
        sym is_map ∙ ap kind (sym same) ∙ ap (λ t. kind (pointed env t)) there ∙ h in
      absurd (cc)
  | inr e ↦ rw (e, convert_map_string_interface) refl
]

module _ (env : Setting) where
  -- `BindNamed` with a struct or a `map[string]any`, behind the compilation.
  bind_named_mapper-bind_any_args :
      (t : ℕ) (query : Bytes) (arg : Value) (cache : CompileCache) (c : CompileResult)
      {arg_type : GoType}
      → type_of arg ≡ some arg_type
      → (kind (pointed env arg_type) ≡ struct)
        ⊎ ((es : Entries) × (convert_map_string_interface arg ≡ ok (some es)))
      → IsCurrent cache
      → compile t query ≡ ok c
      → (s : String) × ((bind_named_mapper env t query arg cache).0
          ≡ (do args ← wrap s (bind_any_args env c.1 arg); ok (c.0, args)))
  unfolding bind_named_mapper bind_by_kind bind_any_args bind_map
  bind_named_mapper-bind_any_args t query arg cache (q, names) {arg_type} typed (inl is_struct)
        current compiled =
      (
        "sqlx: error binding args: %w",
        ap (λ b. b.0) (bind_named_mapper-kind env t query arg cache typed is_struct)
            ∙ bind_struct-bind_args env t query arg cache current
            ∙ rw (compiled, bind_any_args, struct-convert env arg typed is_struct) refl,
      )
  bind_named_mapper-bind_any_args t query arg cache (q, names) {arg_type} typed (inr (es, is_map))
        current compiled =
      let (found, same, mapped, keyed) = convert-type_of env arg is_map in
      let there : found ≡ arg_type = cc in
      let is_map_type : kind (pointed env arg_type) ≡ map =
        ap (λ t. kind (pointed env t)) (sym there) ∙ mapped in
      let string_key : has_string_key env (pointed env arg_type) ≡ true =
        ap (λ t. has_string_key env (pointed env t)) (sym there) ∙ keyed in
      (
        "sqlx: error in bindMapArgs: %w",
        ap (λ b. b.0) (bind_named_mapper-kind env t query arg cache typed is_map_type)
            ∙ rw
                (
                  string_key,
                  is_map,
                  bind_any_args,
                  bind_map,
                  bind_by_kind,
                  (compile_named_query-IsCurrent t query cache current).0,
                  compiled,
                )
                refl,
      )

module _ (env : Setting) (to_lower : Bytes → Bytes) where
  -- Where `NameMapper` is `strings.ToLower`, as it is if nobody sets it: a named statement that a `DB`
  -- prepares sends what `BindNamed` gives for the same query and a struct, a pointer to one or a
  -- `map[string]any`, whatever both compile caches hold that is current. The query that the driver has
  -- prepared is that of `BindNamed`, the arguments are the same, and an error differs in its text only.
  pub prepare_named_context-bind_named :
      (binds : Binds) (db : Handle) (prepare : Bytes → Result ℕ) (query : Bytes) (arg : Value)
      (cache cache' : CompileCache) {n : NamedStmt} {arg_type : GoType}
      → type_of arg ≡ some arg_type
      → (kind (pointed (named_env env to_lower) arg_type) ≡ struct)
        ⊎ ((es : Entries) × (convert_map_string_interface arg ≡ ok (some es)))
      → IsCurrent cache
      → IsCurrent cache'
      → (prepare_named_context (bind_default_mapper to_lower) binds db prepare query cache).0 ≡ ok n
      → (prepare n.query_string ≡ ok n.stmt.object)
        × ((s : String) × ((handle_bind_named env to_lower binds db query arg cache').0 ≡ (do
          args ← wrap s (bind_statement_args env n.stmt.mapper n.params arg)
          ok (n.query_string, args))))
  unfolding prepare_named_context handle_bind_named bind_named bind_statement_args
  prepare_named_context-bind_named binds db prepare query arg cache cache' {n} typed is_named
        current current' h =
      let t = bind_type binds db.driver_name in
      >>=-elim (wrap "sqlx: error compiling named query: %w" (compile_named_query t query cache).0)
        _ h
        λ c found h1.
          let compiled : compile t query ≡ ok c =
            sym (compile_named_query-IsCurrent t query cache current).0
            ∙ wrap-ok "sqlx: error compiling named query: %w" _ found in
          let ((same_query, same_params, sent), (same_mapper, same_unsafe, same_strict)) =
            prepared_named-fields (bind_default_mapper to_lower) db prepare c h1 in
          let (s, bound) =
            bind_named_mapper-bind_any_args (named_env env to_lower) t query arg cache' c typed
              is_named current' compiled in
          (
            ap prepare same_query ∙ sent,
            (
              s,
              bound
                  ∙ ap
                      (λ names.
                        (wrap s (bind_any_args (named_env env to_lower) names arg) >>= λ args.
                        ok (c.0, args)))
                      (sym same_params)
                  ∙ ap
                      (λ m.
                        (wrap s (bind_statement_args env m n.params arg) >>= λ args.
                        ok (c.0, args)))
                      (sym same_mapper)
                  ∙ ap
                      (λ q.
                        (wrap s (bind_statement_args env n.stmt.mapper n.params arg) >>= λ args.
                        ok (q, args)))
                      (sym same_query),
            ),
          )
