-- ===== src/Bind/Named/Balance.antt =====
-- `bindArray` binds as many variables as it returns arguments.
use sqlx_v.Prelude.{
  true, ℕ, suc, ◌+◌, ◌*◌, ◌≡◌, ◌≢◌, refl, sym, ap, ◌∙◌, inl, inr, Bool, ◌&&◌, Option, none, some,
  List, [], ◌∷◌, ◌++◌, arith, if◌then◌else◌, Bytes, codes, String, length, length-append, count,
  count-append, Lacks, Option-cases, Bool-cases,
}
use sqlx_v.Errors.{errorf, no_rows, Result, ok, fail, panics, ◌>>=◌, >>=-elim, wrap}
use sqlx_v.Value.{GoType, Value}
use sqlx_v.Reflectx.Mapper.{StructMap}
use sqlx_v.Reflectx.Tags.{Setting}
use sqlx_v.Bind.Registry.{question}
use sqlx_v.Bind.Rebind.{rebind}
use sqlx_v.Bind.Compile.{
  Compiler, initial, is_empty, is_alnum, emit_var, take_name, end_name, write, step, run, compile,
}
use sqlx_v.Bind.Compile.Cache.{
  CompileCache, IsCurrent, compile_named_query, compile_named_query-IsCurrent,
}
use sqlx_v.Bind.Args.{Arg, deref_all, traversals_by_name, read_traversal, bind_fields, type_map_of}
use sqlx_v.Bind.Named.{
  spread, rebound_query, bind_elements, bind_rows, bind_array, elements_of, in_element,
}
use sqlx_v.Bind.Named.Spread.{spread-count}
use sqlx_v.SyncMap.{load, bytes_key}

-- One `?` has been written for each name.
abbrev Counted : Compiler → Type 0
Counted s = count b'?' s.rebound ≡ length s.names

write-Counted : (b : ℕ) (s : Compiler) → b ≢ b'?' → Counted s → Counted (write b s)
write-Counted b s other h = ground (arith, count-append b'?' s.rebound (b ∷ []))

end_name-Counted :
    (last : Bool) (b : ℕ) (s : Compiler)
    → b ≢ b'?'
    → Counted s
    → Counted (end_name question last b s)
unfolding end_name emit_var
end_name-Counted last b s other h =
    let out = emit_var question (take_name last b s) in
    let done : Counted out = ground (
      arith,
      count-append b'?' s.rebound (b'?' ∷ []),
      length-append s.names ((if last && is_alnum b then s.name ++ b ∷ [] else s.name) ∷ []),
    ) in
    let more = write-Counted b out other done in
    elim (Bool-cases last) [
      | inl yes_last ↦ elim (Bool-cases (is_alnum b)) [
        | inl alnum ↦ rw (yes_last, alnum) (rw (yes_last, alnum) at done)
        | inr stop ↦ rw (yes_last, stop) (rw (yes_last, stop) at more)
      ]
      | inr no_last ↦ rw no_last (rw no_last at more)
    ]

step-Counted :
    (last : Bool) (prev : Option ℕ) (i b : ℕ) (s : Compiler) {s' : Compiler}
    → b ≢ b'?'
    → Counted s
    → step question last prev i b s ≡ ok s'
    → Counted s'
unfolding step
step-Counted last prev i b s {s'} other h e = ground (
  arith,
  write-Counted b'?' s,
  count-append b'?' s.rebound (b':' ∷ []),
  count-append b'?' s.rebound (codes ":="),
  count-append b'?' s.rebound (b ∷ []),
  end_name-Counted last b s other h,
)

run-Counted :
    (qs : Bytes) (prev : Option ℕ) (i : ℕ) (s : Compiler) {s' : Compiler}
    → Lacks b'?' qs
    → Counted s
    → run question prev i qs s ≡ ok s'
    → Counted s'
unfolding run
run-Counted [] prev i s {s'} lacks h e = let same : s ≡ s' = ground arith in rw (← same) h
run-Counted (b ∷ qs) prev i s (other, lacks) h e =
    >>=-elim (step question (is_empty qs) prev i b s) _ e λ s1 first e1.
      run-Counted qs (some b) (i + 1) s1 lacks (step-Counted (is_empty qs) prev i b s other h first)
        e1

compile-count :
    (qs u : Bytes) (names : List Bytes)
    → Lacks b'?' qs
    → compile question qs ≡ ok (u, names)
    → count b'?' u ≡ length names
unfolding compile
compile-count qs u names lacks e = >>=-elim (run question none 0 qs initial) _ e λ s ran e1.
    let same_u : s.rebound ≡ u = ground arith in
    let same_names : s.names ≡ names = ground arith in
    rw (← same_u, ← same_names) (run-Counted qs none 0 initial lacks refl ran)

wrap-eq-ok : {A : Type 0} (format : String) (r : Result A) {a : A} → wrap format r ≡ ok a → r ≡ ok a
wrap-eq-ok format (ok x) h = h
wrap-eq-ok format (fail e) h = absurd (cc)
wrap-eq-ok format panics h = absurd (cc)

module _ (env : Setting) where
  length-traversals_by_name :
      (format : String) (tm : StructMap) (v : Value) (names : List Bytes) {args : List Arg}
      → traversals_by_name env format tm v names ≡ ok args
      → length args ≡ length names
  unfolding traversals_by_name
  length-traversals_by_name format tm v [] {args} h = let e : args ≡ [] = ground arith in rw e refl
  length-traversals_by_name format tm v (name ∷ names) {args} h =
      >>=-elim
        (elim (load name tm.names) as (λ _. Result Arg) [
          | none ↦ read_traversal env format v name true []
          | some fi ↦ read_traversal env format v name fi.field.exported fi.index
        ])
        _ h
        λ a read h1. >>=-elim (traversals_by_name env format tm v names) _ h1 λ rest more h2.
          let e : args ≡ a ∷ rest = ground arith in
          rw e (ap suc (length-traversals_by_name format tm v names more))

  length-bind_fields :
      (format : String) (names : List Bytes) (target : Option (GoType × Value)) {args : List Arg}
      → bind_fields env format names target ≡ ok args
      → length args ≡ length names
  unfolding bind_fields
  length-bind_fields format names none h = absurd (ground arith)
  length-bind_fields format names (some (t, v)) h =
      >>=-elim (type_map_of env t) _ h
        λ tm mapped h1. length-traversals_by_name format tm v names h1

  length-bind_elements :
      (names : List Bytes) (t : GoType) (vs : List Value) {args : List Arg}
      → bind_elements env names t vs ≡ ok args
      → length args ≡ length vs * length names
  unfolding bind_elements
  length-bind_elements names t [] {args} h = let e : args ≡ [] = ground arith in rw e (omega arith)
  length-bind_elements names t (v ∷ vs) {args} h =
      >>=-elim
        (wrap "sqlx: error in traversal during bindArray: %w"
          (bind_fields env (in_element env) names (deref_all t v)))
        _ h
        λ first read h1. >>=-elim (bind_elements env names t vs) _ h1 λ rest more h2.
          let e : args ≡ first ++ rest = ground arith in
          let n = length-bind_fields (in_element env) names (deref_all t v) (wrap-eq-ok _ _ read) in
          let ns = length-bind_elements names t vs more in
          rw (e, length-append first rest, n, ns) (omega arith)

  -- What balances: the query before `Rebind` has a `?` for each argument.
  abbrev pub BindsAll : ℕ → Bytes → List Arg → Type 0
  BindsAll t q args = (u : Bytes) × (rebind t u ≡ some q) × (count b'?' u ≡ length args)

  rebound_query-eq-ok :
      (t : ℕ) (u : Bytes) {q : Bytes} → rebound_query t u ≡ ok q → rebind t u ≡ some q
  rebound_query-eq-ok t u h = elim (Option-cases (rebind t u)) [
    | inl gone ↦ absurd (ground arith)
    | inr (x, e) ↦ ground arith
  ]

  bind_rows-BindsAll :
      (t : ℕ) (elem_type : GoType) (vs : List Value) (u : Bytes) (names : List Bytes) {q : Bytes}
      {args : List Arg}
      → count b'?' u ≡ length names
      → bind_rows env t elem_type vs (u, names) ≡ ok (q, args)
      → BindsAll t q args
  unfolding bind_rows
  bind_rows-BindsAll t elem_type vs u [] fits h = absurd (ground arith)
  bind_rows-BindsAll t elem_type vs u (name ∷ names) {q} {args} fits h =
      >>=-elim (bind_elements env (name ∷ names) elem_type vs) _ h λ args' bound h1.
        >>=-elim (spread (length vs) u) _ h1 λ u' repeated h2.
          >>=-elim (rebound_query t u') _ h2 λ q' rebinds h3.
            let same_q : q ≡ q' = ground arith in
            let same_args : args ≡ args' = ground arith in
            let marks = spread-count (length vs) u repeated in
            let values = length-bind_elements (name ∷ names) elem_type vs bound in
            rw (same_q, same_args)
              (u', rebound_query-eq-ok t u' rebinds, marks ∙ rw fits (sym values))

  -- A batch insert that is bound has a variable for each argument: if the named query has no `?` of
  -- its own and the compile cache is current, what `bindArray` returns is the rebound form of a query
  -- that has as many `?` as there are arguments.
  pub bind_array-BindsAll :
      (t : ℕ) (query : Bytes) (arg : Value) (cache : CompileCache) {q : Bytes} {args : List Arg}
      → Lacks b'?' query
      → IsCurrent cache
      → (bind_array env t query arg cache).0 ≡ ok (q, args)
      → BindsAll t q args
  unfolding bind_array
  bind_array-BindsAll t query arg cache {q} {args} lacks current h =
      elim (Option-cases (elements_of arg)) [
        | inl no_list ↦ absurd (ground arith)
        | inr ((elem_type, vs), list) ↦ at_elements elem_type vs (rw (list, bind_array) at h)
      ]
    where
      at_elements :
          (elem_type : GoType) (vs : List Value)
          → (elim vs as (λ _. Result (Bytes × List Arg) × CompileCache) [
            | [] ↦
                (fail (errorf "sqlx: bindArray cannot bind an empty slice: %w" [] no_rows), cache)
            | v ∷ more ↦ (
              (compile_named_query question query cache).0 >>= bind_rows env t elem_type (v ∷ more),
              (compile_named_query question query cache).1,
            )
          ]).0
            ≡ ok (q, args)
          → BindsAll t q args
      at_elements elem_type [] h = absurd (ground arith)
      at_elements elem_type (v ∷ more) h =
          >>=-elim (compile_named_query question query cache).0 _ h λ r compiled h1.
            let computed =
              sym (compile_named_query-IsCurrent question query cache current).0 ∙ compiled in
            bind_rows-BindsAll t elem_type (v ∷ more) r.0 r.1
              (compile-count query r.0 r.1 lacks computed) h1
