-- ===== src/Handles/Calls.antt =====
-- `NamedExec`, `NamedQuery` and the functions that panic on an error (helpers.go, db.go), with `BindNamed`
-- of internal/bind/bind.go and `Connect` of db.go.
use sqlx_v.Prelude.{
  ℕ, Bool, true, false, Option, none, some, List, [], ◌≡◌, ◌⊎◌, refl, ap, sym, ◌∙◌, inl, inr, Bytes,
  Lacks,
}
use sqlx_v.Errors.{Error, errorf, Result, ok, fail, panics, ◌>>=◌}
use sqlx_v.Value.{GoType, slice, kind, type_of, Value}
use sqlx_v.Reflectx.Mapper.{Mapper, new_mapper_func}
use sqlx_v.Reflectx.Tags.{Setting}
use sqlx_v.Bind.Registry.{Binds, question, bind_type}
use sqlx_v.Bind.Compile.Cache.{CompileCache, IsCurrent}
use sqlx_v.Bind.Args.{Arg}
use sqlx_v.Bind.Named.{
  Bound, pointed, bind_array, bind_by_kind, bind_named_mapper, bind_named_mapper-kind,
}
use sqlx_v.Bind.Named.Balance.{BindsAll, bind_array-BindsAll}
use sqlx_v.Handles.{Handle, Queryer, extract_driver_name, new_db}

-- The mapper of `getBindDefaultMapper`; `to_lower` is `strings.ToLower`.
abbrev pub bind_default_mapper : (Bytes → Bytes) → Mapper
bind_default_mapper to_lower = new_mapper_func to_lower

-- A call that panics if there is an error: `MustExec`, `MustExecContext`, `MustBegin`, `MustOpen`,
-- `MustConnect`.
abbrev pub must {ℓ} : {A : Type ℓ} → Result A → Result A
must (ok a) = ok a
must (fail e) = panics
must panics = panics

-- `Open`; `opened` is what `sql.Open` returns.
unfoldable pub open_db : Mapper → Result ℕ → Bytes → Result Handle
open_db default_mapper opened driver_name = do
  db ← opened
  ok (new_db default_mapper db driver_name)

-- Behind `Open`: what `Connect` returns, and whether it has closed the database, by the errors of `Ping`
-- and `Close`.
unfoldable pub connect : Result Handle → Option Error → Option Error → Result Handle × Bool
connect (fail e) ping close_err = (fail e, false)
connect panics ping close_err = (panics, false)
connect (ok db) none close_err = (ok db, false)
connect (ok db) (some e) none = (fail (errorf "sqlx: error pinging database: %w" [] e), true)
connect (ok db) (some e) (some c) =
    (fail (errorf "sqlx: error pinging database: %w (close error: %v)" [] e), true)

-- `ConnectContext`, which does not wrap the error of `PingContext`.
unfoldable pub connect_context : Result Handle → Option Error → Option Error → Result Handle × Bool
connect_context (fail e) ping close_err = (fail e, false)
connect_context panics ping close_err = (panics, false)
connect_context (ok db) none close_err = (ok db, false)
connect_context (ok db) (some e) none = (fail e, true)
connect_context (ok db) (some e) (some c) =
    (fail (errorf "sqlx: error pinging database: %w (close error: %v)" [] e), true)

module _ (env : Setting) (to_lower : Bytes → Bytes) where
  abbrev pub named_env : Setting
  named_env = record env { mapper = bind_default_mapper to_lower }

  -- `BindNamed` of internal/bind, and `Named` below it.
  unfoldable pub bind_named : ℕ → Bytes → Value → CompileCache → Bound
  bind_named t query arg cache = bind_named_mapper named_env t query arg cache

  unfoldable pub named_query_of : Bytes → Value → CompileCache → Bound
  named_query_of query arg cache = bind_named_mapper named_env question query arg cache

  -- `BindNamed` of `DB` and `Tx`.
  unfoldable pub handle_bind_named : Binds → Handle → Bytes → Value → CompileCache → Bound
  unfolding bind_named
  handle_bind_named binds h query arg cache =
      bind_named (bind_type binds h.driver_name) query arg cache

  -- The call of the database behind the binding.
  unfoldable pub call_bound :
      {S A : Type 0}
      → (Bytes → List Arg → S → S × Result A)
      → Result (Bytes × List Arg)
      → S
      → S × Result A
  call_bound call (ok (q, args)) s = call q args s
  call_bound call (fail e) s = (s, fail e)
  call_bound call panics s = (s, panics)

  -- `NamedExecContext` and `NamedExec`, where `call` is `ExecContext` of the handle, and
  -- `NamedQueryContext` and `NamedQuery`, where it is `QueryxContext`.
  unfoldable pub named_call :
      {S A : Type 0}
      → Binds
      → Queryer
      → (Bytes → List Arg → S → S × Result A)
      → Bytes
      → Value
      → CompileCache
      → S
      → (S × Result A) × CompileCache
  unfolding bind_named call_bound
  named_call binds e call query arg cache s =
      let (bound, cache') = bind_named (bind_type binds (extract_driver_name e)) query arg cache in
      (call_bound call bound s, cache')

  -- The database is called once, with a variable for each argument, or it is not called.
  abbrev pub CallsBalanced :
      {S A : Type 0} → ℕ → (Bytes → List Arg → S → S × Result A) → S → S × Result A → Type 0
  CallsBalanced t call s p =
      ((q : Bytes) × (args : List Arg) × (p ≡ call q args s) × BindsAll named_env t q args)
      ⊎ (p.0 ≡ s)

  call_bound-CallsBalanced :
      {S A : Type 0} (t : ℕ) (call : Bytes → List Arg → S → S × Result A)
      (bound : Result (Bytes × List Arg)) (s : S)
      → ((q : Bytes) (args : List Arg) → bound ≡ ok (q, args) → BindsAll named_env t q args)
      → CallsBalanced t call s (call_bound call bound s)
  unfolding call_bound
  call_bound-CallsBalanced t call (ok (q, args)) s balanced =
      inl (q, args, refl, balanced q args refl)
  call_bound-CallsBalanced t call (fail e) s balanced = inr refl
  call_bound-CallsBalanced t call panics s balanced = inr refl

  -- A batch through `NamedExec` or `NamedQuery`: with a slice, a named query with no `?` of its own and a
  -- current compile cache, the database is called once, with a query of the driver's bind type that has
  -- a variable for each argument, or it is not called and its state is as it was.
  pub named_call-CallsBalanced :
      {S A : Type 0} (binds : Binds) (e : Queryer) (call : Bytes → List Arg → S → S × Result A)
      (query : Bytes) (arg : Value) (cache : CompileCache) (s : S) {t : GoType}
      → type_of arg ≡ some t
      → kind (pointed named_env t) ≡ slice
      → Lacks b'?' query
      → IsCurrent cache
      → CallsBalanced
          (bind_type binds (extract_driver_name e))
          call
          s
          (named_call binds e call query arg cache s).0
  unfolding named_call bind_named bind_named_mapper bind_by_kind
  named_call-CallsBalanced binds e call query arg cache s {t} typed is_slice lacks current =
      let t' = bind_type binds (extract_driver_name e) in
      let slices : bind_named_mapper named_env t' query arg cache
          ≡ bind_array named_env t' query arg cache =
        bind_named_mapper-kind named_env t' query arg cache typed is_slice in
      call_bound-CallsBalanced t' call _ s (λ q args bound.
        bind_array-BindsAll named_env t' query arg cache lacks current
          (ap (λ b. b.0) (sym slices) ∙ bound))
