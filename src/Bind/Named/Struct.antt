-- ===== src/Bind/Named/Struct.antt =====
-- `bindStruct` against the compiler and `bindArgs`.
use sqlx_v.Prelude.{ℕ, ◌≡◌, refl, inl, inr, Bytes}
use sqlx_v.Errors.{ok, ◌>>=◌, wrap, Result-cases}
use sqlx_v.Value.{Value}
use sqlx_v.Reflectx.Tags.{Setting}
use sqlx_v.Bind.Compile.{compile}
use sqlx_v.Bind.Compile.Cache.{CompileCache, IsCurrent, compile_named_query-IsCurrent}
use sqlx_v.Bind.Args.{bind_args}
use sqlx_v.Bind.Args.Direct.{bind_struct_direct-bind_args}
use sqlx_v.Bind.Named.{bind_struct}

-- With a current compile cache, the binding of a struct is the compiled query with the arguments that
-- `bindArgs` finds for its names, and the error is that of the compiler, or else that of `bindArgs`.
pub bind_struct-bind_args :
    (env : Setting) (t : ℕ) (query : Bytes) (arg : Value) (cache : CompileCache)
    → IsCurrent cache
    → (bind_struct env t query arg cache).0 ≡ (do
      (bound, names) ← wrap "sqlx: error compiling named query: %w" (compile t query)
      args ← wrap "sqlx: error binding args: %w" (bind_args env names arg)
      ok (bound, args))
unfolding bind_struct
bind_struct-bind_args env t query arg cache current =
    let same = (compile_named_query-IsCurrent t query cache current).0 in
    rw same (elim (Result-cases (compile t query)) [
      | inl ((u, names), compiled) ↦ rw (compiled, bind_struct_direct-bind_args env names arg) refl
      | inr (inl (e, refused)) ↦ rw refused refl
      | inr (inr panicking) ↦ rw panicking refl
    ])
