-- ===== src/Bind/Compile/Cache.antt =====
-- `compileCache` before `compileNamedQuery`, and `CompileNamedQuery`. The defensive copy of the names
-- is the same list here, since no caller writes into a list of the model.
use sqlx_v.Prelude.{
  ℕ, Bool, true, ◌&&◌, none, some, List, [], ◌∷◌, ◌≡◌, ◌↔◌, refl, sym, ap₂, arith, ◌==◌, map, Bytes,
  bytes_eq, bytes_eq_iff, inl, inr, Option-cases,
}
use sqlx_v.Errors.{Result, ok, fail, panics}
use sqlx_v.SyncMap.{Eq, load, store, store-holds}
use sqlx_v.Bind.Compile.{compile}

pub record CompileKey : Type 0 where
  pub query : Bytes
  pub bind_type : ℕ

abbrev pub key_eq : CompileKey → CompileKey → Bool
key_eq a b = bytes_eq a.query b.query && a.bind_type == b.bind_type

pub key_eq_iff : (a b : CompileKey) → (key_eq a b ≡ true) ↔ (a ≡ b)
key_eq_iff a b = ground (arith, bytes_eq_iff a.query b.query)

instance abbrev pub compile_key : Eq CompileKey
compile_key = record { beq = key_eq; beq_iff = key_eq_iff }

-- `compileResult`.
abbrev pub CompileResult : Type 0
CompileResult = Bytes × List Bytes

abbrev pub CompileCache : Type 0
CompileCache = List (CompileKey × CompileResult)

unfoldable pub keep :
    CompileKey → Result CompileResult → CompileCache → Result CompileResult × CompileCache
keep key (ok r) cache = (ok r, store key r cache)
keep key (fail e) cache = (fail e, cache)
keep key panics cache = (panics, cache)

-- The result, and the cache behind the call.
unfoldable pub compile_named_query : ℕ → Bytes → CompileCache → Result CompileResult × CompileCache
unfolding keep
compile_named_query t qs cache =
    let key : CompileKey = record { query = qs; bind_type = t } in
    elim (load key cache) [ some r ↦ (ok r, cache) | none ↦ keep key (compile t qs) cache ]

-- The cache holds nothing but what would be computed.
abbrev pub IsCurrent : CompileCache → Type 0
IsCurrent cache =
    (key : CompileKey) (r : CompileResult)
    → load key cache ≡ some r
    → compile key.bind_type key.query ≡ ok r

store-IsCurrent :
    (key : CompileKey) (r : CompileResult) (cache : CompileCache)
    → compile key.bind_type key.query ≡ ok r
    → IsCurrent cache
    → IsCurrent (store key r cache)
store-IsCurrent = store-holds (λ key r. compile key.bind_type key.query ≡ ok r)

pub keep-IsCurrent :
    (key : CompileKey) (cache : CompileCache) (c : Result CompileResult)
    → compile key.bind_type key.query ≡ c
    → IsCurrent cache
    → ((keep key c cache).0 ≡ c) × IsCurrent (keep key c cache).1
unfolding keep
keep-IsCurrent key cache (ok r) h current = (refl, store-IsCurrent key r cache h current)
keep-IsCurrent key cache (fail e) h current = (refl, current)
keep-IsCurrent key cache panics h current = (refl, current)

-- With a cache that is current, the cached function returns what it would compute, and leaves a
-- cache that is current.
pub compile_named_query-IsCurrent :
    (t : ℕ) (qs : Bytes) (cache : CompileCache)
    → IsCurrent cache
    → ((compile_named_query t qs cache).0 ≡ compile t qs)
      × IsCurrent (compile_named_query t qs cache).1
unfolding compile_named_query
compile_named_query-IsCurrent t qs cache current =
    let key : CompileKey = record { query = qs; bind_type = t } in
    elim (Option-cases (load key cache)) [
      | inl miss ↦
          rw (miss, compile_named_query) (keep-IsCurrent key cache (compile t qs) refl current)
      | inr (r, hit) ↦ rw (hit, compile_named_query) (sym (current key r hit), current)
    ]

-- Any number of calls, one behind the other, each with the cache that the last one left.
pub compile_all : List (ℕ × Bytes) → CompileCache → List (Result CompileResult)
compile_all [] cache = []
compile_all ((t, qs) ∷ calls) cache =
    let (r, cache') = compile_named_query t qs cache in r ∷ compile_all calls cache'

compile_all-IsCurrent :
    (calls : List (ℕ × Bytes)) (cache : CompileCache)
    → IsCurrent cache
    → compile_all calls cache ≡ map (λ c. compile c.0 c.1) calls
unfolding compile_all
compile_all-IsCurrent [] cache current = refl
compile_all-IsCurrent ((t, qs) ∷ calls) cache current =
    let (same, current') = compile_named_query-IsCurrent t qs cache current in
    ap₂ ◌∷◌ same (compile_all-IsCurrent calls _ current')

-- From the empty cache, whatever was compiled before, each call returns what the function computes
-- for its own query and bind type.
pub compile_all-map :
    (calls : List (ℕ × Bytes)) → compile_all calls [] ≡ map (λ c. compile c.0 c.1) calls
compile_all-map calls = compile_all-IsCurrent calls [] (λ key r found. absurd (nothing key r found))
  where
    nothing : (key : CompileKey) (r : CompileResult) → load key [] ≡ some r → ⊥
    nothing key r found = unfold load in ground arith
