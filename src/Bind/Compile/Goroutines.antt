-- ===== src/Bind/Compile/Goroutines.antt =====
-- `compileNamedQuery` of internal/bind/bind.go in any number of goroutines at a time, over the one
-- `compileCache`: `Load` and `Store` of a `sync.Map` are single steps, and what lies between is local.
use sqlx_v.Prelude.{
  ℕ, Bytes, none, some, List, [], ◌∷◌, ◌++◌, ◌≡◌, refl, sym, subst, inl, inr, arith, All,
  All-removed, All-replaced, Option-cases,
}
use sqlx_v.Errors.{Result, ok}
use sqlx_v.SyncMap.{load}
use sqlx_v.Bind.Compile.{compile}
use sqlx_v.Bind.Compile.Cache.{
  CompileKey, compile_key, CompileResult, CompileCache, compile_named_query, keep, IsCurrent,
  keep-IsCurrent,
}

-- Where a call stands: before the `Load`, behind one that has missed, and at its end.
pub data CallPhase : Type 0 where
  loading compiling : CompileKey → CallPhase
  returned : CompileKey → Result CompileResult → CallPhase

unfoldable pub after_load : CompileKey → CompileCache → CallPhase
after_load key cache = elim (load key cache) [ some r ↦ returned key (ok r) | none ↦ compiling key ]

-- The loop over the bytes, and the `Store` if it has no error.
unfoldable pub after_compile : CompileKey → CompileCache → CallPhase × CompileCache
unfolding keep
after_compile key cache =
    let (r, cache') = keep key (compile key.bind_type key.query) cache in (returned key r, cache')

-- The cache, and the calls that were made.
pub record World : Type 0 where
  pub cache : CompileCache
  pub calls : List CallPhase

pub data CallStep : World → World → Type 0 where
  is_called :
      (w : World) (key : CompileKey) → CallStep w (record w { calls = loading key ∷ w.calls })
  loads :
      (before after : List CallPhase) (key : CompileKey) (cache : CompileCache)
      → CallStep
          (record { cache = cache; calls = before ++ loading key ∷ after })
          (record { cache = cache; calls = before ++ after_load key cache ∷ after })
  compiles :
      (before after : List CallPhase) (key : CompileKey) (cache : CompileCache)
      → CallStep
          (record { cache = cache; calls = before ++ compiling key ∷ after })
          (record {
            cache = (after_compile key cache).1;
            calls = before ++ (after_compile key cache).0 ∷ after;
          })

abbrev pub no_calls : World
no_calls = record { cache = []; calls = [] }

pub data WorldReaches : World → Type 0 where
  starts : WorldReaches no_calls
  then_step : {v w : World} → WorldReaches v → CallStep v w → WorldReaches w

-- A call that has returned has the result that is its own.
abbrev IsRight : CallPhase → Type 0
IsRight (loading key) = Unit {0}
IsRight (compiling key) = Unit {0}
IsRight (returned key r) = r ≡ compile key.bind_type key.query

after_load-IsRight :
    (key : CompileKey) (cache : CompileCache) → IsCurrent cache → IsRight (after_load key cache)
unfolding after_load
after_load-IsRight key cache current = elim (Option-cases (load key cache)) [
  | inl miss ↦ rw (miss, after_load) tt
  | inr (r, hit) ↦ rw (hit, after_load) (sym (current key r hit))
]

CallStep-IsRight :
    {v w : World}
    → CallStep v w
    → IsCurrent v.cache × All IsRight v.calls
    → IsCurrent w.cache × All IsRight w.calls
unfolding after_compile
CallStep-IsRight (is_called w key) (current, right) = (current, (tt, right))
CallStep-IsRight (loads before after key cache) (current, right) = (
  current,
  All-replaced IsRight before after (loading key) right (after_load-IsRight key cache current),
)
CallStep-IsRight (compiles before after key cache) (current, right) =
    let (same, current') =
      keep-IsCurrent key cache (compile key.bind_type key.query) refl current in
    (current', All-replaced IsRight before after (compiling key) right same)

WorldReaches-IsRight : {w : World} → WorldReaches w → IsCurrent w.cache × All IsRight w.calls
WorldReaches-IsRight starts = ((λ key r found. absurd (unfold load in ground arith)), tt)
WorldReaches-IsRight (then_step r s) = CallStep-IsRight s (WorldReaches-IsRight r)

-- However the calls of any number of goroutines interleave, whichever of them read the cache, compile
-- the same query twice or store over each other, a call that returns has the query and the names, or the
-- error, that the compiler gives for its own query and bind type, and the cache never holds anything else.
pub WorldReaches-compile :
    (w : World) (before after : List CallPhase) (key : CompileKey) (r : Result CompileResult)
    → WorldReaches w
    → w.calls ≡ before ++ returned key r ∷ after
    → (r ≡ compile key.bind_type key.query) × IsCurrent w.cache
WorldReaches-compile w before after key r reached there =
    let (current, right) = WorldReaches-IsRight reached in
    ((All-removed IsRight before after (subst (All IsRight) there right)).1, current)

-- A call that no other interrupts does what `compileNamedQuery` does alone.
pub compile_named_query-WorldReaches :
    (before after : List CallPhase) (t : ℕ) (qs : Bytes) (cache : CompileCache)
    → let key : CompileKey = record { query = qs; bind_type = t } in
      WorldReaches (record { cache = cache; calls = before ++ loading key ∷ after })
      → WorldReaches (record {
        cache = (compile_named_query t qs cache).1;
        calls = before ++ returned key (compile_named_query t qs cache).0 ∷ after;
      })
unfolding compile_named_query after_load after_compile
compile_named_query-WorldReaches before after t qs cache reached =
    let key : CompileKey = record { query = qs; bind_type = t } in
    let loaded = then_step reached (loads before after key cache) in
    elim (Option-cases (load key cache)) [
      | inl miss ↦
          let missed : WorldReaches
              (record { cache = cache; calls = before ++ compiling key ∷ after }) =
            rw (miss, after_load) at loaded in
          rw (miss, compile_named_query) (then_step missed (compiles before after key cache))
      | inr (r, hit) ↦
          let found : WorldReaches
              (record { cache = cache; calls = before ++ returned key (ok r) ∷ after }) =
            rw (hit, after_load) at loaded in
          rw (hit, compile_named_query) found
    ]
