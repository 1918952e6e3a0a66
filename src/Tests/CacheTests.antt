-- ===== src/Tests/CacheTests.antt =====
-- The caches of internal/bind and internal/reflectx with two goroutines, at concrete inputs.
use sqlx_v.Prelude.{[], ◌∷◌, ◌≡◌, refl, bytes_eq, codes}
use sqlx_v.Errors.{ok}
use sqlx_v.GoStrings.{itoa}
use sqlx_v.SyncMap.{load, store}
use sqlx_v.Value.{struct_type, pointer_to, type_eq}
use sqlx_v.Reflectx.Flatten.{done, map_type}
use sqlx_v.Reflectx.TypeMap.{IsCurrent}
use sqlx_v.Reflectx.TypeMap.Shared.{
  Shared, no_calls, loading, joining, checking, waiting, returned, starts, then_step,
  after_first_load, after_second_load, after_mapping, is_called, loads, runs, waits, checks, maps,
  shares, SharedReaches, SharedReaches-map_type,
}
use sqlx_v.Bind.Registry.{dollar}
use sqlx_v.Bind.Compile.{compile}
use sqlx_v.Bind.Compile.Cache
use sqlx_v.Bind.Compile.Cache.{CompileKey, CompileResult}
use sqlx_v.Bind.Compile.Goroutines
use sqlx_v.Tests.Users.{setting, user_map}

abbrev by_id : CompileKey
by_id = record { query = codes "id = :id"; bind_type = dollar }

abbrev compiled : CompileResult
compiled = (codes "id = $1", codes "id" ∷ [])

-- Both calls have missed before one of them stores.
abbrev compiled_twice : Goroutines.World
compiled_twice = record {
  cache = (by_id, compiled) ∷ [];
  calls = Goroutines.returned by_id (ok compiled) ∷ Goroutines.returned by_id (ok compiled) ∷ [];
}

compiled_twice_reached : Goroutines.WorldReaches compiled_twice
unfolding Goroutines.after_load Goroutines.after_compile compile load store bytes_eq itoa
compiled_twice_reached =
    let called =
      Goroutines.then_step Goroutines.starts (Goroutines.is_called Goroutines.no_calls by_id) in
    let both = Goroutines.then_step called (Goroutines.is_called _ by_id) in
    let first =
      Goroutines.then_step both (Goroutines.loads [] (Goroutines.loading by_id ∷ []) by_id []) in
    let second =
      Goroutines.then_step first (Goroutines.loads (Goroutines.compiling by_id ∷ []) [] by_id []) in
    let stored =
      Goroutines.then_step second
        (Goroutines.compiles [] (Goroutines.compiling by_id ∷ []) by_id []) in
    Goroutines.then_step stored (
      Goroutines.compiles (Goroutines.returned by_id (ok compiled) ∷ []) [] by_id
        ((by_id, compiled) ∷ []))

WorldReaches-compile_example :
    (ok compiled ≡ compile dollar (codes "id = :id")) × Cache.IsCurrent compiled_twice.cache
WorldReaches-compile_example =
    Goroutines.WorldReaches-compile compiled_twice [] (Goroutines.returned by_id (ok compiled) ∷ [])
      by_id (ok compiled) compiled_twice_reached refl

-- One call maps the type, the other one waits for it.
abbrev mapped_once : Shared
mapped_once = record {
  cache = (struct_type 0, user_map) ∷ [];
  calls = returned (struct_type 0) (done user_map) ∷ returned (struct_type 0) (done user_map) ∷ [];
}

mapped_once_reached : SharedReaches setting mapped_once
unfolding after_first_load after_second_load after_mapping map_type load store bytes_eq type_eq
mapped_once_reached =
    let user = struct_type 0 in
    let called = then_step starts (is_called no_calls user) in
    let both =
      then_step called
        (is_called (record { cache = []; calls = loading user ∷ [] }) (pointer_to user)) in
    let first = then_step both (loads [] (loading user ∷ []) user []) in
    let second = then_step first (loads (joining user ∷ []) [] user []) in
    let run = then_step second (runs [] (joining user ∷ []) user []) in
    let wait = then_step run (waits (checking user ∷ []) [] user []) in
    let checked = then_step wait (checks [] (waiting user ∷ []) user []) in
    let mapped = then_step checked (maps [] (waiting user ∷ []) user []) in
    then_step mapped (
      shares (returned user (done user_map) ∷ []) [] [] (waiting user ∷ []) user (done user_map)
        ((user, user_map) ∷ []) refl)

SharedReaches-map_type_example :
    (done user_map ≡ map_type setting (struct_type 0)) × IsCurrent setting mapped_once.cache
SharedReaches-map_type_example =
    SharedReaches-map_type setting mapped_once [] (returned (struct_type 0) (done user_map) ∷ [])
      (struct_type 0) (done user_map) mapped_once_reached refl
