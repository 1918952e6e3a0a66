-- ===== src/Bind/Registry.antt =====
-- The bind types, and the registry `binds` of drivers: `BindType`, `BindDriver` and `init`. A bind
-- type is any Go `int`; the negative ones behave like those above 4 and are not told apart.
use sqlx_v.Prelude.{ℕ, none, some, List, [], ◌∷◌, ◌≡◌, arith, if◌then◌else◌, Bytes, bytes_eq, codes}
use sqlx_v.SyncMap.{load, store, load-store, bytes_key}

-- `UNKNOWN = iota` and so on.
abbrev pub unknown : ℕ
unknown = 0

abbrev pub question : ℕ
question = 1

abbrev pub dollar : ℕ
dollar = 2

abbrev pub named : ℕ
named = 3

abbrev pub at : ℕ
at = 4

abbrev pub default_binds : List (ℕ × List Bytes)
default_binds =
    (
      dollar,
      codes "postgres"
          ∷ codes "pgx"
          ∷ codes "pq-timeouts"
          ∷ codes "cloudsqlpostgres"
          ∷ codes "ql"
          ∷ codes "nrpostgres"
          ∷ codes "cockroach"
          ∷ [],
    )
    ∷ (question, codes "mysql" ∷ codes "sqlite3" ∷ codes "nrmysql" ∷ codes "nrsqlite3" ∷ [])
    ∷ (named, codes "oci8" ∷ codes "ora" ∷ codes "goracle" ∷ codes "godror" ∷ [])
    ∷ (at, codes "sqlserver" ∷ codes "azuresql" ∷ [])
    ∷ []

-- The content of the `sync.Map` named `binds`.
abbrev pub Binds : Type 0
Binds = List (Bytes × ℕ)

unfoldable pub bind_type : Binds → Bytes → ℕ
bind_type binds driver_name = elim (load driver_name binds) [ none ↦ unknown | some t ↦ t ]

unfoldable pub bind_driver : Bytes → ℕ → Binds → Binds
bind_driver driver_name t binds = store driver_name t binds

-- The inner loop of `init`.
bind_drivers : ℕ → List Bytes → Binds → Binds
bind_drivers t [] binds = binds
bind_drivers t (d ∷ ds) binds = bind_drivers t ds (bind_driver d t binds)

init_from : List (ℕ × List Bytes) → Binds → Binds
init_from [] binds = binds
init_from ((t, ds) ∷ groups) binds = init_from groups (bind_drivers t ds binds)

-- The registry behind `init`. Go visits `defaultBinds` in any order, here in that of the text.
unfoldable pub init : Binds
unfolding bind_drivers init_from bind_driver
init = init_from default_binds []

-- A registration is seen by every later look-up of that driver, and by no other look-up.
pub bind_type-bind_driver :
    (driver other : Bytes) (t : ℕ) (binds : Binds)
    → bind_type (bind_driver driver t binds) other
      ≡ (if bytes_eq driver other then t else bind_type binds other)
unfolding bind_type bind_driver
bind_type-bind_driver driver other t binds = ground (arith, load-store other driver t binds)
