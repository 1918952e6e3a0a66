-- ===== src/Lib.antt =====
-- sqlx: the query binding of internal/bind, the struct mapper of internal/reflectx and the scan
-- engine of engine.go.
--
-- A named query is compiled to a query with bind variables and the list of its names
-- (internal/bind/bind.go, `compileNamedQuery`), and a query with `?` is rewritten for the database
-- (`Rebind`) or for arguments that are slices (`In`). The names are looked up in a map, in a
-- struct, or in each element of a slice (`bindNamedMapper`). On the way back, the mapper flattens
-- a struct type into the paths of its fields, each with the steps and the offset that lead to it
-- (internal/reflectx/reflectx.go, `mapType`), and the engine pairs the columns of a result with
-- these fields (engine.go, `buildMeta`) and scans the rows into them (`iterateScan`, `selectScan`,
-- `getScan`).
--
--   Prelude, Errors, GoStrings, SyncMap  the shared names; errors and panics as values; `strings`
--       and `strconv`; `sync.Map` and `map` as association lists.
--   Value  Go types and values as `reflect` shows them. Struct types are numbers of a table.
--   Bind.Registry  `BindType`, `BindDriver` and `init`.
--   Bind.Rebind  `Rebind`; Markers is about its results.
--   Bind.In  `In`, `asSliceForIn`, `appendReflectSlice`; Expand is the one pass that it amounts
--       to, Balance counts the `?` and the arguments, Outcome tells when it succeeds.
--   Bind.Compile  `compileNamedQuery` without its cache. Reading has the lemmas on its states,
--       Template the queries made of texts, names, casts and assignments, Positional compares the
--       bind types, Refused tells the errors, Trailing the last byte, Cache adds `compileCache`,
--       and Goroutines has calls that interleave over it.
--   Bind.Args  `bindAnyArgs`, `bindArgs`, `bindMapArgs` and `bindStructDirect`, with
--       `TraversalsByNameFunc` and `FieldByIndexesReadOnly`; Direct compares the two ways to bind
--       a struct.
--   Bind.Named  `bindStruct`, `bindArray`, `bindNamedMapper`; Spread counts the `?` of the
--       repeated group, Balance has the whole of `bindArray`, Struct that of `bindStruct`.
--   Reflectx.Mapper, Reflectx.Tags  `StructMap` and its parts; struct tags and `validateTagName`.
--   Reflectx.Flatten  `mapType` and `flattenFields`; Calls, Fuel and Total are about its end,
--       Coherent and Offsets about the offsets that it records.
--   Reflectx.Address  `AddrByTraversal` over a memory of cells.
--   Reflectx.TypeMap  `TypeMap` with the mapper's cache; Shared has the calls of many goroutines.
--   Engine.Meta  `hashColumns` and `buildMeta` with `sortByOffset`; Cache adds `metaCache`, Order
--       is about the sort.
--   Engine.Dest  `populateScanDest` and `isScannable`; Stores and Columns tell where a column
--       goes, Grows that no memory is taken back.
--   Engine.Scan  `iterateScan` over `sql.Rows` as the rows and errors that it will give; Select
--       and Get are `selectScan` and `getScan`, All, First and Ready what they read and return,
--       and Apart where the objects of a slice of pointers lie. Plan is what it decides before the
--       first row, Simulates compares two runs with other closures.
--   Engine.Rows  `Row.Scan` and `Rows.StructScan` of rows.go; Sized is about the slice that it
--       keeps.
--   Engine.Pool  `scanPool`, `getScanDest` and `putScanDest` as steps of a pool of slices.
--   Handles  what `DB`, `Tx`, `Conn`, `Stmt` and `NamedStmt` hand on (db.go, tx.go, conn.go,
--       stmt.go, named_stmt.go), and `SelectContext` and `GetContext` of helpers.go; Settings
--       follows the settings from one handle to the next. Calls has `NamedExec`, `NamedQuery`,
--       `BindNamed`, `Open`, `Connect` and the `Must` functions, Exec `NamedStmt.ExecContext` over
--       the state of a database, Statements `Select`, `Get` and the queries of `Stmt` and
--       `NamedStmt`, with Unmapped about a nil mapper and Prepared and Named about `PrepareNamed`
--       against `BindNamed`.
--   Helpers  the functions of helpers.go on a row: StructScan, with Columns and Open about the
--       places it scans into and the rows that it leaves open, and MapScan with `SliceScan`.
--   Generics  generics.go: Select is `SelectG`, with Loops and Pointers against `Select` and Grown
--       about the array that it grows, Get is `GetG`, with Row and Same against `Get`, Iter is
--       `SelectIter` in a `range` loop, with Left about a loop that is left and Collect about one
--       that is not.
--   Tests  runs at concrete inputs.
--
-- Numbers are natural numbers; the hash of the columns wraps at 2 ^ 64. A loop that Go ends by a
-- search runs on fuel: `Rebind` and `In` have one round more than the query has bytes, and a round
-- drops one; `flattenFields` has one level more than there are struct types, and each level visits
-- another one.
--
-- User code and the tables of `unicode` are parameters: the types that implement `driver.Valuer`
-- or `Scanner`, the functions of a mapper, the sizes of Go types, `rows.Scan` of database/sql,
-- which changes the memory and may fail, and the other calls of database/sql. The file list above
-- names the Go functions; they are in internal/bind/bind.go (Bind), internal/reflectx/reflectx.go
-- (Reflectx), engine.go (Engine), generics.go (Generics) and helpers.go (Helpers).
--
-- Not modelled: `LoadFile`, the functions of the mapper that nothing here calls (`FieldByIndexes`,
-- `FieldByName`, `FieldMap`, `TraversalsByName`), goroutines that share `metaCache`,
-- `singleflight` but for what its callers get, the interfaces of types.go but for `ColScanner`,
-- the mock driver of the tests. A Go type that prints in an error (`%T`, or `%s` of a
-- `reflect.Type`) is left out of the error.
pub mod Prelude
pub mod Errors
pub mod GoStrings
pub mod SyncMap
pub mod Value
pub mod Reflectx
pub mod Bind
pub mod Engine
pub mod Generics
pub mod Handles
pub mod Helpers
mod Tests
