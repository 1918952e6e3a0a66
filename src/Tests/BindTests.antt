-- ===== src/Tests/BindTests.antt =====
-- internal/bind/bind.go at concrete inputs.
use sqlx_v.Prelude.{
  not, ◌||◌, true, Option, none, some, List, [], ◌∷◌, ◌++◌, ◌≡◌, refl, inl, inr, arith, ◌==◌,
  if◌then◌else◌, Bytes, codes, bytes_eq, count,
}
use sqlx_v.Errors.{Result, ok, fail, ◌>>=◌}
use sqlx_v.Value.{Value, nil, basic_value, slice_value, slice_of, basic, int, cons, end}
use sqlx_v.GoStrings.{index_byte, itoa}
use sqlx_v.SyncMap.{load, store}
use sqlx_v.Bind.Registry.{init, bind_type, question, dollar, named, at, unknown}
use sqlx_v.Bind.Rebind.{rebind, marker, substitute, rebind-substitute}
use sqlx_v.Bind.Compile.{compile, is_alnum, is_name_byte}
use sqlx_v.Bind.Compile.Reading.{variable}
use sqlx_v.Bind.Compile.Template.{
  Pieces, Fits, param, colons, assign, render, bound, param_names, compile-render,
}
use sqlx_v.Bind.Compile.Positional.{compile-rebind}
use sqlx_v.Bind.Compile.Refused.{colon_error}
use sqlx_v.Bind.Compile.Trailing.{advances, compile_trailing}
use sqlx_v.Bind.Compile.Cache.{IsCurrent}
use sqlx_v.Bind.In.{in_query, scan_args, as_slice_for_in}
use sqlx_v.Bind.In.Expand.{expand, in_query-expand}
use sqlx_v.Bind.In.Balance.{flat_args, in_query_balanced, flat_arg}
use sqlx_v.Bind.In.Outcome.{mismatch, in_query-mismatch}

postgres : bind_type init (codes "pgx") ≡ dollar
unfolding bind_type init load store bytes_eq
postgres = refl

rebind-dollar : rebind dollar (codes "a = ? AND b = ?") ≡ some (codes "a = $1 AND b = $2")
unfolding rebind index_byte itoa
rebind-dollar = refl

rebind-substitute_example : rebind named (codes "a = ?") ≡ (
    if named == question || named == unknown
    then some (codes "a = ?")
    else some (substitute (marker named) 0 (codes "a = ?")))
rebind-substitute_example = rebind-substitute named (codes "a = ?")

-- ":id, ::text, := :b_1"
abbrev pieces : Pieces
pieces =
    (param (codes "id"), codes ", ")
    ∷ (colons, codes "text, ")
    ∷ (assign, codes " ")
    ∷ (param (codes "b_1"), [])
    ∷ []

pieces-Fits : Fits pieces
unfolding is_name_byte is_alnum
pieces-Fits = (
  omega arith,
  ((λ e. cc), (refl, (refl, tt)), refl),
  (omega arith, tt, (omega arith, tt, (tt, ((λ e. cc), (refl, (refl, (refl, tt))), refl), tt))),
)

compile-render_example :
    compile dollar (codes "SELECT " ++ render pieces)
    ≡ ok (codes "SELECT " ++ bound dollar 1 pieces, param_names pieces)
compile-render_example = compile-render dollar (codes "SELECT ") pieces (omega arith) pieces-Fits

compile_pieces :
    compile dollar (codes "SELECT :id, ::text, := :b_1")
    ≡ ok (codes "SELECT $1, :text, := $2", codes "id" ∷ codes "b_1" ∷ [])
unfolding compile itoa index_byte
compile_pieces = refl

compile-rebind_example :
    (u : Bytes) × (rebind at (codes "a = ?") ≡ some u)
    × (compile at (codes "a = :a") ≡ ok (u, codes "a" ∷ []))
unfolding compile itoa index_byte
compile-rebind_example = compile-rebind at (inr refl) (codes "a = :a") (omega arith) refl

refused : compile question (codes ":a:b") ≡ fail (colon_error 2)
unfolding compile itoa index_byte
refused = refl

refused_cast : compile question (codes "SELECT :id::text") ≡ fail (colon_error 10)
unfolding compile itoa index_byte
refused_cast = refl

-- `a = :a AND id = :user_`.
abbrev before_trailing : Pieces
before_trailing = (param (codes "a"), codes " AND id = ") ∷ []

compile_trailing_example :
    compile dollar (codes "a = " ++ (render before_trailing ++ b':' ∷ (codes "user" ++ b'_' ∷ [])))
    ≡ ok (
      (codes "a = " ++ bound dollar 1 before_trailing)
          ++ (variable dollar (advances dollar 1 before_trailing) (codes "user") ++ b'_' ∷ []),
      param_names before_trailing ++ codes "user" ∷ [],
    )
unfolding is_name_byte is_alnum
compile_trailing_example =
    compile_trailing dollar (codes "a = ") before_trailing (codes "user") b'_' (omega arith)
      (omega arith, ((λ e. cc), (refl, tt), refl), tt) tt (refl, (refl, (refl, (refl, tt))))
      (inl refl)

trailing_pieces :
    compile dollar (codes "a = :a AND id = :user_")
    ≡ ok (codes "a = $1 AND id = $2_", codes "a" ∷ codes "user" ∷ [])
unfolding compile itoa index_byte
trailing_pieces = refl

-- No type of the caller implements `driver.Valuer`.
abbrev no_valuer : Value → Option (Result Value)
no_valuer v = none

abbrev one : Value
one = basic_value (basic int) 1

abbrev two : Value
two = basic_value (basic int) 2

abbrev pair : Value
pair = slice_value (slice_of (basic int)) (cons one (cons two end))

abbrev in_args : List Value
in_args = pair ∷ one ∷ []

abbrev in_text : Bytes
in_text = codes "a IN (?) AND b = ?"

scanned :
    scan_args no_valuer in_args
    ≡ ok (
      record { v = pair; i = nil; length = 2 } ∷ record { v = nil; i = one; length = 0 } ∷ [],
      true,
    )
unfolding scan_args as_slice_for_in
scanned = refl

expanded :
    in_query no_valuer in_text in_args
    ≡ some (ok (codes "a IN (?, ?) AND b = ?", one ∷ two ∷ one ∷ []))
unfolding in_query as_slice_for_in index_byte
expanded = refl

in_query-expand_example :
    in_query no_valuer in_text in_args
    ≡ some (
        scan_args no_valuer in_args >>= λ (metas, any_slices).
        if not any_slices then ok (in_text, in_args) else expand in_text metas)
in_query-expand_example = in_query-expand no_valuer in_text in_args

in_query_balanced_example :
    ((one ∷ two ∷ one ∷ []) ≡ flat_args in_args)
    × (count b'?' (codes "a IN (?, ?) AND b = ?") ≡ 3)
    × (count b'?' in_text ≡ 2)
unfolding flat_arg as_slice_for_in
in_query_balanced_example = in_query_balanced no_valuer in_text in_args in_args refl refl expanded

in_query-mismatch_example : in_query no_valuer (codes "a = 1") in_args ≡ some (fail (mismatch 0 2))
in_query-mismatch_example = in_query-mismatch no_valuer (codes "a = 1") in_args scanned (λ e. cc)

empty_IsCurrent : IsCurrent []
empty_IsCurrent key r found = absurd (unfold load in ground arith)
