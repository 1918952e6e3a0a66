-- ===== src/Bind/In.antt =====
-- `asSliceForIn`, `In` and `appendReflectSlice`; what they amount to is in the modules below.
pub mod Expand
pub mod Balance
pub mod Outcome
use sqlx_v.Prelude.{
  ℕ, zero, suc, ◌+◌, ◌-◌, Bool, true, false, not, ◌&&◌, ◌||◌, Option, none, some, List, [], ◌∷◌,
  ◌++◌, arith, ◌==◌, if◌then◌else◌, Bytes, codes, length, take, drop,
}
use sqlx_v.Errors.{Error, bind_mismatch, no_rows, errorf, Result, ok, fail, panics, ◌>>=◌, wrap}
use sqlx_v.GoStrings.{index_byte}
use sqlx_v.Value.{
  deref, is_slice, GoType, basic, slice_of, pointer_to, string, int, interface, Kind, slice, kind,
  is_bytes_type, Value, nil, slice_value, to_list, type_of,
}

-- A pointer to a slice passes, too.
unfoldable pub as_slice_for_in : Value → Option Value
as_slice_for_in i = elim (type_of i) [
  | none ↦ none
  | some t ↦ if is_slice (kind (deref t)) && not (is_bytes_type (deref t)) then some i else none
]

-- `reflect.Value.Len` on what `asSliceForIn` lets pass; it panics on a pointer to a slice.
unfoldable pub slice_len : Value → Result ℕ
slice_len (slice_value t vs) = ok (length (to_list vs))
slice_len _ = panics

-- `v` and `i` are the fields of the source; a field that it leaves at its zero value is so here.
pub record ArgMeta : Type 0 where
  pub v : Value
  pub i : Value
  pub length : ℕ

-- The body of the loop over `args`, behind the call of `Value`; the flag is what it adds to
-- `anySlices`.
arg_meta : Value → Result (ArgMeta × Bool)
unfolding slice_len
arg_meta arg = elim (as_slice_for_in arg) [
  | some v ↦ do
    n ← slice_len v
    if n == 0
        then fail (errorf "sqlx: empty slice passed to 'In' query: %w" [] no_rows)
        else ok (record { v = v; i = nil; length = n }, true)
  | none ↦ ok (record { v = nil; i = arg; length = 0 }, false)
]

abbrev is_append_type : GoType → Bool
is_append_type (slice_of (basic interface)) = true
is_append_type (slice_of (basic int)) = true
is_append_type (slice_of (basic string)) = true
is_append_type _ = false

-- The type switch: three types are appended whole, the others by their first `vlen` indices.
unfoldable pub append_reflect_slice : List Value → Value → ℕ → List Value
append_reflect_slice args (slice_value t vs) vlen =
    if is_append_type t then args ++ to_list vs else args ++ take vlen (to_list vs)
append_reflect_slice args _ vlen = args

-- `for si := 1; si < n; si++ { buf.WriteString(", ?") }`, for the rounds left.
abbrev pub more_marks : ℕ → Bytes
more_marks zero = []
more_marks (suc n) = codes ", ?" ++ more_marks n

-- The loop over the `?` of the query. `metas` is `meta[arg:]`, and `none` is no fuel.
in_loop : ℕ → Bytes → ℕ → List ArgMeta → Bytes → List Value → Option (Result (Bytes × List Value))
unfolding append_reflect_slice
in_loop zero query offset metas buf new_args = none
in_loop (suc fuel) query offset metas buf new_args = elim (index_byte b'?' (drop offset query)) [
  | none ↦ some (elim metas [
    | [] ↦ ok (buf ++ query, new_args)
    | m ∷ ms ↦
        fail (errorf "sqlx: number of bindVars less than number arguments: %w" [] bind_mismatch)
  ])
  | some i ↦ elim metas [
    | [] ↦ some (fail (errorf "sqlx: number of bindVars exceeds arguments: %w" [] bind_mismatch))
    | m ∷ ms ↦ elim (m.length == 0) [
      | true ↦ in_loop fuel query (offset + suc i) ms buf (new_args ++ m.i ∷ [])
      | false ↦
          in_loop fuel (drop (offset + suc i) query) 0 ms
            (buf ++ (take (offset + suc i) query ++ more_marks (m.length - 1)))
            (append_reflect_slice new_args m.v m.length)
    ]
  ]
]

-- The user's types that implement `driver.Valuer`, with what `Value` returns: user code.
module _ (valuer : Value → Option (Result Value)) where
  -- `if a, ok := arg.(driver.Valuer); ok { … }`.
  abbrev pub through_valuer : Value → Result Value
  through_valuer arg = elim (valuer arg) [
    | none ↦ ok arg
    | some r ↦ wrap "sqlx: error getting value from driver.Valuer: %w" r
  ]

  -- The loop over `args`, with `anySlices`.
  unfoldable pub scan_args : List Value → Result (List ArgMeta × Bool)
  unfolding arg_meta
  scan_args [] = ok ([], false)
  scan_args (arg ∷ args) = do
    arg' ← through_valuer arg
    (m, is_slice) ← arg_meta arg'
    (ms, any_slices) ← scan_args args
    ok (m ∷ ms, is_slice || any_slices)

  -- `In`. A round passes a `?`, so one more round than the query has bytes is enough. The outer
  -- `none` is no fuel.
  unfoldable pub in_query : Bytes → List Value → Option (Result (Bytes × List Value))
  unfolding scan_args in_loop
  in_query query args = elim (scan_args args) [
    | fail e ↦ some (fail e)
    | panics ↦ some panics
    | ok (metas, any_slices) ↦
        if not any_slices
        then some (ok (query, args))
        else in_loop (suc (length query)) query 0 metas [] []
  ]
