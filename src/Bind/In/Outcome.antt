-- ===== src/Bind/In/Outcome.antt =====
-- Whether `In` succeeds: by the number of `?` and of arguments.
use sqlx_v.Prelude.{
  ℕ, ltb, Bool, true, ◌≢◌, Option, some, List, [], ◌∷◌, ◌≡◌, refl, sym, ap, ◌∙◌, arith,
  if◌then◌else◌, Bytes, length, count,
}
use sqlx_v.Errors.{Error, Result, ok, fail, >>=-elim, is_ok, is_ok-eq-ok}
use sqlx_v.Value.{Value}
use sqlx_v.Bind.In.{ArgMeta, arg_meta, scan_args, in_query, through_valuer}
use sqlx_v.Bind.In.Expand.{expand, too_few, too_many, in_query-expand}

abbrev pub mismatch : ℕ → ℕ → Error
mismatch marks args = if ltb marks args then too_few else too_many

expand-mismatch :
    (s : Bytes) (metas : List ArgMeta)
    → count b'?' s ≢ length metas
    → expand s metas ≡ fail (mismatch (count b'?' s) (length metas))
unfolding expand
expand-mismatch [] [] h = absurd (h refl)
expand-mismatch [] (m ∷ ms) h = ground arith
expand-mismatch (c ∷ s) [] h = ground (arith, expand-mismatch s [])
expand-mismatch (c ∷ s) (m ∷ ms) h =
    ground (arith, expand-mismatch s ms, expand-mismatch s (m ∷ ms))

expand_match :
    (s : Bytes) (metas : List ArgMeta) → count b'?' s ≡ length metas → is_ok (expand s metas) ≡ true
unfolding expand
expand_match [] [] h = refl
expand_match [] (m ∷ ms) h = absurd (ground arith)
expand_match (c ∷ s) [] h = ground (arith, expand_match s [])
expand_match (c ∷ s) (m ∷ ms) h = ground (arith, expand_match s ms, expand_match s (m ∷ ms))

length-scan_args :
    (valuer : Value → Option (Result Value)) (args : List Value) {metas : List ArgMeta} {b : Bool}
    → scan_args valuer args ≡ ok (metas, b)
    → length metas ≡ length args
unfolding scan_args
length-scan_args valuer [] h = ground arith
length-scan_args valuer (a ∷ args) h = >>=-elim (through_valuer valuer a) _ h λ a' va h1.
    >>=-elim (arg_meta a') _ h1 λ mc am h2.
      >>=-elim (scan_args valuer args) _ h2
        λ mcs rest h3. ground (arith, length-scan_args valuer args rest)

module _ (valuer : Value → Option (Result Value)) (query : Bytes) (args : List Value)
    {metas : List ArgMeta} (scanned : scan_args valuer args ≡ ok (metas, true)) where
  reduce : in_query valuer query args ≡ some (expand query metas)
  reduce = in_query-expand valuer query args ∙ rw scanned

  -- Once the arguments are read and there is a slice among them, `In` fails if the query has not a
  -- `?` for each argument, and the error says which of the two are too many.
  pub in_query-mismatch :
      count b'?' query ≢ length args
      → in_query valuer query args ≡ some (fail (mismatch (count b'?' query) (length args)))
  in_query-mismatch h =
      let n = length-scan_args valuer args scanned in
      rw reduce (rw (expand-mismatch query metas (rw n h), n))

  -- Once the arguments are read and there is a slice among them, `In` succeeds if the query has a
  -- `?` for each argument.
  pub in_query_match :
      count b'?' query ≡ length args
      → (r : Bytes × List Value) × (in_query valuer query args ≡ some (ok r))
  in_query_match h =
      let (r, e) =
        is_ok-eq-ok _ (expand_match query metas (h ∙ sym (length-scan_args valuer args scanned))) in
      (r, reduce ∙ ap some e)
