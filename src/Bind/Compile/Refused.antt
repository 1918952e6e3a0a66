-- ===== src/Bind/Compile/Refused.antt =====
-- The queries that `compileNamedQuery` refuses, and the names that it cuts short.
use sqlx_v.Prelude.{
  ℕ, suc, ◌+◌, Bool, Option, none, some, List, [], ◌∷◌, arith, ◌≡◌, ◌≢◌, ◌⊎◌, inl, inr, ap, ◌∙◌,
  Bytes, get_elem?,
}
use sqlx_v.Errors.{Error, syntax, errorf, ok, fail, panics, Result-cases}
use sqlx_v.GoStrings.{itoa}
use sqlx_v.Bind.Compile.{Compiler, initial, is_empty, step, run, compile}

-- The error for the `:` at index `i`.
abbrev pub colon_error : ℕ → Error
colon_error i =
    errorf "sqlx: unexpected `:` while reading named param at %d: %w" (itoa i ∷ []) syntax

-- Where a refusal stands: the rest of the query has a `:` at index `k`, the query at index `i + k`.
record RefusedAt (i : ℕ) (qs : Bytes) (e : Error) : Type 0 where
  k : ℕ
  colon : get_elem? qs k ≡ some b':'
  error : e ≡ colon_error (i + k)

step-fail :
    (t : ℕ) (last : Bool) (prev : Option ℕ) (i b : ℕ) (s : Compiler) {e : Error}
    → step t last prev i b s ≡ fail e
    → (b ≡ b':') × (e ≡ colon_error i)
unfolding step
step-fail t last prev i b s h = ground arith

step-ne-panics :
    (t : ℕ) (last : Bool) (prev : Option ℕ) (i b : ℕ) (s : Compiler)
    → step t last prev i b s ≢ panics
unfolding step
step-ne-panics t last prev i b s h = ground arith

run-fail :
    (t : ℕ) (prev : Option ℕ) (i : ℕ) (qs : Bytes) (s : Compiler) {e : Error}
    → run t prev i qs s ≡ fail e
    → RefusedAt i qs e
unfolding run
run-fail t prev i [] s h = absurd (cc)
run-fail t prev i (b ∷ qs) s {e} h = elim (Result-cases (step t (is_empty qs) prev i b s)) [
  | inl (s', went) ↦
      let later = run-fail t (some b) (i + 1) qs s' (rw went at h) in
      let shift : i + 1 + later.k ≡ i + suc later.k = omega arith in
      record { k = suc later.k; colon = later.colon; error = later.error ∙ ap colon_error shift }
  | inr (inl (e', failed)) ↦
      let at_b = step-fail t (is_empty qs) prev i b s failed in
      record { k = 0; colon = ap some at_b.0; error = ground (arith, at_b.1) }
  | inr (inr panicked) ↦ absurd (step-ne-panics t (is_empty qs) prev i b s panicked)
]

run-ne-panics :
    (t : ℕ) (prev : Option ℕ) (i : ℕ) (qs : Bytes) (s : Compiler) → run t prev i qs s ≢ panics
unfolding run
run-ne-panics t prev i [] s h = cc
run-ne-panics t prev i (b ∷ qs) s h = elim (Result-cases (step t (is_empty qs) prev i b s)) [
  | inl (s', went) ↦ run-ne-panics t (some b) (i + 1) qs s' (rw went at h)
  | inr (inl (e', failed)) ↦ absurd (ground (arith, failed))
  | inr (inr panicked) ↦ absurd (step-ne-panics t (is_empty qs) prev i b s panicked)
]

-- `compileNamedQuery` returns a text with its names, or the syntax error that names the index of a
-- byte of the query, and that byte is a `:`. It does not panic.
pub compile_outcome :
    (t : ℕ) (qs : Bytes)
    → ((r : Bytes × List Bytes) × (compile t qs ≡ ok r))
      ⊎ ((i : ℕ) × (compile t qs ≡ fail (colon_error i)) × (get_elem? qs i ≡ some b':'))
unfolding compile
compile_outcome t qs = elim (Result-cases (run t none 0 qs initial)) [
  | inl (s, went) ↦ inl ((s.rebound, s.names), rw went)
  | inr (inl (e, failed)) ↦
      let at_k = run-fail t none 0 qs initial failed in
      let here : 0 + at_k.k ≡ at_k.k = omega arith in
      inr (at_k.k, rw failed (ap fail (at_k.error ∙ ap colon_error here)), at_k.colon)
  | inr (inr panicked) ↦ absurd (run-ne-panics t none 0 qs initial panicked)
]
