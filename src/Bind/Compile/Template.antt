-- ===== src/Bind/Compile/Template.antt =====
-- What `compileNamedQuery` does with a query that is put together from text, named parameters, the
-- escape `::` and the operator `:=`.
use sqlx_v.Prelude.{
  ℕ, false, none, List, [], ◌∷◌, ◌++◌, append_assoc, append-nil, ◌≡◌, ◌≢◌, ap, ap₂, subst, ==_ne,
  Bytes, codes, All, Lacks,
}
use sqlx_v.Errors.{ok}
use sqlx_v.Bind.Compile.{is_name_byte, run, compile}
use sqlx_v.Bind.Compile.Reading.{
  variable, advance, IsNameByte, LastIsAlnum, Runs, run-text, run-colons, run-assign, run-param,
  run-last,
}

pub data Piece : Type 0 where
  param : Bytes → Piece
  colons : Piece
  assign : Piece

abbrev pub render_piece : Piece → Bytes
render_piece (param n) = b':' ∷ n
render_piece colons = codes "::"
render_piece assign = codes ":="

-- Each piece stands with the text behind it.
abbrev pub Pieces : Type 0
Pieces = List (Piece × Bytes)

abbrev pub render : Pieces → Bytes
render [] = []
render ((p, s) ∷ ps) = render_piece p ++ (s ++ render ps)

abbrev pub bound : ℕ → ℕ → Pieces → Bytes
bound t j [] = []
bound t j ((param n, s) ∷ ps) = variable t j n ++ (s ++ bound t (advance t j) ps)
bound t j ((colons, s) ∷ ps) = b':' ∷ (s ++ bound t j ps)
bound t j ((assign, s) ∷ ps) = codes ":=" ++ (s ++ bound t j ps)

abbrev pub param_names : Pieces → List Bytes
param_names [] = []
param_names ((param n, s) ∷ ps) = n ∷ param_names ps
param_names ((colons, s) ∷ ps) = param_names ps
param_names ((assign, s) ∷ ps) = param_names ps

-- A name is not empty and is ended by text whose first byte cannot belong to it, or by the end of the
-- query, and then its own last byte is a letter or a digit. No other piece follows it directly.
abbrev pub Ends : Bytes → Bytes → Pieces → Type 0
Ends n [] [] = LastIsAlnum n
Ends n [] (p ∷ ps) = ⊥
Ends n (c ∷ s) ps = is_name_byte c ≡ false

abbrev pub PieceFits : Piece → Bytes → Pieces → Type 0
PieceFits (param n) s ps = (n ≢ []) × All IsNameByte n × Ends n s ps
PieceFits _ s ps = Unit

abbrev pub Fits : Pieces → Type 0
Fits [] = Unit
Fits ((p, s) ∷ ps) = Lacks b':' s × PieceFits p s ps × Fits ps

Runs-eq :
    (t : ℕ) {res res' : Bytes × List Bytes}
    → res ≡ res'
    → (rb : Bytes) (ns : List Bytes) (v : ℕ) (qs : Bytes) → Runs t res rb ns v qs
    → Runs t res' rb ns v qs
Runs-eq t e rb ns v qs = subst (λ r. Runs t r rb ns v qs) e

Runs-render :
    (t : ℕ) (ps : Pieces) (rb : Bytes) (ns : List Bytes) (v : ℕ)
    → Fits ps
    → Runs t (rb ++ bound t v ps, ns ++ param_names ps) rb ns v (render ps)
unfolding run
Runs-render t [] rb ns v h prev i name = rw (append-nil, append-nil)
Runs-render t ((param n, []) ∷ []) rb ns v (_, (ne, all, e), _) prev i name =
    simp append-nil (run-last t n rb ns v all e prev i name)
Runs-render t ((param n, []) ∷ (p ∷ ps)) rb ns v (_, (ne, all, e), _) prev i name = elim e [ ]
Runs-render t ((param n, c ∷ s) ∷ ps) rb ns v ((nc, lacks), (ne, all, e), h) prev i name =
    let rb' = rb ++ (variable t v n ++ c ∷ []) in
    let later = Runs-render t ps (rb' ++ s) (ns ++ n ∷ []) (advance t v) h in
    run-param t _ n c (s ++ render ps) rb ns v ne all (==_ne nc) e
      (run-text t _ s (render ps) rb' (ns ++ n ∷ []) (advance t v) lacks
        (Runs-eq t (ap₂ (λ u w. (u, w)) (simp append_assoc) (simp append_assoc)) _ _ _ _ later))
      prev i name
Runs-render t ((colons, s) ∷ ps) rb ns v (lacks, _, h) prev i name =
    let later = Runs-render t ps ((rb ++ b':' ∷ []) ++ s) ns v h in
    run-colons t _ (s ++ render ps) rb ns v
      (run-text t _ s (render ps) _ ns v lacks
        (Runs-eq t (ap (λ u. (u, ns ++ param_names ps)) (simp append_assoc)) _ _ _ _ later))
      prev i name
Runs-render t ((assign, s) ∷ ps) rb ns v (lacks, _, h) prev i name =
    let later = Runs-render t ps ((rb ++ codes ":=") ++ s) ns v h in
    run-assign t _ (s ++ render ps) rb ns v
      (run-text t _ s (render ps) _ ns v lacks
        (Runs-eq t (ap (λ u. (u, ns ++ param_names ps)) (simp append_assoc)) _ _ _ _ later))
      prev i name

-- A query made of text without `:`, of parameters, of `::` and of `:=` compiles to the text, with
-- each parameter as the bind type writes it, numbered from 1, each `::` as `:` and each `:=` as it
-- is; the names are those of the parameters, in order. Each name is not empty, is made of letters,
-- digits, `_` and `.`, and either is followed by text whose first byte cannot belong to a name or,
-- with a letter or a digit as its last byte, ends the query: a parameter that `::`, `:=` or another
-- parameter follows directly, as in `:id::text`, is left out.
pub compile-render :
    (t : ℕ) (text : Bytes) (ps : Pieces)
    → Lacks b':' text
    → Fits ps
    → compile t (text ++ render ps) ≡ ok (text ++ bound t 1 ps, param_names ps)
unfolding compile
compile-render t text ps lacks h =
    run-text t _ text (render ps) [] [] 1 lacks (Runs-render t ps text [] 1 h) none 0 []
