-- ===== src/Bind/Compile/Trailing.antt =====
-- The names that `compileNamedQuery` cuts short.
use sqlx_v.Prelude.{
  ℕ, ◌+◌, none, some, List, [], ◌∷◌, ◌++◌, append_assoc, append-nil, arith, ◌≡◌, ◌⊎◌, refl, subst,
  ==_ne, Bytes, codes, All, Lacks,
}
use sqlx_v.Errors.{ok}
use sqlx_v.Bind.Compile.{compile, run, step}
use sqlx_v.Bind.Compile.Reading.{
  variable, advance, IsNameByte, Runs, run-text, run-colons, run-assign, run-param, read_bytes,
  read_cut,
}
use sqlx_v.Bind.Compile.Template.{Pieces, Fits, param, colons, assign, render, bound, param_names}

-- The counter behind the pieces.
abbrev pub advances : ℕ → ℕ → Pieces → ℕ
advances t j [] = j
advances t j ((param n, s) ∷ ps) = advances t (advance t j) ps
advances t j ((colons, s) ∷ ps) = advances t j ps
advances t j ((assign, s) ∷ ps) = advances t j ps

-- Every parameter is followed by text, the last one too.
abbrev pub IsClosed : Pieces → Type 0
IsClosed [] = Unit
IsClosed ((param n, []) ∷ ps) = ⊥
IsClosed ((param n, c ∷ s) ∷ ps) = IsClosed ps
IsClosed ((colons, s) ∷ ps) = IsClosed ps
IsClosed ((assign, s) ∷ ps) = IsClosed ps

run-cut :
    (t : ℕ) (rb : Bytes) (ns : List Bytes) (v : ℕ) (n : Bytes) (b : ℕ)
    → All IsNameByte n
    → (b ≡ b'_') ⊎ (b ≡ b'.')
    → Runs t (rb ++ (variable t v n ++ b ∷ []), ns ++ n ∷ []) rb ns v (b':' ∷ (n ++ b ∷ []))
unfolding run step
run-cut t rb ns v n b all h prev i name =
    let cut = read_bytes t _ n b [] rb ns v [] all (read_cut t b rb ns v n h) in
    ground (arith, cut (some b':') (i + 1))

module _ (t : ℕ) (res : Bytes × List Bytes) (tail : Bytes) where
  Runs-at :
      {rb rb' : Bytes} {ns ns' : List Bytes} (v : ℕ)
      → rb ≡ rb'
      → ns ≡ ns'
      → Runs t res rb ns v tail
      → Runs t res rb' ns' v tail
  Runs-at {rb} {rb'} {ns} {ns'} v e f r =
      subst (λ u. Runs t res u ns' v tail) e (subst (λ u. Runs t res rb u v tail) f r)

  Runs-over :
      (rb : Bytes) (ns : List Bytes) (v : ℕ) {qs qs' : Bytes}
      → qs ≡ qs'
      → Runs t res rb ns v qs
      → Runs t res rb ns v qs'
  Runs-over rb ns v e = subst (λ u. Runs t res rb ns v u) e

  -- The machine reads pieces and then what stands behind them.
  run-render :
      (ps : Pieces) (rb : Bytes) (ns : List Bytes) (v : ℕ)
      → Fits ps
      → IsClosed ps
      → Runs t res (rb ++ bound t v ps) (ns ++ param_names ps) (advances t v ps) tail
      → Runs t res rb ns v (render ps ++ tail)
  run-render [] rb ns v h closed r = Runs-at v (append-nil rb) (append-nil ns) r
  run-render ((param n, []) ∷ ps) rb ns v h closed r = absurd closed
  run-render ((param n, c ∷ s) ∷ ps) rb ns v ((nc, lacks), (ne, all, e), h) closed r =
      let rb' = (rb ++ (variable t v n ++ c ∷ [])) ++ s in
      let rest =
        run-render ps rb' (ns ++ n ∷ []) (advance t v) h closed
          (Runs-at _ (simp append_assoc) (simp append_assoc) r) in
      Runs-over rb ns v (simp append_assoc) (
        run-param t res n c _ rb ns v ne all (==_ne nc) e
          (run-text t res s (render ps ++ tail) _ _ _ lacks rest))
  run-render ((colons, s) ∷ ps) rb ns v (lacks, _, h) closed r =
      let rest =
        run-render ps ((rb ++ b':' ∷ []) ++ s) ns v h closed
          (Runs-at (advances t v ps) (simp append_assoc) refl r) in
      Runs-over rb ns v (simp append_assoc)
        (run-colons t res _ rb ns v (run-text t res s (render ps ++ tail) _ ns v lacks rest))
  run-render ((assign, s) ∷ ps) rb ns v (lacks, _, h) closed r =
      let rest =
        run-render ps ((rb ++ codes ":=") ++ s) ns v h closed
          (Runs-at _ (simp append_assoc) refl r) in
      Runs-over rb ns v (simp append_assoc)
        (run-assign t res _ rb ns v (run-text t res s (render ps ++ tail) _ ns v lacks rest))

-- A parameter at the end of the query whose name ends in `_` or `.` loses that byte: it is written
-- behind the parameter, and the name is recorded without it. Before it stand text without `:` and
-- then any number of parameters, `::` and `:=`, which compile as they do in other queries; each of
-- these parameters has a name that is not empty, made of letters, digits, `_` and `.`, and is
-- followed by text whose first byte cannot belong to it.
pub compile_trailing :
    (t : ℕ) (text : Bytes) (ps : Pieces) (n : Bytes) (b : ℕ)
    → Lacks b':' text
    → Fits ps
    → IsClosed ps
    → All IsNameByte n
    → (b ≡ b'_') ⊎ (b ≡ b'.')
    → compile t (text ++ (render ps ++ b':' ∷ (n ++ b ∷ [])))
      ≡ ok (
        (text ++ bound t 1 ps) ++ (variable t (advances t 1 ps) n ++ b ∷ []),
        param_names ps ++ n ∷ [],
      )
unfolding compile
compile_trailing t text ps n b lacks fits closed all h =
    let cut = run-cut t (text ++ bound t 1 ps) (param_names ps) (advances t 1 ps) n b all h in
    run-text t _ text _ [] [] 1 lacks (run-render t _ _ ps text [] 1 fits closed cut) none 0 []
