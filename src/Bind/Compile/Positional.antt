-- ===== src/Bind/Compile/Positional.antt =====
-- `compileNamedQuery` under two bind types: the same names, and for the numbered bind types the
-- text that `Rebind` makes of the one for `QUESTION`.
use sqlx_v.Prelude.{
  ℕ, ◌+◌, Bool, true, false, not, Option, none, some, List, [], ◌∷◌, append-nil, arith,
  if◌then◌else◌, ◌≡◌, ◌≢◌, ◌⊎◌, refl, sym, ap, ◌∙◌, Bytes, codes, Lacks, count, count-append,
}
use sqlx_v.Errors.{Result, ok, fail, panics, ◌>>=◌, >>=-assoc}
use sqlx_v.Bind.Registry.{question, dollar, at}
use sqlx_v.Bind.Rebind.{marker, substitute, substitute-append, rebind, rebind-substitute}
use sqlx_v.Bind.Compile.{
  Compiler, initial, is_alnum, is_empty, emit_var, end_name, step, run, compile, write, take_name,
}

-- The states of two runs that read the same name at the same place.
record SameNames (s s' : Compiler) : Type 0 where
  names : s.names ≡ s'.names
  in_name : s.in_name ≡ s'.in_name
  name : s.name ≡ s'.name

-- Two results that fail alike, or succeed with states in a relation.
abbrev Both : (Compiler → Compiler → Type 0) → Result Compiler → Result Compiler → Type 0
Both R (ok s) (ok s') = R s s'
Both R (fail e) (fail e') = e ≡ e'
Both R panics panics = Unit
Both R _ _ = ⊥

Both-bind :
    (R : Compiler → Compiler → Type 0) (r r' : Result Compiler) (f f' : Compiler → Result Compiler)
    → Both R r r'
    → ((s s' : Compiler) → R s s' → Both R (f s) (f' s'))
    → Both R (r >>= f) (r' >>= f')
Both-bind R (ok s) (ok s') f f' h k = k s s' h
Both-bind R (ok s) (fail e) f f' h k = elim h [ ]
Both-bind R (ok s) panics f f' h k = elim h [ ]
Both-bind R (fail e) (ok s) f f' h k = elim h [ ]
Both-bind R (fail e) (fail e') f f' h k = h
Both-bind R (fail e) panics f f' h k = elim h [ ]
Both-bind R panics (ok s) f f' h k = elim h [ ]
Both-bind R panics (fail e) f f' h k = elim h [ ]
Both-bind R panics panics f f' h k = tt

emit_var-SameNames :
    (t t' : ℕ) (s s' : Compiler) → SameNames s s' → SameNames (emit_var t s) (emit_var t' s')
unfolding emit_var
emit_var-SameNames t t' s s' h = ground arith

end_name-SameNames :
    (t t' : ℕ) (last : Bool) (b : ℕ) (s s' : Compiler)
    → SameNames s s'
    → SameNames (end_name t last b s) (end_name t' last b s')
unfolding end_name
end_name-SameNames t t' last b s s' h =
    ground
      (arith, emit_var-SameNames t t' (take_name last b s) (take_name last b s') (ground arith))

step-SameNames :
    (t t' : ℕ) (last : Bool) (prev : Option ℕ) (i b : ℕ) (s s' : Compiler)
    → SameNames s s'
    → Both SameNames (step t last prev i b s) (step t' last prev i b s')
unfolding step
step-SameNames t t' last prev i b s s' h = ground (arith, end_name-SameNames t t' last b s s' h)

run-SameNames :
    (t t' : ℕ) (prev : Option ℕ) (i : ℕ) (qs : Bytes) (s s' : Compiler)
    → SameNames s s'
    → Both SameNames (run t prev i qs s) (run t' prev i qs s')
unfolding run
run-SameNames t t' prev i [] s s' h = h
run-SameNames t t' prev i (b ∷ qs) s s' h =
    Both-bind SameNames _ _ _ _ (step-SameNames t t' (is_empty qs) prev i b s s' h)
      λ u u' g. run-SameNames t t' (some b) (i + 1) qs u u' g

abbrev pub names_of : Result (Bytes × List Bytes) → Result (List Bytes)
names_of r = do (u, names) ← r; ok names

Both-names :
    (r r' : Result Compiler)
    → Both SameNames r r'
    → names_of (do s ← r; ok (s.rebound, s.names)) ≡ names_of (do s ← r'; ok (s.rebound, s.names))
Both-names (ok s) (ok s') h = ap ok h.names
Both-names (ok s) (fail e) h = elim h [ ]
Both-names (ok s) panics h = elim h [ ]
Both-names (fail e) (ok s) h = elim h [ ]
Both-names (fail e) (fail e') h = ap fail h
Both-names (fail e) panics h = elim h [ ]
Both-names panics (ok s) h = elim h [ ]
Both-names panics (fail e) h = elim h [ ]
Both-names panics panics h = refl

-- The bind type decides nothing but the text: under any two of them a query has the same names, or
-- the same error at the same place.
pub compile-names_of : (t t' : ℕ) (qs : Bytes) → names_of (compile t qs) ≡ names_of (compile t' qs)
unfolding compile
compile-names_of t t' qs = Both-names (run t none 0 qs initial) (run t' none 0 qs initial) (
    run-SameNames t t' none 0 qs initial initial
      (record { names = refl; in_name = refl; name = refl }))

-- The first run is under `QUESTION`, the second under a numbered bind type.
record Numbered (t : ℕ) (s s' : Compiler) : Type 0 where
  same : SameNames s s'
  text : s'.rebound ≡ substitute (marker t) 0 s.rebound
  counter : s'.current_var ≡ count b'?' s.rebound + 1

-- `$1`, `$2` or `@p1`, `@p2`.
abbrev pub IsNumbered : ℕ → Type 0
IsNumbered t = (t ≡ dollar) ⊎ (t ≡ at)

write-Numbered :
    (t b : ℕ) (s s' : Compiler) → b ≢ b'?' → Numbered t s s' → Numbered t (write b s) (write b s')
write-Numbered t b s s' h n =
    ground (
      arith,
      substitute-append (marker t) 0 s.rebound (b ∷ []),
      count-append b'?' s.rebound (b ∷ []),
    )

emit_var-Numbered :
    (t : ℕ) (s s' : Compiler)
    → IsNumbered t
    → Numbered t s s'
    → Numbered t (emit_var question s) (emit_var t s')
unfolding emit_var
emit_var-Numbered t s s' h n = ground (
  arith,
  substitute-append (marker t) 0 s.rebound (b'?' ∷ []),
  count-append b'?' s.rebound (b'?' ∷ []),
  append-nil (marker t (count b'?' s.rebound + 1)),
)

abbrev Compiled : Type 0
Compiled = Result (Bytes × List Bytes)

abbrev plain_output : Compiler → Compiled
plain_output s = ok (s.rebound, s.names)

abbrev numbered_output : ℕ → Compiler → Compiled
numbered_output t s = ok (substitute (marker t) 0 s.rebound, s.names)

abbrev renumber : ℕ → Bytes × List Bytes → Compiled
renumber t (u, names) = ok (substitute (marker t) 0 u, names)

module _ (t : ℕ) (numbered : IsNumbered t) where
  take_name-Numbered :
      (last : Bool) (b : ℕ) (s s' : Compiler)
      → Numbered t s s'
      → Numbered t (take_name last b s) (take_name last b s')
  take_name-Numbered last b s s' n = ground arith

  end_name-Numbered :
      (last : Bool) (b : ℕ) (s s' : Compiler)
      → b ≢ b'?'
      → Numbered t s s'
      → Numbered t (end_name question last b s) (end_name t last b s')
  unfolding end_name
  end_name-Numbered last b s s' h n =
      let out =
        emit_var-Numbered t (take_name last b s) (take_name last b s') numbered
          (take_name-Numbered last b s s' n) in
      let written = write-Numbered t b _ _ h out in branch (not last) (not (is_alnum b)) written out
    where
      branch :
          (x y : Bool) {u u' w w' : Compiler}
          → Numbered t u u'
          → Numbered t w w'
          → Numbered t
              (if x then u else if y then u else w)
              (if x then u' else if y then u' else w')
      branch true y h g = h
      branch false true h g = h
      branch false false h g = g

  step-Numbered :
      (last : Bool) (prev : Option ℕ) (i b : ℕ) (s s' : Compiler)
      → b ≢ b'?'
      → Numbered t s s'
      → Both (Numbered t) (step question last prev i b s) (step t last prev i b s')
  unfolding step
  step-Numbered last prev i b s s' h n = ground (
    arith,
    end_name-Numbered last b s s' h n,
    write-Numbered t b s s' h n,
    write-Numbered t b':' s s' (omega arith) n,
    substitute-append (marker t) 0 s.rebound (codes ":="),
    count-append b'?' s.rebound (codes ":="),
  )

  run-Numbered :
      (prev : Option ℕ) (i : ℕ) (qs : Bytes) (s s' : Compiler)
      → Lacks b'?' qs
      → Numbered t s s'
      → Both (Numbered t) (run question prev i qs s) (run t prev i qs s')
  unfolding run
  run-Numbered prev i [] s s' _ n = n
  run-Numbered prev i (b ∷ qs) s s' (h, hs) n =
      Both-bind (Numbered t) _ _ _ _ (step-Numbered (is_empty qs) prev i b s s' h n)
        λ u u' g. run-Numbered (some b) (i + 1) qs u u' hs g

  Both-text :
      (r r' : Result Compiler)
      → Both (Numbered t) r r'
      → r' >>= plain_output ≡ r >>= numbered_output t
  Both-text (ok s) (ok s') h = ground (arith, h.text, h.same.names)
  Both-text (ok s) (fail e) h = elim h [ ]
  Both-text (ok s) panics h = elim h [ ]
  Both-text (fail e) (ok s) h = elim h [ ]
  Both-text (fail e) (fail e') h = ap fail (sym h)
  Both-text (fail e) panics h = elim h [ ]
  Both-text panics (ok s) h = elim h [ ]
  Both-text panics (fail e) h = elim h [ ]
  Both-text panics panics h = refl

  compile-substitute :
      (qs : Bytes) → Lacks b'?' qs → compile t qs ≡ compile question qs >>= renumber t
  unfolding compile
  compile-substitute qs lacks =
      Both-text _ _ (run-Numbered none 0 qs initial initial lacks start)
      ∙ sym (>>=-assoc (run question none 0 qs initial) plain_output (renumber t))
    where
      start : Numbered t initial initial
      start = record {
        same = record { names = refl; in_name = refl; name = refl };
        text = refl;
        counter = refl;
      }

  -- For a query with no `?` of its own, compiling for `DOLLAR` or `AT` gives what `Rebind` makes of
  -- the query compiled for `QUESTION`, with the same names; `bindArray` relies on it.
  pub compile-rebind :
      (qs : Bytes) {u : Bytes} {names : List Bytes}
      → Lacks b'?' qs
      → compile question qs ≡ ok (u, names)
      → (u' : Bytes) × (rebind t u ≡ some u') × (compile t qs ≡ ok (u', names))
  compile-rebind qs {u} lacks h = (
    substitute (marker t) 0 u,
    ground (arith, rebind-substitute t u),
    compile-substitute qs lacks ∙ rw h,
  )
