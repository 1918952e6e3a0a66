-- ===== src/Bind/Compile/Reading.antt =====
-- The machine of `compileNamedQuery` over one piece of a query: text, a name, `::` or `:=`.
use sqlx_v.Prelude.{
  ℕ, ◌+◌, Bool, true, false, ◌||◌, Option, some, List, [], ◌∷◌, ◌++◌, append_assoc, append-nil,
  arith, ◌==◌, if◌then◌else◌, ◌≡◌, ◌≢◌, ◌⊎◌, refl, ap, subst, Bytes, codes, All, Lacks,
}
use sqlx_v.Errors.{Result, ok, ◌>>=◌}
use sqlx_v.GoStrings.{itoa}
use sqlx_v.Bind.Registry.{unknown, question, dollar, named, at}
use sqlx_v.Bind.Compile.{Compiler, is_alnum, is_name_byte, is_empty, emit_var, end_name, step, run}

-- How a parameter reads in the bound query, and how the counter moves on.
abbrev pub variable : ℕ → ℕ → Bytes → Bytes
variable t j name =
    if t == named
    then b':' ∷ name
    else if t == question || t == unknown
    then b'?' ∷ []
    else if t == dollar
    then b'$' ∷ itoa j
    else if t == at
    then codes "@p" ++ itoa j
    else []

abbrev pub advance : ℕ → ℕ → ℕ
advance t j = if t == dollar || t == at then j + 1 else j

abbrev pub IsNameByte : ℕ → Type 0
IsNameByte b = is_name_byte b ≡ true

abbrev pub LastIsAlnum : Bytes → Type 0
LastIsAlnum [] = ⊥
LastIsAlnum (b ∷ []) = is_alnum b ≡ true
LastIsAlnum (b ∷ c ∷ s) = LastIsAlnum (c ∷ s)

abbrev pub output : Result Compiler → Result (Bytes × List Bytes)
output r = do s ← r; ok (s.rebound, s.names)

abbrev pub between : Bytes → List Bytes → ℕ → Bytes → Compiler
between rebound names var name = record {
  rebound = rebound;
  names = names;
  in_name = false;
  name = name;
  current_var = var;
}

abbrev pub within : Bytes → List Bytes → ℕ → Bytes → Compiler
within rebound names var name = record {
  rebound = rebound;
  names = names;
  in_name = true;
  name = name;
  current_var = var;
}

emit_var-variable :
    (t : ℕ) (s : Compiler)
    → emit_var t s ≡ record s {
      rebound = s.rebound ++ variable t s.current_var s.name;
      current_var = advance t s.current_var;
    }
unfolding emit_var
emit_var-variable t s = ground (arith, append-nil s.rebound)

alnum_not_other : (b : ℕ) → is_name_byte b ≡ false → is_alnum b ≡ false
unfolding is_name_byte
alnum_not_other b h = ground arith

end_name_other :
    (t : ℕ) (last : Bool) (c : ℕ) (rb : Bytes) (ns : List Bytes) (v : ℕ) (name : Bytes)
    → is_alnum c ≡ false
    → end_name t last c (within rb ns v name)
      ≡ between (rb ++ (variable t v name ++ c ∷ [])) (ns ++ name ∷ []) (advance t v) name
unfolding end_name
end_name_other t last c rb ns v name h = ground (
  arith,
  emit_var-variable t (between rb (ns ++ name ∷ []) v name),
  append_assoc rb (variable t v name) (c ∷ []),
)

step_end :
    (t : ℕ) (last : Bool) (prev : Option ℕ) (i c : ℕ) (rb : Bytes) (ns : List Bytes) (v : ℕ)
    (name : Bytes)
    → name ≢ []
    → (c == b':') ≡ false
    → is_name_byte c ≡ false
    → step t last prev i c (within rb ns v name) ≡ ok (end_name t last c (within rb ns v name))
unfolding step
step_end t last prev i c rb ns v [] h colon other = absurd (h refl)
step_end t last prev i c rb ns v (d ∷ name) h colon other = ground arith

name_not_colon : (b : ℕ) → IsNameByte b → (b == b':') ≡ false
unfolding is_name_byte is_alnum
name_not_colon b h = ground arith

name_not_assign : (b : ℕ) → IsNameByte b → (b == b'=') ≡ false
unfolding is_name_byte is_alnum
name_not_assign b h = ground arith

is_empty-append : (n : Bytes) (c : ℕ) (rest : Bytes) → is_empty (n ++ c ∷ rest) ≡ false
is_empty-append [] c rest = refl
is_empty-append (b ∷ n) c rest = refl

module _ (t : ℕ) (res : Bytes × List Bytes) where
  -- Outside a name neither the position nor the last name read matters.
  abbrev pub Runs : Bytes → List Bytes → ℕ → Bytes → Type 0
  Runs rebound names var qs =
      (prev : Option ℕ) (i : ℕ) (name : Bytes)
      → output (run t prev i qs (between rebound names var name)) ≡ ok res

  pub run-text :
      (s rest rb : Bytes) (ns : List Bytes) (v : ℕ)
      → Lacks b':' s
      → Runs (rb ++ s) ns v rest
      → Runs rb ns v (s ++ rest)
  unfolding run step
  run-text [] rest rb ns v h r prev i name =
      let here : Runs rb ns v rest = rw append-nil at r in here prev i name
  run-text (c ∷ s) rest rb ns v (h, hs) r prev i name =
      let shift : Runs ((rb ++ c ∷ []) ++ s) ns v rest = rw append_assoc r in
      ground (arith, run-text s rest (rb ++ c ∷ []) ns v hs shift (some c) (i + 1) name)

  pub run-colons :
      (rest rb : Bytes) (ns : List Bytes) (v : ℕ)
      → Runs (rb ++ b':' ∷ []) ns v rest
      → Runs rb ns v (b':' ∷ b':' ∷ rest)
  unfolding run step
  run-colons rest rb ns v r prev i name = ground (arith, r (some b':') (i + 1 + 1) [])

  pub run-assign :
      (rest rb : Bytes) (ns : List Bytes) (v : ℕ)
      → Runs (rb ++ codes ":=") ns v rest
      → Runs rb ns v (b':' ∷ b'=' ∷ rest)
  unfolding run step
  run-assign rest rb ns v r prev i name = ground (arith, r (some b'=') (i + 1 + 1) [])

  -- Inside a name that is not empty, or at a name byte, only the bytes matter.
  abbrev pub Reads : Bytes → List Bytes → ℕ → Bytes → Bytes → Type 0
  Reads rb ns v name qs =
      (prev : Option ℕ) (i : ℕ) → output (run t prev i qs (within rb ns v name)) ≡ ok res

  read_byte :
      (b : ℕ) (qs rb : Bytes) (ns : List Bytes) (v : ℕ) (name : Bytes)
      → IsNameByte b
      → is_empty qs ≡ false
      → Reads rb ns v (name ++ b ∷ []) qs
      → Reads rb ns v name (b ∷ qs)
  unfolding run step
  read_byte b qs rb ns v name h more r prev i =
      ground (arith, name_not_colon b h, name_not_assign b h, r (some b) (i + 1))

  pub read_bytes :
      (n : Bytes) (c : ℕ) (rest rb : Bytes) (ns : List Bytes) (v : ℕ) (name : Bytes)
      → All IsNameByte n
      → Reads rb ns v (name ++ n) (c ∷ rest)
      → Reads rb ns v name (n ++ c ∷ rest)
  read_bytes [] c rest rb ns v name h r prev i =
      let here : Reads rb ns v name (c ∷ rest) = rw append-nil at r in here prev i
  read_bytes (b ∷ n) c rest rb ns v name (h, hs) r prev i =
      let shift : Reads rb ns v ((name ++ b ∷ []) ++ n) (c ∷ rest) = rw append_assoc r in
      read_byte b (n ++ c ∷ rest) rb ns v name h (is_empty-append n c rest)
        (read_bytes n c rest rb ns v (name ++ b ∷ []) hs shift) prev i

  read_end :
      (c : ℕ) (rest rb : Bytes) (ns : List Bytes) (v : ℕ) (name : Bytes)
      → name ≢ []
      → (c == b':') ≡ false
      → is_name_byte c ≡ false
      → Runs (rb ++ (variable t v name ++ c ∷ [])) (ns ++ name ∷ []) (advance t v) rest
      → Reads rb ns v name (c ∷ rest)
  unfolding run
  read_end c rest rb ns v name h colon other r prev i =
      rw
        (
          step_end t (is_empty rest) prev i c rb ns v name h colon other,
          end_name_other t (is_empty rest) c rb ns v name (alnum_not_other c other),
        )
        (r (some c) (i + 1) name)

  pub run-param :
      (n : Bytes) (c : ℕ) (rest rb : Bytes) (ns : List Bytes) (v : ℕ)
      → n ≢ []
      → All IsNameByte n
      → (c == b':') ≡ false
      → is_name_byte c ≡ false
      → Runs (rb ++ (variable t v n ++ c ∷ [])) (ns ++ n ∷ []) (advance t v) rest
      → Runs rb ns v (b':' ∷ (n ++ c ∷ rest))
  unfolding run step
  run-param n c rest rb ns v ne h colon other r prev i name = ground (
    arith,
    read_bytes n c rest rb ns v [] h (read_end c rest rb ns v n ne colon other r) (some b':')
        (i + 1),
  )

read_final :
    (t b : ℕ) (rb : Bytes) (ns : List Bytes) (v : ℕ) (name : Bytes)
    → IsNameByte b
    → is_alnum b ≡ true
    → Reads t
        (rb ++ variable t v (name ++ b ∷ []), ns ++ (name ++ b ∷ []) ∷ [])
        rb
        ns
        v
        name
        (b ∷ [])
unfolding run step end_name
read_final t b rb ns v name h e prev i = ground (
  arith,
  name_not_colon b h,
  name_not_assign b h,
  emit_var-variable t (between rb (ns ++ (name ++ b ∷ []) ∷ []) v (name ++ b ∷ [])),
)

Reads-eq :
    (t : ℕ) {res res' : Bytes × List Bytes}
    → res ≡ res'
    → (rb : Bytes) (ns : List Bytes) (v : ℕ) (name qs : Bytes) → Reads t res rb ns v name qs
    → Reads t res' rb ns v name qs
Reads-eq t e rb ns v name qs = subst (λ r. Reads t r rb ns v name qs) e

-- The name runs up to the end of the query.
read_last :
    (t : ℕ) (n rb : Bytes) (ns : List Bytes) (v : ℕ) (name : Bytes)
    → All IsNameByte n
    → LastIsAlnum n
    → Reads t (rb ++ variable t v (name ++ n), ns ++ (name ++ n) ∷ []) rb ns v name n
read_last t [] rb ns v name h e prev i = absurd e
read_last t (b ∷ []) rb ns v name (h, _) e prev i = read_final t b rb ns v name h e prev i
read_last t (b ∷ c ∷ n) rb ns v name (h, hs) e prev i =
    let regroup = append_assoc name (b ∷ []) (c ∷ n) in
    read_byte t _ b (c ∷ n) rb ns v name h refl
      (Reads-eq t (ap (λ u. (rb ++ variable t v u, ns ++ u ∷ [])) regroup) rb ns v (name ++ b ∷ [])
        (c ∷ n) (read_last t (c ∷ n) rb ns v (name ++ b ∷ []) hs e))
      prev i

pub run-last :
    (t : ℕ) (n rb : Bytes) (ns : List Bytes) (v : ℕ)
    → All IsNameByte n
    → LastIsAlnum n
    → Runs t (rb ++ variable t v n, ns ++ n ∷ []) rb ns v (b':' ∷ n)
unfolding run step
run-last t n rb ns v h e prev i name =
    ground (arith, read_last t n rb ns v [] h e (some b':') (i + 1))

-- At the end of the query a `_` or `.` ends the name, which keeps what was read before it.
pub read_cut :
    (t b : ℕ) (rb : Bytes) (ns : List Bytes) (v : ℕ) (name : Bytes)
    → (b ≡ b'_') ⊎ (b ≡ b'.')
    → Reads t (rb ++ (variable t v name ++ b ∷ []), ns ++ name ∷ []) rb ns v name (b ∷ [])
unfolding run step is_alnum
read_cut t b rb ns v name h prev i =
    ground (arith, end_name_other t true b rb ns v name (ground arith))
