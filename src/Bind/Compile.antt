-- ===== src/Bind/Compile.antt =====
-- `compileNamedQuery` without its cache: the loop over the bytes of the query as a state machine.
-- The modules below are about its cache and what it computes.
pub mod Reading
pub mod Template
pub mod Positional
pub mod Refused
pub mod Trailing
pub mod Cache
pub mod Goroutines
use sqlx_v.Prelude.{
  ℕ, ◌+◌, Bool, true, false, not, ◌&&◌, ◌||◌, Option, none, some, List, [], ◌∷◌, ◌++◌, arith, leb,
  ◌==◌, if◌then◌else◌, ◌≡◌, refl, Bytes, codes,
}
use sqlx_v.Errors.{Error, syntax, errorf, Result, ok, fail, panics, ◌>>=◌}
use sqlx_v.GoStrings.{itoa}
use sqlx_v.Bind.Registry.{unknown, question, dollar, named, at}

-- The variables of the loop.
pub record Compiler : Type 0 where
  pub rebound : Bytes
  pub names : List Bytes
  pub in_name : Bool
  pub name : Bytes
  pub current_var : ℕ

abbrev pub initial : Compiler
initial = record { rebound = []; names = []; in_name = false; name = []; current_var = 1 }

-- `(b >= 'a' && b <= 'z') || (b >= 'A' && b <= 'Z') || (b >= '0' && b <= '9')`.
unfoldable pub is_alnum : ℕ → Bool
is_alnum b = leb b'a' b && leb b b'z' || leb b'A' b && leb b b'Z' || leb b'0' b && leb b b'9'

-- The same, `b == '_'` and `b == '.'`.
unfoldable pub is_name_byte : ℕ → Bool
is_name_byte b = is_alnum b || b == b'_' || b == b'.'

-- `i > 0 && qs[i-1] == ':'`; the byte before the first one is `none`.
abbrev pub is_colon : Option ℕ → Bool
is_colon none = false
is_colon (some b) = b == b':'

abbrev pub is_none : Option ℕ → Bool
is_none none = true
is_none (some b) = false

abbrev pub is_empty {ℓ} : {A : Type ℓ} → List A → Bool
is_empty [] = true
is_empty (x ∷ xs) = false

-- The `switch bindType` on the name that has been read.
unfoldable pub emit_var : ℕ → Compiler → Compiler
emit_var t s =
    if t == named
    then record s { rebound = s.rebound ++ (b':' ∷ s.name) }
    else if t == question || t == unknown
    then record s { rebound = s.rebound ++ b'?' ∷ [] }
    else if t == dollar
    then record s {
      rebound = s.rebound ++ (b'$' ∷ itoa s.current_var);
      current_var = s.current_var + 1;
    }
    else if t == at
    then record s {
      rebound = s.rebound ++ (codes "@p" ++ itoa s.current_var);
      current_var = s.current_var + 1;
    }
    else s

abbrev pub write : ℕ → Compiler → Compiler
write b s = record s { rebound = s.rebound ++ b ∷ [] }

-- The branch that ends a name at the byte `b`; at the last index `b` may belong to the name. First
-- the name is complete.
abbrev pub take_name : Bool → ℕ → Compiler → Compiler
take_name last b s =
    let name = if last && is_alnum b then s.name ++ b ∷ [] else s.name in
    record s { in_name = false; name = name; names = s.names ++ name ∷ [] }

unfoldable pub end_name : ℕ → Bool → ℕ → Compiler → Compiler
end_name t last b s =
    let out = emit_var t (take_name last b s) in
    if not last then write b out else if not (is_alnum b) then write b out else out

-- The body of `for i, b := range qs`. `last` is `i == len(qs) - 1` and `prev` is `qs[i-1]`.
unfoldable pub step : ℕ → Bool → Option ℕ → ℕ → ℕ → Compiler → Result Compiler
step t last prev i b s =
    if b == b':'
    then (if s.in_name && is_colon prev
        then ok (record (write b':' s) { in_name = false })
        else if s.in_name
        then fail
            (errorf "sqlx: unexpected `:` while reading named param at %d: %w" (itoa i ∷ []) syntax)
        else ok (record s { in_name = true; name = [] }))
    else if s.in_name && not (is_none prev) && b == b'=' && is_empty s.name
    then ok (record s { rebound = s.rebound ++ codes ":="; in_name = false })
    else if s.in_name && is_name_byte b && not last
    then ok (record s { name = s.name ++ b ∷ [] })
    else if s.in_name
    then ok (end_name t last b s)
    else ok (write b s)

unfoldable pub run : ℕ → Option ℕ → ℕ → Bytes → Compiler → Result Compiler
run t prev i [] s = ok s
run t prev i (b ∷ qs) s = do s' ← step t (is_empty qs) prev i b s; run t (some b) (i + 1) qs s'

-- What the function computes and stores if the query is not in the cache.
unfoldable pub compile : ℕ → Bytes → Result (Bytes × List Bytes)
unfolding run step end_name emit_var is_name_byte is_alnum
compile t qs = do s ← run t none 0 qs initial; ok (s.rebound, s.names)
