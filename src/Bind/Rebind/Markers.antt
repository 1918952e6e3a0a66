-- ===== src/Bind/Rebind/Markers.antt =====
-- What `Rebind` leaves behind: no `?`, so that a second call changes nothing.
use sqlx_v.Prelude.{
  ℕ, ◌+◌, ◌≡◌, ◌≢◌, inl, inr, sym, subst, true, false, some, [], ◌∷◌, ◌++◌, arith, ◌==◌, Bytes,
  Lacks, All-append, Bool-cases,
}
use sqlx_v.GoStrings.{itoa, itoa-Lacks}
use sqlx_v.Bind.Registry.{unknown, question}
use sqlx_v.Bind.Rebind.{prefix, marker, substitute, substitute-Lacks, rebind, rebind-substitute}

prefix-Lacks : (t : ℕ) → Lacks b'?' (prefix t)
prefix-Lacks t = ground arith

marker-Lacks : (t j : ℕ) → Lacks b'?' (marker t j)
marker-Lacks t j =
    All-append _ (prefix t) (itoa j) (prefix-Lacks t) (itoa-Lacks b'?' j (inr (omega arith)))

substitute_no_question : (t j : ℕ) (s : Bytes) → Lacks b'?' (substitute (marker t) j s)
substitute_no_question t j [] = tt
substitute_no_question t j (c ∷ s) = elim (Bool-cases (c == b'?')) [
  | inl hit ↦
      subst
        (λ x. Lacks b'?' (elim x [
          | true ↦ marker t (j + 1) ++ substitute (marker t) (j + 1) s
          | false ↦ c ∷ substitute (marker t) j s
        ]))
        (sym hit)
        (All-append _ (marker t (j + 1)) _ (marker-Lacks t (j + 1))
          (substitute_no_question t (j + 1) s))
  | inr miss ↦ ground (arith, substitute_no_question t j s)
]

-- For a bind type other than `QUESTION` and `UNKNOWN` the result of `Rebind` has no `?`, and a
-- second `Rebind`, to any bind type, returns it as it is.
pub rebind-rebind :
    (t t' : ℕ) (query : Bytes) {u : Bytes}
    → t ≢ question
    → t ≢ unknown
    → rebind t query ≡ some u
    → Lacks b'?' u × (rebind t' u ≡ some u)
rebind-rebind t t' query {u} h k r =
    let text : substitute (marker t) 0 query ≡ u = ground (arith, rebind-substitute t query) in
    let clean = subst (Lacks b'?') text (substitute_no_question t 0 query) in
    (clean, ground (arith, rebind-substitute t' u, substitute-Lacks (marker t') 0 u clean))
