-- ===== src/Bind/Rebind.antt =====
-- `Rebind`: the loop over `strings.Index(query, "?")`, and the byte by byte substitution that it
-- amounts to.
pub mod Markers
use sqlx_v.Prelude.{
  ℕ, zero, suc, ◌+◌, ◌<◌, ◌≡◌, inl, inr, refl, ap, ◌∙◌, true, false, ◌||◌, Option, none, some, [],
  ◌∷◌, ◌++◌, append_assoc, arith, ◌==◌, if◌then◌else◌, Option-cases, Bytes, codes, length, take,
  drop, Lacks, count,
}
use sqlx_v.GoStrings.{index_byte, index_byte-some, index_byte-none, itoa}
use sqlx_v.Bind.Registry.{unknown, question, dollar, named, at}

-- What the `switch bindType` in the loop appends.
abbrev pub prefix : ℕ → Bytes
prefix t =
    if t == dollar
    then b'$' ∷ []
    else if t == named
    then codes ":arg"
    else if t == at
    then codes "@p"
    else []

abbrev pub marker : ℕ → ℕ → Bytes
marker t j = prefix t ++ itoa j

-- `for i = strings.Index(query, "?"); i != -1; …` over `rqb`, `j` and `query`; `none` is no fuel.
rebind_loop : ℕ → ℕ → Bytes → ℕ → Bytes → Option Bytes
rebind_loop zero t rqb j query = none
rebind_loop (suc fuel) t rqb j query = elim (index_byte b'?' query) [
  | none ↦ some (rqb ++ query)
  | some i ↦
      rebind_loop fuel t (rqb ++ (take i query ++ marker t (j + 1))) (j + 1) (drop (suc i) query)
]

-- A round cuts the query, so one more round than it has bytes is enough.
unfoldable pub rebind : ℕ → Bytes → Option Bytes
unfolding rebind_loop
rebind t query =
    if t == question || t == unknown
    then some query
    else rebind_loop (suc (length query)) t [] 0 query

-- The reference: the k-th `?` behind `j` of them becomes `mark (j + k)`.
abbrev pub substitute : (ℕ → Bytes) → ℕ → Bytes → Bytes
substitute mark j [] = []
substitute mark j (c ∷ s) = elim (c == b'?') [
  | true ↦ mark (j + 1) ++ substitute mark (j + 1) s
  | false ↦ c ∷ substitute mark j s
]

pub substitute-Lacks :
    (mark : ℕ → Bytes) (j : ℕ) (s : Bytes) → Lacks b'?' s → substitute mark j s ≡ s
substitute-Lacks mark j [] h = refl
substitute-Lacks mark j (c ∷ s) (h, hs) = ground (arith, substitute-Lacks mark j s hs)

pub substitute-append :
    (mark : ℕ → Bytes) (j : ℕ) (s t : Bytes)
    → substitute mark j (s ++ t) ≡ substitute mark j s ++ substitute mark (j + count b'?' s) t
substitute-append mark j [] t = ground arith
substitute-append mark j (c ∷ s) t =
    let n : j + 1 + count b'?' s ≡ j + (1 + count b'?' s) = omega arith in
    ground (
      arith,
      substitute-append mark (j + 1) s t,
      substitute-append mark j s t,
      n,
      append_assoc (mark (j + 1)) (substitute mark (j + 1) s)
          (substitute mark (j + (1 + count b'?' s)) t),
    )

-- The bytes before a `?` are kept, and the `?` becomes the next marker.
pub substitute_hit :
    (mark : ℕ → Bytes) (j : ℕ) (s t : Bytes)
    → Lacks b'?' s
    → substitute mark j (s ++ b'?' ∷ t) ≡ s ++ (mark (j + 1) ++ substitute mark (j + 1) t)
substitute_hit mark j [] t h = refl
substitute_hit mark j (c ∷ s) t (h, hs) = ground (arith, substitute_hit mark j s t hs)

rebind_loop-substitute :
    (fuel t j : ℕ) (rqb query : Bytes)
    → length query < fuel
    → rebind_loop fuel t rqb j query ≡ some (rqb ++ substitute (marker t) j query)
unfolding rebind_loop
rebind_loop-substitute zero t j rqb query h = elim h [ ]
rebind_loop-substitute (suc fuel) t j rqb query h = elim (Option-cases (index_byte b'?' query)) [
  | inl gone ↦
      rw (gone, rebind_loop)
        (rw (substitute-Lacks (marker t) j query (index_byte-none _ query gone)))
  | inr (i, at_i) ↦
      let cut = index_byte-some b'?' query at_i in
      let rest = drop (suc i) query in
      let cutting =
        ap (substitute (marker t) j) cut.splits
        ∙ substitute_hit (marker t) j (take i query) rest cut.lacks in
      rw (at_i, rebind_loop)
        (rebind_loop-substitute fuel t (j + 1) _ rest (omega (arith, cut.shorter))
          ∙ ap some (rw cutting (simp append_assoc)))
]

-- `Rebind` leaves a query alone for the bind types `QUESTION` and `UNKNOWN`, and for every other
-- one it ends and replaces the k-th `?`, counted from 1, by the marker numbered k.
pub rebind-substitute :
    (t : ℕ) (query : Bytes)
    → rebind t query
      ≡ (if t == question || t == unknown then some query else some (substitute (marker t) 0 query))
unfolding rebind
rebind-substitute t query =
    ground (arith, rebind_loop-substitute (suc (length query)) t 0 [] query (omega arith))
