-- ===== src/Bind/Named/Spread.antt =====
-- How many `?` the repeated group has.
use sqlx_v.Prelude.{
  ℕ, zero, suc, ◌+◌, ◌*◌, ◌≤◌, ◌<◌, ◌≡◌, refl, sym, ap, ◌∙◌, inl, inr, none, some, List, [], ◌∷◌,
  ◌++◌, arith, Bytes, codes, length, take, drop, drop-drop, take-append-drop, count, count-append,
  count-Lacks, Option-cases,
}
use sqlx_v.Errors.{ok}
use sqlx_v.GoStrings.{index_byte, last_index_byte, index_byte-some, index_byte-none}
use sqlx_v.Bind.Named.{join_groups, repeat_group, spread}

count-join_groups :
    (n : ℕ) (group : Bytes) → count b'?' (join_groups n group) ≡ n * count b'?' group
count-join_groups zero group = omega arith
count-join_groups (suc zero) group = omega arith
count-join_groups (suc (suc n)) group = omega (
  arith,
  count-append b'?' group (codes ", " ++ join_groups (suc n) group),
  count-join_groups (suc n) group,
)

-- A longer prefix has no fewer of a byte.
count-take : (b m n : ℕ) (s : Bytes) → m ≤ n → count b (take m s) ≤ count b (take n s)
count-take b zero n s h = omega arith
count-take b (suc m) zero s h = absurd (omega arith)
count-take b (suc m) (suc n) [] h = omega arith
count-take b (suc m) (suc n) (c ∷ s) h = ground (arith, count-take b m n s (omega arith))

count-take-take : (b m n : ℕ) (s : Bytes) → count b (take m (take n s)) ≤ count b (take m s)
count-take-take b zero n s = omega arith
count-take-take b (suc m) zero s = omega arith
count-take-take b (suc m) (suc n) [] = omega arith
count-take-take b (suc m) (suc n) (c ∷ s) = ground (arith, count-take-take b m n s)

count-split : (b n : ℕ) (s : Bytes) → count b s ≡ count b (take n s) + count b (drop n s)
count-split b n s = ap (count b) (sym (take-append-drop n s)) ∙ count-append b (take n s) (drop n s)

last_index_byte-none : (b : ℕ) (s : Bytes) → last_index_byte b s ≡ none → count b s ≡ 0
unfolding last_index_byte
last_index_byte-none b [] h = refl
last_index_byte-none b (c ∷ s) h = elim (Option-cases (last_index_byte b s)) [
  | inl gone ↦ ground (arith, last_index_byte-none b s gone)
  | inr (i, e) ↦ absurd (ground arith)
]

-- Behind the last one there is none, and it is within the bytes.
record LastAt (b : ℕ) (s : Bytes) (i : ℕ) : Type 0 where
  none_behind : count b (drop (suc i) s) ≡ 0
  within : i < length s

last_index_byte-some : (b : ℕ) (s : Bytes) {i : ℕ} → last_index_byte b s ≡ some i → LastAt b s i
unfolding last_index_byte
last_index_byte-some b [] h = absurd (ground arith)
last_index_byte-some b (c ∷ s) {i} h = elim (Option-cases (last_index_byte b s)) [
  | inl gone ↦
      let e : i ≡ 0 = ground arith in
      rw e (record { none_behind = last_index_byte-none b s gone; within = omega arith })
  | inr (j, later) ↦
      let e : i ≡ suc j = ground arith in
      let known = last_index_byte-some b s later in
      rw e (record { none_behind = known.none_behind; within = omega (arith, known.within) })
]

length-take : {A : Type 0} (n : ℕ) (xs : List A) → length (take n xs) ≤ n
length-take zero xs = omega arith
length-take (suc n) [] = omega arith
length-take (suc n) (x ∷ xs) = omega (arith, length-take n xs)

repeat_group-count :
    (n : ℕ) (u : Bytes) (first_q last_q open_p c : ℕ)
    → count b'?' (take first_q u) ≡ 0
    → count b'?' (drop (suc last_q) u) ≡ 0
    → open_p ≤ first_q
    → count b'?' (repeat_group n u open_p (c + last_q)) ≡ n * count b'?' u
repeat_group-count n u first_q last_q open_p c before behind le =
    let k = c + last_q + 1 in
    let shift : k ≡ suc last_q + c = omega arith in
    let tail : count b'?' (drop k u) ≡ 0 =
      rw (shift, drop-drop (suc last_q) c u)
        (omega (arith, count-split b'?' c (drop (suc last_q) u), behind)) in
    let group = drop open_p (take k u) in
    let same : count b'?' group ≡ count b'?' u = omega (
      arith,
      tail,
      before,
      count-split b'?' k u,
      count-split b'?' open_p (take k u),
      count-take-take b'?' open_p k u,
      count-take b'?' open_p first_q u le,
    ) in
    let front : count b'?' (take open_p u) ≡ 0 =
      omega (arith, before, count-take b'?' open_p first_q u le) in
    count-append b'?' (take open_p u) (join_groups n group ++ drop k u)
    ∙ rw
        (
          front,
          count-append b'?' (join_groups n group) (drop k u),
          tail,
          count-join_groups n group,
          same,
        )
        (omega arith)

-- For `n` elements the new query has `n` times the `?` of the compiled one.
pub spread-count :
    (n : ℕ) (u : Bytes) {q : Bytes} → spread n u ≡ ok q → count b'?' q ≡ n * count b'?' u
unfolding spread
spread-count n u {q} h = elim (Option-cases (index_byte b'?' u)) [
  | inl gone ↦
      let e : q ≡ u = ground arith in
      let zero_q : count b'?' u ≡ 0 = count-Lacks b'?' u (index_byte-none b'?' u gone) in
      rw (e, zero_q) (omega arith)
  | inr (first_q, found) ↦ elim (Option-cases (last_index_byte b'?' u)) [
    | inl gone ↦
        let e : q ≡ u = ground arith in rw (e, last_index_byte-none b'?' u gone) (omega arith)
    | inr (last_q, last) ↦ elim (Option-cases (last_index_byte b'(' (take first_q u))) [
      | inl gone ↦ absurd (ground arith)
      | inr (open_p, opens) ↦ elim (Option-cases (index_byte b')' (drop last_q u))) [
        | inl gone ↦ absurd (ground arith)
        | inr (c, closes) ↦
            let e : q ≡ repeat_group n u open_p (c + last_q) = ground arith in
            let first_at = index_byte-some b'?' u found in
            let open_at = last_index_byte-some b'(' (take first_q u) opens in
            rw e (
              repeat_group-count n u first_q last_q open_p c (count-Lacks b'?' _ first_at.lacks)
                (last_index_byte-some b'?' u last).none_behind
                (omega (arith, open_at.within, length-take first_q u)))
      ]
    ]
  ]
]
