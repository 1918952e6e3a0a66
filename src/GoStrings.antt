-- ===== src/GoStrings.antt =====
-- What the source uses of Go's `strings` and `strconv`: the index of a byte and decimal print.
use sqlx_v.Prelude.{
  ℕ, zero, suc, ◌+◌, ◌-◌, ◌*◌, ◌/◌, ◌%◌, ◌≤◌, ◌<◌, ◌≡◌, ◌⊎◌, inl, inr, refl, Option, none, some, [],
  ◌∷◌, ◌++◌, arith, ◌==◌, if◌then◌else◌, Bool-cases, Bytes, codes, length, take, drop, Lacks,
}

-- `strings.IndexByte`, with `none` for -1.
unfoldable pub index_byte : ℕ → Bytes → Option ℕ
index_byte b [] = none
index_byte b (c ∷ s) =
    if c == b then some 0 else elim (index_byte b s) [ none ↦ none | some i ↦ some (suc i) ]

-- `strings.LastIndexByte`.
unfoldable pub last_index_byte : ℕ → Bytes → Option ℕ
last_index_byte b [] = none
last_index_byte b (c ∷ s) = elim (last_index_byte b s) [
  | none ↦ if c == b then some 0 else none
  | some i ↦ some (suc i)
]

-- The bytes up to the first `b`, and those behind it.
pub record SplitAt (b : ℕ) (s : Bytes) (i : ℕ) : Type 0 where
  pub splits : s ≡ take i s ++ b ∷ drop (suc i) s
  pub lacks : Lacks b (take i s)
  pub take_next : take (suc i) s ≡ take i s ++ b ∷ []
  pub shorter : length (drop (suc i) s) < length s
  pub within : i < length s

-- What `index_byte` finds.
pub index_byte-some : (b : ℕ) (s : Bytes) {i : ℕ} → index_byte b s ≡ some i → SplitAt b s i
unfolding index_byte
index_byte-some b [] h = ground arith
index_byte-some b (c ∷ s) {i = zero} h = record {
  splits = ground arith;
  lacks = tt;
  take_next = ground arith;
  shorter = omega arith;
  within = omega arith;
}
index_byte-some b (c ∷ s) {i = suc i} h =
    let found : index_byte b s ≡ some i = ground arith in
    let rest = index_byte-some b s found in
    record {
      splits = ground (arith, rest.splits);
      lacks = (ground arith, rest.lacks);
      take_next = ground (arith, rest.take_next);
      shorter = omega (arith, rest.shorter);
      within = omega (arith, rest.within);
    }

pub index_byte-none : (b : ℕ) (s : Bytes) → index_byte b s ≡ none → Lacks b s
unfolding index_byte
index_byte-none b [] h = tt
index_byte-none b (c ∷ s) h = (ground arith, index_byte-none b s (ground arith))

-- One round for each digit; `fuel` bounds the rounds.
digits : ℕ → ℕ → Bytes → Bytes
digits zero n out = out
digits (suc fuel) n out =
    let rest = digits fuel (n / 10) ((b'0' + n % 10) ∷ out) in if n == 0 then out else rest

-- `strconv.Itoa` and `strconv.AppendInt(_, n, 10)` for `n ≥ 0`.
unfoldable pub itoa : ℕ → Bytes
unfolding digits
itoa n = if n == 0 then b'0' ∷ [] else digits n n []

digits-Lacks :
    (b fuel n : ℕ) (out : Bytes)
    → (b < b'0') ⊎ (b'9' < b)
    → Lacks b out
    → Lacks b (digits fuel n out)
unfolding digits
digits-Lacks b zero n out h lacks = lacks
digits-Lacks b (suc fuel) n out h lacks =
    ground (arith, digits-Lacks b fuel (n / 10) ((b'0' + n % 10) ∷ out))

-- A printed number holds digits only.
pub itoa-Lacks : (b n : ℕ) → (b < b'0') ⊎ (b'9' < b) → Lacks b (itoa n)
unfolding itoa
itoa-Lacks b n h = ground (arith, digits-Lacks b n n [])

-- The number that the digits of `s` spell behind `n`.
abbrev pub value : ℕ → Bytes → ℕ
value n [] = n
value n (c ∷ s) = value (n * 10 + (c - b'0')) s

value-digits : (fuel n : ℕ) (out : Bytes) → n ≤ fuel → value 0 (digits fuel n out) ≡ value n out
unfolding digits
value-digits zero n out h = ground arith
value-digits (suc fuel) n out h = elim (Bool-cases (n == 0)) [
  | inl stop ↦ ground arith
  | inr more ↦ ground (arith, value-digits fuel (n / 10) ((b'0' + n % 10) ∷ out))
]

-- The print of a number spells it, so two numbers are never printed alike.
pub value-itoa : (n : ℕ) → value 0 (itoa n) ≡ n
unfolding itoa
value-itoa n = ground (arith, value-digits n n [])

itoa_120 : itoa 120 ≡ codes "120"
unfolding itoa
itoa_120 = refl
