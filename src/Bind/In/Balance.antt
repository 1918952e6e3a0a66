-- ===== src/Bind/In/Balance.antt =====
-- The `?` and the arguments of `In` are as many before and behind it.
use sqlx_v.Prelude.{
  ℕ, zero, suc, ◌+◌, ◌-◌, Bool, true, false, ◌||◌, Option, none, some, List, [], ◌∷◌, ◌++◌, ◌≡◌,
  refl, sym, ap, ap₂, subst, ==_iff, some-injective, ◌∙◌, inl, inr, arith, ◌==◌, Bool-cases, ◌⊎◌,
  Bytes, length, length-append, take, count, count-append,
}
use sqlx_v.Errors.{Result, ok, fail, panics, ◌>>=◌, >>=-elim}
use sqlx_v.Value.{Value, nil, slice_value, to_list}
use sqlx_v.Bind.In.{
  ArgMeta, append_reflect_slice, more_marks, arg_meta, scan_args, in_query, through_valuer,
  as_slice_for_in,
}
use sqlx_v.Bind.In.Expand.{
  expand, arg_values, behind, in_query-expand, expand_done, expand_few, expand_many, expand_at,
  expand_other,
}

-- The values that an argument stands for: the elements of a slice, or the argument.
unfoldable pub flat_arg : Value → List Value
flat_arg arg = elim (as_slice_for_in arg) [
  | none ↦ arg ∷ []
  | some v ↦ elim v [ slice_value t vs ↦ to_list vs | _ ↦ [] ]
]

-- What the first loop knows of an argument that it has passed.
record Describes (m : ArgMeta) (arg : Value) : Type 0 where
  values : arg_values m ≡ flat_arg arg
  marks : count b'?' (more_marks (m.length - 1)) + 1 ≡ length (flat_arg arg)

count-more_marks : (n : ℕ) → count b'?' (more_marks n) ≡ n
count-more_marks zero = refl
count-more_marks (suc n) = ground (arith, count-more_marks n)

take_all {ℓ} : {A : Type ℓ} (xs : List A) → take (length xs) xs ≡ xs
take_all [] = refl
take_all (x ∷ xs) = ap (◌∷◌ x) (take_all xs)

as_slice_for_in_same :
    (arg : Value) → (as_slice_for_in arg ≡ none) ⊎ (as_slice_for_in arg ≡ some arg)
unfolding as_slice_for_in
as_slice_for_in_same nil = inl refl
as_slice_for_in_same arg = ground arith

arg_meta-Describes :
    (arg : Value) {m : ArgMeta} {b : Bool} → arg_meta arg ≡ ok (m, b) → Describes m arg
unfolding arg_meta append_reflect_slice flat_arg
arg_meta-Describes (slice_value t vs) h = ground (
  arith,
  as_slice_for_in_same (slice_value t vs),
  take_all (to_list vs),
  count-more_marks (length (to_list vs) - 1),
)
arg_meta-Describes arg h = ground (arith, as_slice_for_in_same arg)

abbrev Described : List ArgMeta → List Value → Type 0
Described [] [] = Unit
Described (m ∷ ms) (a ∷ args) = Describes m a × Described ms args
Described _ _ = ⊥

abbrev pub flat_args : List Value → List Value
flat_args [] = []
flat_args (a ∷ args) = flat_arg a ++ flat_args args

abbrev pub is_slice_arg : Value → Bool
is_slice_arg arg = elim (as_slice_for_in arg) [ none ↦ false | some v ↦ true ]

abbrev pub any_slice : List Value → Bool
any_slice [] = false
any_slice (a ∷ args) = is_slice_arg a || any_slice args

-- The arguments behind their `Value` methods.
abbrev pub valued : (Value → Option (Result Value)) → List Value → Result (List Value)
valued valuer [] = ok []
valued valuer (a ∷ args) = do
  a' ← through_valuer valuer a
  args' ← valued valuer args
  ok (a' ∷ args')

arg_meta-is_slice_arg :
    (arg : Value) {m : ArgMeta} {b : Bool} → arg_meta arg ≡ ok (m, b) → b ≡ is_slice_arg arg
unfolding arg_meta
arg_meta-is_slice_arg arg h = ground (arith, as_slice_for_in_same arg)

module _ (valuer : Value → Option (Result Value)) where
  record ScannedArgs (args : List Value) (metas : List ArgMeta) (b : Bool) : Type 0 where
    args' : List Value
    values : valued valuer args ≡ ok args'
    described : Described metas args'
    slices : b ≡ any_slice args'

  ScannedArgs-cons :
      {a a' : Value} {args : List Value} {m : ArgMeta} {ms : List ArgMeta} {b bs : Bool}
      → through_valuer valuer a ≡ ok a'
      → arg_meta a' ≡ ok (m, b)
      → ScannedArgs args ms bs
      → ScannedArgs (a ∷ args) (m ∷ ms) (b || bs)
  ScannedArgs-cons {a'} va am ih = record {
    args' = a' ∷ ih.args';
    values = rw (va, ih.values);
    described = (arg_meta-Describes a' am, ih.described);
    slices = ground (arith, arg_meta-is_slice_arg a' am, ih.slices);
  }

  scan_args-ScannedArgs :
      (args : List Value) {metas : List ArgMeta} {b : Bool}
      → scan_args valuer args ≡ ok (metas, b)
      → ScannedArgs args metas b
  unfolding scan_args
  scan_args-ScannedArgs [] {metas} {b} h =
      let e : metas ≡ [] = ground arith in
      let f : b ≡ false = ground arith in
      rw (e, f) (record { args' = []; values = refl; described = tt; slices = refl })
  scan_args-ScannedArgs (a ∷ args) {metas} {b} h =
      >>=-elim (through_valuer valuer a) _ h λ a' va h1. >>=-elim (arg_meta a') _ h1 λ mc am h2.
        >>=-elim (scan_args valuer args) _ h2 λ mcs rest h3.
          let e : metas ≡ mc.0 ∷ mcs.0 = ground arith in
          let f : b ≡ (mc.1 || mcs.1) = ground arith in
          rw (e, f) (ScannedArgs-cons va am (scan_args-ScannedArgs args rest))

record Behind (p : Bytes) (us : List Value) (r : Result (Bytes × List Value)) (q : Bytes)
    (vs : List Value) : Type 0 where
  text : Bytes
  rest : List Value
  result : r ≡ ok (text, rest)
  query : q ≡ p ++ text
  args : vs ≡ us ++ rest

behind-eq-ok :
    (p : Bytes) (us : List Value) (r : Result (Bytes × List Value)) {q : Bytes} {vs : List Value}
    → behind p us r ≡ ok (q, vs)
    → Behind p us r q vs
behind-eq-ok p us (ok (s, ws)) h = record {
  text = s;
  rest = ws;
  result = refl;
  query = ground arith;
  args = ground arith;
}
behind-eq-ok p us (fail e) h = absurd (cc)
behind-eq-ok p us panics h = absurd (cc)

-- What a `?` and its argument give, and what follows.
abbrev Balanced : Bytes → List Value → Bytes → List Value → Type 0
Balanced s args q vs =
    (vs ≡ flat_args args) × (count b'?' q ≡ length vs) × (count b'?' s ≡ length args)

Balanced-at :
    (m : ArgMeta) (a : Value) (args : List Value) (s q' : Bytes) (vs' : List Value)
    → Describes m a
    → Balanced s args q' vs'
    → Balanced (b'?' ∷ s) (a ∷ args) (b'?' ∷ more_marks (m.length - 1) ++ q') (arg_values m ++ vs')
Balanced-at m a args s q' vs' d (same, marks, fit) = (
  ap₂ (λ us ws. us ++ ws) d.values same,
  rw d.values (
      omega (
        arith,
        d.marks,
        marks,
        count-append b'?' (more_marks (m.length - 1)) q',
        length-append (flat_arg a) vs',
      )),
  omega (arith, fit),
)

abbrev Balances : Bytes → Type 0
Balances s =
    (metas : List ArgMeta) (args : List Value) (q : Bytes) (vs : List Value)
    → Described metas args
    → expand s metas ≡ ok (q, vs)
    → Balanced s args q vs

Balances-at : (s : Bytes) → Balances s → Balances (b'?' ∷ s)
Balances-at s ih [] args q vs d h = absurd (ground (arith, expand_many s))
Balances-at s ih (m ∷ ms) [] q vs d h = elim d [ ]
Balances-at s ih (m ∷ ms) (a ∷ args) q vs (dm, d) h =
    let b =
      behind-eq-ok (b'?' ∷ more_marks (m.length - 1)) (arg_values m) (expand s ms)
        (sym (expand_at m s ms) ∙ h) in
    rw (b.query, b.args)
      (Balanced-at m a args s b.text b.rest dm (ih ms args b.text b.rest d b.result))

Balances-other : (c : ℕ) (s : Bytes) → (c == b'?') ≡ false → Balances s → Balances (c ∷ s)
Balances-other c s miss ih metas args q vs d h =
    let b = behind-eq-ok (c ∷ []) [] (expand s metas) (sym (expand_other c s metas miss) ∙ h) in
    let (same, marks, fit) = ih metas args b.text b.rest d b.result in
    rw (b.query, b.args) (same, ground (arith, marks), ground (arith, fit))

-- Each `?` that the pass meets takes one argument, and one comes out for each of its values.
expand_balanced : (s : Bytes) → Balances s
expand_balanced [] [] [] q vs d h = ground (arith, expand_done)
expand_balanced [] [] (a ∷ args) q vs d h = elim d [ ]
expand_balanced [] (m ∷ ms) args q vs d h = absurd (ground (arith, expand_few m ms))
expand_balanced (c ∷ s) metas args q vs d h =
    let balances : Balances (c ∷ s) = elim (Bool-cases (c == b'?')) [
      | inl hit ↦
          subst (λ c. Balances (c ∷ s)) (sym ((==_iff c b'?').0 hit))
            (Balances-at s (expand_balanced s))
      | inr miss ↦ Balances-other c s miss (expand_balanced s)
    ] in
    balances metas args q vs d h

-- If `In` succeeds on arguments with a slice among them, it returns the values of the arguments in
-- order, with each slice replaced by its elements; the query returned has a `?` for each of these
-- values, and the query given had a `?` for each argument.
pub in_query_balanced :
    (valuer : Value → Option (Result Value)) (query : Bytes) (args args' : List Value) {q : Bytes}
    {vs : List Value}
    → valued valuer args ≡ ok args'
    → any_slice args' ≡ true
    → in_query valuer query args ≡ some (ok (q, vs))
    → (vs ≡ flat_args args') × (count b'?' q ≡ length vs) × (count b'?' query ≡ length args')
in_query_balanced valuer query args args' {q} {vs} values slices h =
    >>=-elim (scan_args valuer args) _
      (some-injective _ _ (sym (in_query-expand valuer query args) ∙ h))
      λ scan scanned h1.
        let known = scan_args-ScannedArgs valuer args scanned in
        let same : known.args' ≡ args' = ground (arith, known.values) in
        let b : scan.1 ≡ true = ground (arith, known.slices, same) in
        expand_balanced query scan.0 args' q vs (rw same at known.described) (rw b at h1)
