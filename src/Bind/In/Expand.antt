-- ===== src/Bind/In/Expand.antt =====
-- The reference for `In`: one pass over the bytes of the query, with what the loop keeps in `offset`
-- and `buf` gone. The loop amounts to it.
use sqlx_v.Prelude.{
  ℕ, zero, suc, ◌+◌, ◌-◌, ◌<◌, true, false, not, Option, some, List, [], ◌∷◌, ◌++◌, append_assoc,
  append-nil, ◌≡◌, refl, sym, ap, ap₂, ◌∙◌, inl, inr, arith, ◌==◌, if◌then◌else◌, Bool-cases,
  Option-cases, Bytes, length, take, drop, drop-drop, take-add, take-append-drop, Lacks,
}
use sqlx_v.Errors.{Result-cases, Error, bind_mismatch, errorf, Result, ok, fail, panics, ◌>>=◌}
use sqlx_v.GoStrings.{index_byte, index_byte-some, index_byte-none}
use sqlx_v.Value.{Value, nil, slice_value}
use sqlx_v.Bind.In.{ArgMeta, append_reflect_slice, more_marks, in_loop, scan_args, in_query}

-- The arguments that one `?` takes.
abbrev pub arg_values : ArgMeta → List Value
arg_values m = if m.length == 0 then m.i ∷ [] else append_reflect_slice [] m.v m.length

-- What a result is when `p` and `vs` stand in front of it.
abbrev pub behind : Bytes → List Value → Result (Bytes × List Value) → Result (Bytes × List Value)
behind p vs (ok (s, ws)) = ok (p ++ s, vs ++ ws)
behind p vs (fail e) = fail e
behind p vs panics = panics

behind-behind :
    (p q : Bytes) (vs ws : List Value) (r : Result (Bytes × List Value))
    → behind p vs (behind q ws r) ≡ behind (p ++ q) (vs ++ ws) r
behind-behind p q vs ws (ok (s, us)) = simp append_assoc
behind-behind p q vs ws (fail e) = refl
behind-behind p q vs ws panics = refl

-- Each `?` is followed by `, ?` for every further value of its argument.
unfoldable pub expand : Bytes → List ArgMeta → Result (Bytes × List Value)
expand [] [] = ok ([], [])
expand [] (m ∷ ms) =
    fail (errorf "sqlx: number of bindVars less than number arguments: %w" [] bind_mismatch)
expand (c ∷ s) metas =
    let copied = behind (c ∷ []) [] (expand s metas) in
    let marked = λ (m : ArgMeta) (ms : List ArgMeta).
      behind (c ∷ more_marks (m.length - 1)) (arg_values m) (expand s ms) in
    if c == b'?'
    then elim metas [
      | [] ↦ fail (errorf "sqlx: number of bindVars exceeds arguments: %w" [] bind_mismatch)
      | m ∷ ms ↦ marked m ms
    ]
    else copied

behind_nothing : (r : Result (Bytes × List Value)) → behind [] [] r ≡ r
behind_nothing (ok x) = refl
behind_nothing (fail e) = refl
behind_nothing panics = refl

expand-Lacks :
    (s t : Bytes) (metas : List ArgMeta)
    → Lacks b'?' s
    → expand (s ++ t) metas ≡ behind s [] (expand t metas)
unfolding expand
expand-Lacks [] t metas h = sym (behind_nothing (expand t metas))
expand-Lacks (c ∷ s) t metas (h, hs) =
    rw (expand_copy ∙ ap (behind (c ∷ []) []) (expand-Lacks s t metas hs))
      (behind-behind (c ∷ []) s [] [] (expand t metas))
  where
    expand_copy : expand ((c ∷ s) ++ t) metas ≡ behind (c ∷ []) [] (expand (s ++ t) metas)
    expand_copy = ground arith

append_reflect_slice-append :
    (args : List Value) (v : Value) (n : ℕ)
    → append_reflect_slice args v n ≡ args ++ append_reflect_slice [] v n
unfolding append_reflect_slice
append_reflect_slice-append args (slice_value t vs) n = ground arith
append_reflect_slice-append args nil n = sym (append-nil args)
append_reflect_slice-append args _ n = sym (append-nil args)

-- A query with no `?` left is copied.
expand_end :
    (s : Bytes) (metas : List ArgMeta)
    → Lacks b'?' s
    → expand s metas ≡ behind s [] (expand [] metas)
expand_end s metas h = ap (λ u. expand u metas) (sym (append-nil s)) ∙ expand-Lacks s [] metas h

pub expand_other :
    (c : ℕ) (s : Bytes) (metas : List ArgMeta)
    → (c == b'?') ≡ false
    → expand (c ∷ s) metas ≡ behind (c ∷ []) [] (expand s metas)
unfolding expand
expand_other c s metas h = rw h

pub expand_at :
    (m : ArgMeta) (s : Bytes) (ms : List ArgMeta)
    → expand (b'?' ∷ s) (m ∷ ms)
      ≡ behind (b'?' ∷ more_marks (m.length - 1)) (arg_values m) (expand s ms)
unfolding expand
expand_at m s ms = refl

pub expand_done : expand [] [] ≡ ok ([], [])
unfolding expand
expand_done = refl

abbrev pub too_few : Error
too_few = errorf "sqlx: number of bindVars less than number arguments: %w" [] bind_mismatch

abbrev pub too_many : Error
too_many = errorf "sqlx: number of bindVars exceeds arguments: %w" [] bind_mismatch

pub expand_few : (m : ArgMeta) (ms : List ArgMeta) → expand [] (m ∷ ms) ≡ fail too_few
unfolding expand
expand_few m ms = refl

pub expand_many : (s : Bytes) → expand (b'?' ∷ s) [] ≡ fail too_many
unfolding expand
expand_many s = refl

module _ (query : Bytes) (offset i : ℕ) (found : index_byte b'?' (drop offset query) ≡ some i) where
  abbrev rest : Bytes
  rest = drop (offset + suc i) query

  rest_lem : drop (suc i) (drop offset query) ≡ rest
  rest_lem = sym (drop-drop offset (suc i) query)

  shorter : length rest < length (drop offset query)
  shorter = let cut = index_byte-some b'?' (drop offset query) found in rw (← rest_lem) cut.shorter

  -- What is written up to and with the next `?`.
  take_lem :
      take (offset + suc i) query ≡ take offset query ++ (take i (drop offset query) ++ b'?' ∷ [])
  take_lem =
      let cut = index_byte-some b'?' (drop offset query) found in
      take-add offset (suc i) query ∙ ap (λ s. take offset query ++ s) cut.take_next

  expand_found :
      (metas : List ArgMeta)
      → expand (drop offset query) metas
        ≡ behind (take i (drop offset query)) [] (expand (b'?' ∷ rest) metas)
  expand_found metas =
      let cut = index_byte-some b'?' (drop offset query) found in
      ap (λ s. expand s metas) cut.splits
      ∙ expand-Lacks (take i (drop offset query)) _ metas cut.lacks
      ∙ rw rest_lem

  -- The next `?` with its argument, behind what stands in front of the rest of the query.
  expand_mark :
      (m : ArgMeta) (ms : List ArgMeta) (buf : Bytes) (new_args : List Value)
      → behind
          (buf ++ (take (offset + suc i) query ++ more_marks (m.length - 1)))
          (new_args ++ arg_values m)
          (expand rest ms)
        ≡ behind (buf ++ take offset query) new_args (expand (drop offset query) (m ∷ ms))
  expand_mark m ms buf new_args =
      rw (expand_found (m ∷ ms), expand_at m rest ms)
        (rw (behind-behind, behind-behind, take_lem)
          (ap₂ (λ s vs. behind s vs (expand rest ms)) (simp append_assoc) (simp append-nil)))

no_more_marks :
    (m : ArgMeta)
    → (m.length == 0) ≡ true
    → (more_marks (m.length - 1) ≡ []) × (arg_values m ≡ m.i ∷ [])
no_more_marks m h = let zero_length : m.length ≡ 0 = ground arith in (rw zero_length, rw h)

in_loop-expand :
    (fuel : ℕ) (query : Bytes) (offset : ℕ) (metas : List ArgMeta) (buf : Bytes)
    (new_args : List Value)
    → length (drop offset query) < fuel
    → in_loop fuel query offset metas buf new_args
      ≡ some (behind (buf ++ take offset query) new_args (expand (drop offset query) metas))
unfolding in_loop
in_loop-expand zero query offset metas buf new_args h = elim h [ ]
in_loop-expand (suc fuel) query offset [] buf new_args h =
    elim (Option-cases (index_byte b'?' (drop offset query))) [
      | inl gone ↦
          rw (gone, in_loop)
            (rw (expand_end _ [] (index_byte-none _ _ gone)) (
              rw expand_done (
                ap₂ (λ s vs. some (ok (s, vs)))
                  (ap (λ s. buf ++ s) (sym (take-append-drop offset query))
                    ∙ simp (append_assoc, append-nil))
                  (simp append-nil))))
      | inr (i, found) ↦
          rw (found, in_loop) (rw (expand_found query offset i found [], expand_many))
    ]
in_loop-expand (suc fuel) query offset (m ∷ ms) buf new_args h =
    elim (Option-cases (index_byte b'?' (drop offset query))) [
      | inl gone ↦
          rw (gone, in_loop) (rw (expand_end _ (m ∷ ms) (index_byte-none _ _ gone)) (rw expand_few))
      | inr (i, found) ↦ elim (Bool-cases (m.length == 0)) [
        | inl single ↦
            rw (found, in_loop, single)
              (in_loop-expand fuel query (offset + suc i) ms buf _
                  (omega (arith, shorter query offset i found))
                ∙ ap some (
                    simp ((no_more_marks m single).0, single, append-nil) at
                      (expand_mark query offset i found m ms buf new_args)))
        | inr several ↦
            rw (found, in_loop, several)
              (in_loop-expand fuel (drop (offset + suc i) query) 0 ms _ _
                  (omega (arith, shorter query offset i found))
                ∙ ap some (
                    rw (append-nil, append_reflect_slice-append)
                      (rw several at (expand_mark query offset i found m ms buf new_args))))
      ]
    ]

-- `In` ends. A failed `Value`, an empty slice and a pointer to a slice stop it in the order of the
-- arguments; without a slice the query and the arguments are returned as they are; else the result
-- is that of the one pass over the query.
pub in_query-expand :
    (valuer : Value → Option (Result Value)) (query : Bytes) (args : List Value)
    → in_query valuer query args
      ≡ some (do
        (metas, any_slices) ← scan_args valuer args
        if not any_slices then ok (query, args) else expand query metas)
unfolding in_query
in_query-expand valuer query args = elim (Result-cases (scan_args valuer args)) [
  | inl ((metas, true), scanned) ↦
      rw (scanned, in_query)
        (in_loop-expand (suc (length query)) query 0 metas [] [] (omega arith)
          ∙ ap some (behind_nothing (expand query metas)))
  | inl ((metas, false), scanned) ↦ rw (scanned, in_query)
  | inr (inl (e, failed)) ↦ rw (failed, in_query)
  | inr (inr panicked) ↦ rw (panicked, in_query)
]
