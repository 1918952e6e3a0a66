-- ===== src/Engine/Meta/Order.antt =====
-- `sortByOffset` sorts, and loses no entry.
use sqlx_v.Prelude.{
  ℕ, ◌≤◌, true, false, List, [], ◌∷◌, ◌++◌, reverse, inl, inr, sym, subst, arith, ltb, Bool-cases,
  All, All-append, append-nil,
}
use mathlib.Core.List.{Perm, perm_middle, reverse-cons, reverse_perm}
use mathlib.Core.List.Perm
use sqlx_v.Engine.Meta.{FieldMeta, sift, sort_from, sort_by_offset}

-- Offsets that do not fall, and offsets that do not rise.
abbrev Rising : List FieldMeta → Type 0
Rising [] = Unit
Rising (x ∷ xs) = All (λ y. x.offset ≤ y.offset) xs × Rising xs

abbrev pub Falling : List FieldMeta → Type 0
Falling [] = Unit
Falling (x ∷ xs) = All (λ y. y.offset ≤ x.offset) xs × Falling xs

All-trans :
    (a b : ℕ) (xs : List FieldMeta)
    → a ≤ b
    → All (λ y. b ≤ y.offset) xs
    → All (λ y. a ≤ y.offset) xs
All-trans a b [] h hs = tt
All-trans a b (x ∷ xs) h (hx, hs) = (omega arith, All-trans a b xs h hs)

pub sift-All :
    (P : FieldMeta → Type 0) (x : FieldMeta) (ys : List FieldMeta)
    → P x
    → All P ys
    → All P (sift x ys)
unfolding sift
sift-All P x [] hx hs = (hx, tt)
sift-All P x (y ∷ ys) hx (hy, hs) = elim (Bool-cases (ltb y.offset x.offset)) [
  | inl further ↦
      subst (λ b. All P (elim b [ true ↦ y ∷ sift x ys | false ↦ x ∷ y ∷ ys ])) (sym further)
        (hy, sift-All P x ys hx hs)
  | inr stop ↦
      subst (λ b. All P (elim b [ true ↦ y ∷ sift x ys | false ↦ x ∷ y ∷ ys ])) (sym stop)
        (hx, (hy, hs))
]

sift-Rising : (x : FieldMeta) (ys : List FieldMeta) → Rising ys → Rising (sift x ys)
unfolding sift
sift-Rising x [] h = (tt, tt)
sift-Rising x (y ∷ ys) (hy, hs) = elim (Bool-cases (ltb y.offset x.offset)) [
  | inl further ↦
      let le : y.offset ≤ x.offset = ground arith in
      subst (λ b. Rising (elim b [ true ↦ y ∷ sift x ys | false ↦ x ∷ y ∷ ys ])) (sym further)
        (sift-All (λ z. y.offset ≤ z.offset) x ys le hy, sift-Rising x ys hs)
  | inr stop ↦
      let le : x.offset ≤ y.offset = ground arith in
      subst (λ b. Rising (elim b [ true ↦ y ∷ sift x ys | false ↦ x ∷ y ∷ ys ])) (sym stop)
        ((le, All-trans x.offset y.offset ys le hy), (hy, hs))
]

sift-Perm : (x : FieldMeta) (ys : List FieldMeta) → Perm (sift x ys) (x ∷ ys)
unfolding sift
sift-Perm x [] = Perm.refl _
sift-Perm x (y ∷ ys) = elim (Bool-cases (ltb y.offset x.offset)) [
  | inl further ↦
      subst (λ b. Perm (elim b [ true ↦ y ∷ sift x ys | false ↦ x ∷ y ∷ ys ]) (x ∷ y ∷ ys))
        (sym further) (Perm.trans (Perm.cons y (sift-Perm x ys)) (Perm.swap _ _ _))
  | inr stop ↦
      subst (λ b. Perm (elim b [ true ↦ y ∷ sift x ys | false ↦ x ∷ y ∷ ys ]) (x ∷ y ∷ ys))
        (sym stop) (Perm.refl _)
]

Falling-concat :
    (x : FieldMeta) (ys : List FieldMeta)
    → All (λ y. x.offset ≤ y.offset) ys
    → Falling ys
    → Falling (ys ++ x ∷ [])
Falling-concat x [] h f = (tt, tt)
Falling-concat x (y ∷ ys) (h, hs) (f, fs) =
    (All-append _ ys (x ∷ []) f (h, tt), Falling-concat x ys hs fs)

pub All-reverse : (P : FieldMeta → Type 0) (xs : List FieldMeta) → All P xs → All P (reverse xs)
All-reverse P [] h = tt
All-reverse P (x ∷ xs) (h, hs) =
    rw reverse-cons (All-append P (reverse xs) (x ∷ []) (All-reverse P xs hs) (h, tt))

reverse-Falling : (xs : List FieldMeta) → Rising xs → Falling (reverse xs)
reverse-Falling [] h = tt
reverse-Falling (x ∷ xs) (h, hs) =
    rw reverse-cons (Falling-concat x (reverse xs) (All-reverse _ xs h) (reverse-Falling xs hs))

sort_from-Falling : (before xs : List FieldMeta) → Rising before → Falling (sort_from before xs)
unfolding sort_from
sort_from-Falling before [] h = reverse-Falling before h
sort_from-Falling before (x ∷ xs) h = sort_from-Falling (sift x before) xs (sift-Rising x before h)

sort_from-Perm : (before xs : List FieldMeta) → Perm (sort_from before xs) (before ++ xs)
unfolding sort_from
sort_from-Perm before [] = rw append-nil (reverse_perm before)
sort_from-Perm before (x ∷ xs) = Perm.trans (sort_from-Perm (sift x before) xs) (
    Perm.trans (Perm.append (sift-Perm x before) (Perm.refl xs))
      (Perm.symm (perm_middle before xs)))

-- `sortByOffset` returns the same entries, as often, with offsets that never rise: the entries of
-- the largest offset come first.
pub sort_by_offset-Falling :
    (m : List FieldMeta) → Falling (sort_by_offset m) × Perm (sort_by_offset m) m
unfolding sort_by_offset
sort_by_offset-Falling m = (sort_from-Falling [] m tt, sort_from-Perm [] m)
