-- ===== src/SyncMap.antt =====
-- What the source uses of Go's `sync.Map` and of `map`: a finite map as an association list, and
-- the equality of its keys as an interface.
use sqlx_v.Prelude.{
  ℕ, Bool, true, Option, none, some, List, [], ◌∷◌, ◌≡◌, ◌↔◌, refl, sym, subst, ◌∙◌, inl, inr,
  Bool-cases, arith, ◌==◌, ==_iff, if◌then◌else◌, Bytes, bytes_eq, bytes_eq_iff,
}

-- Go's `==` on the type of the keys.
pub record Eq {ℓ} (A : Type ℓ) : Type ℓ where
  pub beq : A → A → Bool
  pub beq_iff : (x y : A) → (beq x y ≡ true) ↔ (x ≡ y)

instance abbrev pub bytes_key : Eq Bytes
bytes_key = record { beq = bytes_eq; beq_iff = bytes_eq_iff }

abbrev number_eq : ℕ → ℕ → Bool
number_eq a b = a == b

instance abbrev pub number_key : Eq ℕ
number_key = record { beq = number_eq; beq_iff = ==_iff }

module _ {ℓ κ} {K : Type ℓ} {V : Type κ} ⦃e : Eq K⦄ where
  unfoldable pub load : K → List (K × V) → Option V
  load k [] = none
  load k ((j, v) ∷ m) = if e.beq j k then some v else load k m

  unfoldable pub store : K → V → List (K × V) → List (K × V)
  store k v [] = (k, v) ∷ []
  store k v ((j, w) ∷ m) = if e.beq j k then (k, v) ∷ m else (j, w) ∷ store k v m

  pub load-store :
      (j k : K) (v : V) (m : List (K × V))
      → load j (store k v m) ≡ (if e.beq k j then some v else load j m)
  unfolding load store
  load-store j k v [] = refl
  load-store j k v ((i, w) ∷ m) =
      ground (arith, e.beq_iff k j, e.beq_iff i k, e.beq_iff i j, load-store j k v m)

  pub load-store_self : (k : K) (v : V) (m : List (K × V)) → load k (store k v m) ≡ some v
  load-store_self k v m = rw (load-store, (e.beq_iff k k).1 refl)

  -- What holds of the entries of a map, and of a new one.
  pub store-holds {μ} :
      (P : K → V → Type μ) (k : K) (v : V) (m : List (K × V))
      → P k v
      → ((j : K) (w : V) → load j m ≡ some w → P j w)
      → (j : K) (w : V) → load j (store k v m) ≡ some w
      → P j w
  store-holds P k v m here all j w found =
      let known : (if e.beq k j then some v else load j m) ≡ some w =
        sym (load-store j k v m) ∙ found in
      elim (Bool-cases (e.beq k j)) [
        | inl same ↦
            let this : some v ≡ some w = rw same at known in
            let same_value : v ≡ w = cc in
            subst (λ j. P j w) ((e.beq_iff k j).0 same) (subst (P k) same_value here)
        | inr other ↦ all j w (rw other at known)
      ]
