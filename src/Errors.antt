-- ===== src/Errors.antt =====
-- errors.go, the sentinels of internal/bind/bind.go, and results that may be a Go panic.
use sqlx_v.Prelude.{ℕ, String, Bool, true, false, List, [], ◌≡◌, ◌⊎◌, inl, inr, refl, Bytes}

-- `errorf` is `fmt.Errorf` with a `%w`, and `plain` one without; they hold the format and the names
-- and positions that it prints, but not the Go types of a `%T`. `external` is an error of a driver
-- or of the user's own code.
pub data Error : Type 0 where
  bind_mismatch named_property_not_found unsupported_type syntax column_not_found : Error
  no_rows : Error
  stop_iter : Error
  external : ℕ → Error
  errorf : String → List Bytes → Error → Error
  plain : String → List Bytes → Error

-- `errors.Is` at one of the sentinels: the end of the chain of `%w`.
abbrev pub root : Error → Error
root (errorf _ _ e) = root e
root e = e

-- A function that returns `(A, error)`: the value counts if the error is nil.
pub data Result {ℓ} (A : Type ℓ) : Type ℓ where
  ok : A → Result A
  fail : Error → Result A
  panics : Result A

-- What follows an `if err != nil { return …, err }`.
infixl 5 ◌>>=◌
abbrev pub ◌>>=◌ {ℓ μ} : {V : Type ℓ} {W : Type μ} → Result V → (V → Result W) → Result W
ok v >>= after = after v
fail e >>= after = fail e
panics >>= after = panics

-- `return ..., fmt.Errorf("…: %w", err)`.
abbrev pub wrap {ℓ} : {A : Type ℓ} → String → Result A → Result A
wrap s (ok a) = ok a
wrap s (fail e) = fail (errorf s [] e)
wrap s panics = panics

pub wrap-ok {ℓ} : {A : Type ℓ} (s : String) (r : Result A) {a : A} → wrap s r ≡ ok a → r ≡ ok a
wrap-ok s (ok a) h = h
wrap-ok s (fail e) h = absurd (cc)
wrap-ok s panics h = absurd (cc)

-- A chain that succeeds has a first part that does.
pub >>=-elim {ℓ κ μ} :
    {A : Type ℓ} {B : Type κ} {C : Type μ} (m : Result A) (f : A → Result B) {b : B}
    → (m >>= f) ≡ ok b
    → ((a : A) → m ≡ ok a → f a ≡ ok b → C)
    → C
>>=-elim (ok a) f h k = k a refl h
>>=-elim (fail e) f h k = absurd (cc)
>>=-elim panics f h k = absurd (cc)

pub >>=-assoc {ℓ κ μ} :
    {A : Type ℓ} {B : Type κ} {C : Type μ} (m : Result A) (f : A → Result B) (g : B → Result C)
    → (m >>= f) >>= g ≡ m >>= (λ a. f a >>= g)
>>=-assoc (ok a) f g = refl
>>=-assoc (fail e) f g = refl
>>=-assoc panics f g = refl

-- To split on a computed result and keep the equation.
pub Result-cases {ℓ} :
    {A : Type ℓ} (r : Result A)
    → ((a : A) × (r ≡ ok a)) ⊎ (((e : Error) × (r ≡ fail e)) ⊎ (r ≡ panics))
Result-cases (ok a) = inl (a, refl)
Result-cases (fail e) = inr (inl (e, refl))
Result-cases panics = inr (inr refl)

abbrev pub is_ok {ℓ} : {A : Type ℓ} → Result A → Bool
is_ok (ok a) = true
is_ok (fail e) = false
is_ok panics = false

pub is_ok-eq-ok {ℓ} : {A : Type ℓ} (r : Result A) → is_ok r ≡ true → (a : A) × (r ≡ ok a)
is_ok-eq-ok (ok a) h = (a, refl)
is_ok-eq-ok (fail e) h = absurd (cc)
is_ok-eq-ok panics h = absurd (cc)
