-- ===== src/Reflectx/Flatten/Coherent.antt =====
-- When the steps, the offset and the indexes of a field fit together, and that each field that is
-- added fits.
use sqlx_v.Prelude.{
  ◌≢◌, bytes_eq, some-injective, subst, ℕ, ◌+◌, Bool, true, false, Option, none, some, List, [],
  ◌∷◌, ◌++◌, ◌≡◌, refl, inl, inr, arith, Bool-cases, if◌then◌else◌, Bytes, All, All-append,
}
use sqlx_v.SyncMap.{Eq, load, store, bytes_key}
use sqlx_v.Value.{kind, is_pointer}
use sqlx_v.Reflectx.Mapper.{StructField, Step, FieldInfo, StructMap}
use sqlx_v.Reflectx.Address.{IsFlat, sum_offsets}
use sqlx_v.Reflectx.Flatten.{Place, place_of, is_empty, record_field}

-- Off a pointer path the steps are flat and the offset is their sum; on one the offset is 0.
abbrev pub IsCoherent : List Step → ℕ → Bool → Type 0
IsCoherent steps offset false = IsFlat steps × (sum_offsets steps ≡ offset)
IsCoherent steps offset true = offset ≡ 0

abbrev pub PlaceIsCoherent : Place → Type 0
PlaceIsCoherent p = IsCoherent p.traversal p.offset p.is_ptr_path

-- The same of an entry, which has steps and indexes.
abbrev pub InfoIsCoherent : FieldInfo → Type 0
InfoIsCoherent fi =
    IsCoherent fi.traversal fi.offset fi.is_ptr_path × (fi.traversal ≢ []) × (fi.index ≢ [])

sum_offsets-append : (a b : List Step) → sum_offsets (a ++ b) ≡ sum_offsets a + sum_offsets b
sum_offsets-append [] b = omega arith
sum_offsets-append (s ∷ a) b = omega (arith, sum_offsets-append a b)

abbrev inherited : List Step → Bool → Bool
inherited steps b = if is_empty steps then false else b

abbrev plain_step : ℕ → Step
plain_step o = record { offset = o; type = none }

plain-IsCoherent :
    (steps : List Step) (offset o : ℕ) (b : Bool)
    → IsCoherent steps offset b
    → IsCoherent
        (steps ++ plain_step o ∷ [])
        (if inherited steps b then 0 else offset + o)
        (inherited steps b)
plain-IsCoherent [] offset o false (_, h) = ((refl, tt), omega arith)
plain-IsCoherent [] offset o true h = ((refl, tt), omega arith)
plain-IsCoherent (s ∷ steps) offset o true h = refl
plain-IsCoherent (s ∷ steps) offset o false (flat, h) = (
  All-append _ (s ∷ steps) (plain_step o ∷ []) flat (refl, tt),
  omega (arith, sum_offsets-append (s ∷ steps) (plain_step o ∷ []), h),
)

pub place_of-IsCoherent :
    (p : Place) (f : StructField) → PlaceIsCoherent p → PlaceIsCoherent (place_of p f)
unfolding place_of
place_of-IsCoherent p f h = elim (Bool-cases (is_pointer (kind f.type))) [
  | inl pointer ↦ rw pointer refl
  | inr plain ↦ rw plain (plain-IsCoherent p.traversal p.offset f.offset p.is_ptr_path h)
]

pub append-nonempty {ℓ} : {A : Type ℓ} (xs : List A) (x : A) → xs ++ x ∷ [] ≢ []
append-nonempty [] x h = absurd (ground arith)
append-nonempty (y ∷ xs) x h = absurd (ground arith)

pub place_of-walks : (p : Place) (f : StructField) → (place_of p f).traversal ≢ []
unfolding place_of
place_of-walks p f = elim (Bool-cases (is_pointer (kind f.type))) [
  | inl pointer ↦ rw pointer (append-nonempty (p.traversal ++ _ ∷ []) _)
  | inr plain ↦ rw plain (append-nonempty p.traversal _)
]

module _ {ℓ κ μ} {K : Type ℓ} {V : Type κ} ⦃e : Eq K⦄ (P : V → Type μ) where
  abbrev AllValues : List (K × V) → Type μ
  AllValues = All (λ kv. P kv.1)

  AllValues-store : (k : K) (v : V) (m : List (K × V)) → P v → AllValues m → AllValues (store k v m)
  unfolding store
  AllValues-store k v [] h hs = (h, tt)
  AllValues-store k v ((j, w) ∷ m) h (hw, hs) = elim (Bool-cases (e.beq j k)) [
    | inl same ↦ rw same (h, hs)
    | inr other ↦ rw other (hw, AllValues-store k v m h hs)
  ]

pub load-All :
    (P : FieldInfo → Type 0) (k : Bytes) (names : List (Bytes × FieldInfo)) {fi : FieldInfo}
    → All (λ kv. P kv.1) names
    → load k names ≡ some fi
    → P fi
unfolding load
load-All P k [] h found = absurd (ground arith)
load-All P k ((j, w) ∷ names) {fi} (h, hs) found = elim (Bool-cases (bytes_eq j k)) [
  | inl same ↦
      subst P
        (some-injective _ _
          (subst (λ b. (if b then some w else load k names) ≡ some fi) same found))
        h
  | inr other ↦
      load-All P k names hs
        (subst (λ b. (if b then some w else load k names) ≡ some fi) other found)
]

pub record MapIsCoherent (sm : StructMap) : Type 0 where
  pub paths : All (λ kv. InfoIsCoherent kv.1) sm.paths
  pub names : All (λ kv. InfoIsCoherent kv.1) sm.names

pub record_field-IsCoherent :
    (fi : FieldInfo) (sm : StructMap)
    → InfoIsCoherent fi
    → MapIsCoherent sm
    → MapIsCoherent (record_field fi sm)
unfolding record_field
record_field-IsCoherent fi sm h m = record {
  paths = AllValues-store InfoIsCoherent fi.path fi sm.paths h m.paths;
  names = named (load fi.name (store fi.path fi sm.names));
}
  where
    with_path : All (λ kv. InfoIsCoherent kv.1) (store fi.path fi sm.names)
    with_path = AllValues-store InfoIsCoherent fi.path fi sm.names h m.names

    named :
        (o : Option FieldInfo)
        → All
            (λ kv. InfoIsCoherent kv.1)
            (elim o as (λ _. List (Bytes × FieldInfo)) [
              | none ↦ store fi.name fi (store fi.path fi sm.names)
              | some _ ↦ store fi.path fi sm.names
            ])
    named none = AllValues-store InfoIsCoherent fi.name fi _ h with_path
    named (some x) = with_path
