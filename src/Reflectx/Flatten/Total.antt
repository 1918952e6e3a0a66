-- ===== src/Reflectx/Flatten/Total.antt =====
-- `mapType` with a mapper that has a name function returns.
use sqlx_v.Prelude.{
  ℕ, zero, suc, some, List, [], ◌∷◌, ◌≡◌, ◌≢◌, refl, inl, inr, arith, Bool-cases, Bytes, get_elem?,
  length, Option-cases,
}
use sqlx_v.Value.{GoType}
use sqlx_v.Reflectx.Mapper.{StructMap}
use sqlx_v.Reflectx.Tags.{Setting}
use sqlx_v.Reflectx.Flatten.{
  Mapped, done, panicked, no_fuel, ◌>>=◌, root_place, empty_map, has, struct_id, mapped_name,
  flatten_fields, map_type,
}
use sqlx_v.Reflectx.Flatten.Calls.{Calls, if-Fine, fields_loop-Fine}
use sqlx_v.Reflectx.Flatten.Fuel.{map_type-ends}

abbrev Calm : (A : Type 0) → Mapped A → Type 0
Calm A m = m ≢ panicked

done-Calm : (A : Type 0) (a : A) → done a ≢ panicked
done-Calm A a e = cc

bind-Calm :
    (A B : Type 0) (m : Mapped A) (f : A → Mapped B)
    → m ≢ panicked
    → ((a : A) → f a ≢ panicked)
    → m >>= f ≢ panicked
bind-Calm A B (done a) f h k e = k a e
bind-Calm A B panicked f h k e = h refl
bind-Calm A B no_fuel f h k e = cc

module _ (env : Setting) (g : Bytes → Bytes) (has_func : env.mapper.map_func ≡ some g) where
  mapped_name-Calm : (a b : Bytes) → mapped_name env a b ≢ panicked
  unfolding mapped_name
  mapped_name-Calm [] b e = absurd (ground (arith, has_func))
  mapped_name-Calm (c ∷ a) b e = cc

  flatten_fields-Calm :
      (fuel : ℕ) (visited : List ℕ)
      → Calls Calm done-Calm bind-Calm (flatten_fields env fuel) visited
  unfolding flatten_fields
  flatten_fields-Calm zero visited sm t parent prefix index = λ e. cc
  flatten_fields-Calm (suc fuel) visited sm t parent prefix index =
      elim (Bool-cases (has visited t)) [
        | inl old ↦ rw old (done-Calm _ _)
        | inr new ↦ rw new (elim (Option-cases (get_elem? env.structs t)) [
          | inl unknown ↦ rw unknown (done-Calm _ _)
          | inr (d, known) ↦ rw known (
              fields_loop-Fine Calm done-Calm bind-Calm env (flatten_fields env fuel) (t ∷ visited)
                (flatten_fields-Calm fuel (t ∷ visited)) mapped_name-Calm d.fields sm d.name parent
                prefix index 0)
        ])
      ]

  map_type-Calm : (t : GoType) → map_type env t ≢ panicked
  unfolding map_type
  map_type-Calm t = if-Fine Calm done-Calm bind-Calm _ _ _ (done-Calm _ _) (
      bind-Calm _ _
        (flatten_fields env (suc (length env.structs)) empty_map (struct_id t) root_place [] [] [])
        _
        (flatten_fields-Calm (suc (length env.structs)) [] empty_map (struct_id t) root_place [] [])
        (λ r. done-Calm _ _))

  returns : (m : Mapped StructMap) → m ≢ no_fuel → m ≢ panicked → (sm : StructMap) × (m ≡ done sm)
  returns (done sm) h k = (sm, refl)
  returns panicked h k = absurd (k refl)
  returns no_fuel h k = absurd (h refl)

  -- With a mapper that has a name function, `mapType` returns a struct map for every Go type, recursive
  -- struct types included.
  pub map_type-done : (t : GoType) → (sm : StructMap) × (map_type env t ≡ done sm)
  map_type-done t = returns (map_type env t) (map_type-ends env t) (map_type-Calm t)
