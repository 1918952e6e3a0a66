-- ===== src/Reflectx/Flatten/Fuel.antt =====
-- `flattenFields` ends: the struct types not yet visited bound the depth of its calls, also for struct
-- types that mention themselves.
use sqlx_v.Prelude.{
  ℕ, zero, suc, ◌+◌, ◌≤◌, ◌<◌, false, some, List, [], ◌∷◌, ◌≡◌, ◌≢◌, refl, inl, inr, arith,
  Bool-cases, if◌then◌else◌, Bytes, get_elem?, length, Option-cases,
}
use sqlx_v.Value.{GoType}
use sqlx_v.Reflectx.Tags.{Setting}
use sqlx_v.Reflectx.Flatten.{
  Mapped, done, panicked, no_fuel, ◌>>=◌, root_place, empty_map, has, struct_id, mapped_name,
  flatten_fields, map_type,
}
use sqlx_v.Reflectx.Flatten.Calls.{Calls, if-Fine, fields_loop-Fine}

-- How many of the first `n` struct types are not visited.
unvisited : ℕ → List ℕ → ℕ
unvisited zero v = 0
unvisited (suc n) v = (if has v n then 0 else 1) + unvisited n v

unvisited-le : (n t : ℕ) (v : List ℕ) → unvisited n (t ∷ v) ≤ unvisited n v
unfolding unvisited
unvisited-le zero t v = omega arith
unvisited-le (suc n) t v = ground (arith, unvisited-le n t v)

unvisited-lt :
    (n t : ℕ) (v : List ℕ) → t < n → has v t ≡ false → unvisited n (t ∷ v) < unvisited n v
unfolding unvisited
unvisited-lt zero t v h free = absurd (omega arith)
unvisited-lt (suc n) t v h free = ground (arith, unvisited-le n t v, unvisited-lt n t v)

unvisited_bound : (n : ℕ) → unvisited n [] ≤ n
unfolding unvisited
unvisited_bound zero = omega arith
unvisited_bound (suc n) = omega (arith, unvisited_bound n)

get_elem?-lt {ℓ} :
    {A : Type ℓ} (xs : List A) (i : ℕ) {a : A} → get_elem? xs i ≡ some a → i < length xs
get_elem?-lt [] i h = absurd (cc)
get_elem?-lt (x ∷ xs) zero h = omega arith
get_elem?-lt (x ∷ xs) (suc i) h = omega (arith, get_elem?-lt xs i h)

-- The computation ends.
abbrev Ends : (A : Type 0) → Mapped A → Type 0
Ends A m = m ≢ no_fuel

done-Ends : (A : Type 0) (a : A) → done a ≢ no_fuel
done-Ends A a e = cc

bind-Ends :
    (A B : Type 0) (m : Mapped A) (f : A → Mapped B)
    → m ≢ no_fuel
    → ((a : A) → f a ≢ no_fuel)
    → m >>= f ≢ no_fuel
bind-Ends A B (done a) f h k e = k a e
bind-Ends A B panicked f h k e = cc
bind-Ends A B no_fuel f h k e = h refl

mapped_name-Ends : (env : Setting) (a b : Bytes) → mapped_name env a b ≢ no_fuel
unfolding mapped_name
mapped_name-Ends env [] b e = ground arith
mapped_name-Ends env (c ∷ a) b e = cc

module _ (env : Setting) where
  flatten_fields-Ends :
      (fuel : ℕ) (visited : List ℕ)
      → unvisited (length env.structs) visited < fuel
      → Calls Ends done-Ends bind-Ends (flatten_fields env fuel) visited
  unfolding flatten_fields
  flatten_fields-Ends zero visited h sm t parent prefix index = absurd (omega arith)
  flatten_fields-Ends (suc fuel) visited h sm t parent prefix index =
      elim (Bool-cases (has visited t)) [
        | inl old ↦ rw old (done-Ends _ _)
        | inr new ↦ rw new (elim (Option-cases (get_elem? env.structs t)) [
          | inl unknown ↦ rw unknown (done-Ends _ _)
          | inr (d, known) ↦
              let fewer =
                unvisited-lt (length env.structs) t visited (get_elem?-lt env.structs t known)
                  new in
              rw known (
                fields_loop-Fine Ends done-Ends bind-Ends env (flatten_fields env fuel)
                  (t ∷ visited) (flatten_fields-Ends fuel (t ∷ visited) (omega (arith, fewer)))
                  (mapped_name-Ends env) d.fields sm d.name parent prefix index 0)
        ])
      ]

  -- `mapType` ends on every Go type, recursive struct types included: it returns, or it panics.
  pub map_type-ends : (t : GoType) → map_type env t ≢ no_fuel
  unfolding map_type
  map_type-ends t =
      let fuel = suc (length env.structs) in
      if-Fine Ends done-Ends bind-Ends _ _ _ (done-Ends _ _) (
        bind-Ends _ _ (flatten_fields env fuel empty_map (struct_id t) root_place [] [] []) _
          (flatten_fields-Ends fuel [] (omega (arith, unvisited_bound (length env.structs)))
            empty_map (struct_id t) root_place [] [])
          (λ r. done-Ends _ _))
