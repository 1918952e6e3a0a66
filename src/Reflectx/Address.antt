-- ===== src/Reflectx/Address.antt =====
-- `AddrByTraversal` over an explicit memory. A pointer is an address, and 0 is nil; memory that was
-- never written is zero, and `reflect.New` takes the next free block.
use sqlx_v.Prelude.{ℕ, ◌+◌, none, some, List, [], ◌∷◌, ◌≡◌, arith, ◌==◌, if◌then◌else◌, All}
use sqlx_v.Value.{GoType}
use sqlx_v.Reflectx.Mapper.{Step}

pub record Memory : Type 0 where
  pub cell : ℕ → ℕ
  pub next : ℕ

-- `*p = a`.
unfoldable pub write_cell : Memory → ℕ → ℕ → Memory
write_cell m p a = record m { cell = λ q. if q == p then a else m.cell q }

-- The sizes of Go types are the compiler's.
module _ (size : GoType → ℕ) where
  -- `reflect.New(t)`, stored through the pointer `p`.
  allocate_at : GoType → ℕ → Memory → Memory
  unfolding write_cell
  allocate_at t p m = record (write_cell m p m.next) { next = m.next + size t }

  -- The body of the loop: the new address and the memory.
  unfoldable pub step_address : ℕ → Step → Memory → ℕ × Memory
  unfolding allocate_at
  step_address ptr step m =
      let p = ptr + step.offset in
      elim step.type [
        | none ↦ (p, m)
        | some t ↦ let m' = if m.cell p == 0 then allocate_at t p m else m in (m'.cell p, m')
      ]

  unfoldable pub addr_by_traversal : ℕ → List Step → Memory → ℕ × Memory
  unfolding step_address
  addr_by_traversal base [] m = (base, m)
  addr_by_traversal base (s ∷ steps) m =
      let (ptr, m') = step_address base s m in addr_by_traversal ptr steps m'

-- No step loads a pointer.
abbrev pub IsFlat : List Step → Type 0
IsFlat = All (λ s. s.type ≡ none)

abbrev pub sum_offsets : List Step → ℕ
sum_offsets [] = 0
sum_offsets (s ∷ steps) = s.offset + sum_offsets steps

-- Without pointers the walk is one addition, and changes no memory.
pub addr_by_traversal-flat :
    (size : GoType → ℕ) (base : ℕ) (steps : List Step) (m : Memory)
    → IsFlat steps
    → addr_by_traversal size base steps m ≡ (base + sum_offsets steps, m)
unfolding addr_by_traversal
addr_by_traversal-flat size base [] m h = ground arith
addr_by_traversal-flat size base (s ∷ steps) m (h, hs) =
    ground (arith, addr_by_traversal-flat size (base + s.offset) steps m hs)
