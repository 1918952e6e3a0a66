-- ===== src/Engine/Pool.antt =====
-- `scanPool`, `getScanDest` and `putScanDest` of engine.go, with any number of scans at a time.
use sqlx_v.Prelude.{
  ℕ, zero, suc, ◌≤◌, List, [], ◌∷◌, ◌++◌, ◌≡◌, refl, ap, ap₂, subst, inl, inr, arith, ltb,
  if◌then◌else◌, length, take, replicate, All, All-removed, length-replicate, Bool-cases,
}
use sqlx_v.Engine.Dest.{Slot, empty}

-- A `[]any`: the elements up to its capacity, and its length.
pub record Slice : Type 0 where
  pub elements : List Slot
  pub len : ℕ

-- `New` of the pool: a nil slice.
abbrev pub new_slice : Slice
new_slice = record { elements = []; len = 0 }

-- `getScanDest`, with the slice that the pool gives.
unfoldable pub get_scan_dest : Slice → ℕ → Slice
get_scan_dest s size =
    if ltb (length s.elements) size
    then record { elements = replicate size empty; len = size }
    else record s { len = size }

-- The loop of `putScanDest`.
abbrev pub set_nil : List Slot → List Slot
set_nil [] = []
set_nil (e ∷ es) = empty ∷ set_nil es

-- `putScanDest`, with the slice that goes to the pool.
unfoldable pub put_scan_dest : Slice → Slice
put_scan_dest s = record { elements = set_nil s.elements; len = length s.elements }

-- The slices that lie in the pool, and those that scans have.
pub record Pool : Type 0 where
  pub idle : List Slice
  pub busy : List Slice

-- `sync.Pool` gives any slice that it has, or a new one, and may drop some. A scan writes to the elements of
-- its own slice.
pub data PoolStep : Pool → Pool → Type 0 where
  gets :
      (before after : List Slice) (s : Slice) (busy : List Slice) (size : ℕ)
      → PoolStep
          (record { idle = before ++ s ∷ after; busy = busy })
          (record { idle = before ++ after; busy = get_scan_dest s size ∷ busy })
  gets_new :
      (p : Pool) (size : ℕ) → PoolStep p (record p { busy = get_scan_dest new_slice size ∷ p.busy })
  writes :
      (before after : List Slice) (s t : Slice) (idle : List Slice)
      → PoolStep
          (record { idle = idle; busy = before ++ s ∷ after })
          (record { idle = idle; busy = before ++ t ∷ after })
  puts :
      (before after : List Slice) (s : Slice) (idle : List Slice)
      → PoolStep
          (record { idle = idle; busy = before ++ s ∷ after })
          (record { idle = put_scan_dest s ∷ idle; busy = before ++ after })
  drops :
      (before after : List Slice) (s : Slice) (busy : List Slice)
      → PoolStep
          (record { idle = before ++ s ∷ after; busy = busy })
          (record { idle = before ++ after; busy = busy })

abbrev pub no_slices : Pool
no_slices = record { idle = []; busy = [] }

pub data PoolReaches : Pool → Type 0 where
  starts : PoolReaches no_slices
  then_step : {p q : Pool} → PoolReaches p → PoolStep p q → PoolReaches q

-- Every element is nil, up to the capacity.
abbrev IsNil : Slice → Type 0
IsNil s = All (λ e. e ≡ empty) s.elements

set_nil-nil : (es : List Slot) → All (λ e. e ≡ empty) (set_nil es)
set_nil-nil [] = tt
set_nil-nil (e ∷ es) = (refl, set_nil-nil es)

-- What lies in the pool is nil, whatever the scans write.
PoolStep-IsNil : {p q : Pool} → PoolStep p q → All IsNil p.idle → All IsNil q.idle
PoolStep-IsNil (gets before after s busy size) h = (All-removed IsNil before after h).0
PoolStep-IsNil (gets_new p size) h = h
PoolStep-IsNil (writes before after s t idle) h = h
PoolStep-IsNil (puts before after s idle) h = unfold put_scan_dest in (set_nil-nil s.elements, h)
PoolStep-IsNil (drops before after s busy) h = (All-removed IsNil before after h).0

PoolReaches-IsNil : {p : Pool} → PoolReaches p → All IsNil p.idle
PoolReaches-IsNil starts = tt
PoolReaches-IsNil (then_step r s) = PoolStep-IsNil s (PoolReaches-IsNil r)

take-nil :
    (size : ℕ) (es : List Slot)
    → All (λ e. e ≡ empty) es
    → size ≤ length es
    → take size es ≡ replicate size empty
take-nil zero es h enough = refl
take-nil (suc n) [] h enough = absurd (omega arith)
take-nil (suc n) (e ∷ es) (h, hs) enough = ap₂ (λ a l. a ∷ l) h (take-nil n es hs (omega arith))

take-replicate : (n : ℕ) → take n (replicate n empty) ≡ replicate n empty
take-replicate zero = refl
take-replicate (suc n) = ap (λ l. empty ∷ l) (take-replicate n)

-- No scan sees what an older one has left: however many scans get slices from the pool, write to them and
-- put them back, in whatever order, the slice that `getScanDest` makes of any that lies in the pool has
-- the length asked for, room for it, and only nil elements.
pub get_scan_dest-nil :
    (p : Pool) (before after : List Slice) (s : Slice) (size : ℕ)
    → PoolReaches p
    → p.idle ≡ before ++ s ∷ after
    → ((get_scan_dest s size).len ≡ size)
      × (size ≤ length (get_scan_dest s size).elements)
      × (take size (get_scan_dest s size).elements ≡ replicate size empty)
unfolding get_scan_dest
get_scan_dest-nil p before after s size r lies =
    let nil : IsNil s =
      (All-removed IsNil before after (subst (All IsNil) lies (PoolReaches-IsNil r))).1 in
    elim (Bool-cases (ltb (length s.elements) size)) [
      | inl small ↦
          rw (small, get_scan_dest)
            (refl, omega (arith, length-replicate size empty), take-replicate size)
      | inr large ↦
          let enough : size ≤ length s.elements = ground (arith, large) in
          rw (large, get_scan_dest) (refl, enough, take-nil size s.elements nil enough)
    ]
