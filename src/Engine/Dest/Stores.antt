-- ===== src/Engine/Dest/Stores.antt =====
-- What the loop of `populateScanDest` leaves at one index, and what `sortByOffset` keeps.
use sqlx_v.Prelude.{
  ℕ, zero, suc, ◌+◌, ◌<◌, some, List, [], ◌∷◌, ◌++◌, reverse, ◌≡◌, ◌⊎◌, inl, inr, refl, ap, ◌∙◌,
  arith, ◌==◌, ==_iff, Bool-cases, if◌then◌else◌, get_elem?, set, length, All,
}
use mathlib.Core.List.{reverse-cons}
use sqlx_v.SyncMap.{bytes_key}
use sqlx_v.Value.{GoType}
use sqlx_v.Reflectx.Address.{Memory}
use sqlx_v.Engine.Meta.{FieldMeta, sift, sort_from}
use sqlx_v.Engine.Meta.Order.{sift-All, All-reverse}
use sqlx_v.Engine.Dest.{Slot, slot_of, populate_scan_dest}

get_elem?-set :
    (xs : List Slot) (i k : ℕ) (v : Slot)
    → k < length xs
    → get_elem? (set xs i v) k ≡ (if i == k then some v else get_elem? xs k)
get_elem?-set [] i k v h = absurd (omega arith)
get_elem?-set (x ∷ xs) zero zero v h = refl
get_elem?-set (x ∷ xs) zero (suc k) v h = ground arith
get_elem?-set (x ∷ xs) (suc i) zero v h = ground arith
get_elem?-set (x ∷ xs) (suc i) (suc k) v h = ground (arith, get_elem?-set xs i k v)

length-set_slot : (xs : List Slot) (i : ℕ) (v : Slot) → length (set xs i v) ≡ length xs
length-set_slot [] i v = refl
length-set_slot (x ∷ xs) zero v = refl
length-set_slot (x ∷ xs) (suc i) v = ap suc (length-set_slot xs i v)

-- How many entries are for the column `k`.
abbrev pub count_at : ℕ → List FieldMeta → ℕ
count_at k [] = 0
count_at k (fm ∷ ms) = (if fm.col_index == k then 1 else 0) + count_at k ms

count_at-append : (k : ℕ) (a b : List FieldMeta) → count_at k (a ++ b) ≡ count_at k a + count_at k b
count_at-append k [] b = omega arith
count_at-append k (x ∷ a) b = ground (arith, count_at-append k a b)

count_at-reverse : (k : ℕ) (a : List FieldMeta) → count_at k (reverse a) ≡ count_at k a
count_at-reverse k [] = refl
count_at-reverse k (x ∷ a) =
    rw reverse-cons (ground (arith, count_at-append k (reverse a) (x ∷ []), count_at-reverse k a))

count_at-sift :
    (k : ℕ) (x : FieldMeta) (ys : List FieldMeta) → count_at k (sift x ys) ≡ count_at k (x ∷ ys)
unfolding sift
count_at-sift k x [] = refl
count_at-sift k x (y ∷ ys) = ground (arith, count_at-sift k x ys)

pub count_at-sort_from :
    (k : ℕ) (before xs : List FieldMeta)
    → count_at k (sort_from before xs) ≡ count_at k before + count_at k xs
unfolding sort_from
count_at-sort_from k before [] = ground (arith, count_at-reverse k before)
count_at-sort_from k before (x ∷ xs) =
    ground (arith, count_at-sort_from k (sift x before) xs, count_at-sift k x before)

module _ (Q : FieldMeta → Type 0) where
  pub sort_from-All :
      (before xs : List FieldMeta) → All Q before → All Q xs → All Q (sort_from before xs)
  unfolding sort_from
  sort_from-All before [] hb hx = All-reverse Q before hb
  sort_from-All before (x ∷ xs) hb (h, hs) =
      sort_from-All (sift x before) xs (sift-All Q x before h hb) hs

module _ (size : GoType → ℕ) (base k : ℕ) (slot : Slot) where
  -- The entries for the column `k` all store the slot there.
  abbrev pub Stores : List FieldMeta → Type 0
  Stores = All (λ fm. fm.col_index ≡ k → (m : Memory) → (slot_of size base fm m).0 ≡ slot)

  pub populate_scan_dest-Stores :
      (meta : List FieldMeta) (dest : List Slot) (m : Memory)
      → Stores meta
      → k < length dest
      → (get_elem? dest k ≡ some slot) ⊎ (0 < count_at k meta)
      → get_elem? (populate_scan_dest size base meta dest m).0 k ≡ some slot
  unfolding populate_scan_dest
  populate_scan_dest-Stores [] dest m h within (inl e) = e
  populate_scan_dest-Stores [] dest m h within (inr e) = absurd (omega arith)
  populate_scan_dest-Stores (fm ∷ meta) dest m (h, hs) within start =
      let (s, m') = slot_of size base fm m in
      populate_scan_dest-Stores meta (set dest fm.col_index s) m' hs
        (rw (length-set_slot dest fm.col_index s) within)
        (elim (Bool-cases (fm.col_index == k)) [
          | inl here ↦ inl (
              get_elem?-set dest fm.col_index k s within
              ∙ rw here (ap some (h ((==_iff fm.col_index k).0 here) m)))
          | inr other ↦ elim start [
            | inl e ↦ inl (get_elem?-set dest fm.col_index k s within ∙ rw other e)
            | inr e ↦ inr (ground arith)
          ]
        ])
