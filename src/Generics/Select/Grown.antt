-- ===== src/Generics/Select/Grown.antt =====
-- The slice of structs that `SelectG` grows: each row is scanned into its array, and stays there when the
-- array is replaced by a larger one.
use sqlx_v.Prelude.{
  ℕ, zero, suc, ◌+◌, ◌-◌, ◌*◌, ◌≤◌, ◌<◌, Option, none, some, List, [], ◌∷◌, ◌++◌, ◌≡◌, refl, sym,
  ap, ap₂, ◌∙◌, inl, inr, arith, ◌==◌, Bool-cases, append_assoc, append-nil,
}
use sqlx_v.Errors.{Error, Result, ok, fail, panics, Result-cases}
use sqlx_v.Value.{GoType}
use sqlx_v.Reflectx.Address.{Memory}
use sqlx_v.Reflectx.Tags.{Setting}
use sqlx_v.Engine.Meta.{FieldMeta}
use sqlx_v.Engine.Dest.{Slot, populate_scan_dest}
use sqlx_v.Engine.Scan.{SqlRows, Scan}
use sqlx_v.Engine.Scan.Select.{Item, copied_item, cells_from, new_object}
use sqlx_v.Generics.Select.{
  each_row, Elements, copy_cells, zero_cells, next_capacity, grow, read_elements, all_results,
  scan_element, select_elements,
}

-- The same cells, at another place.
cells_from-eq :
    (m m' : Memory) (p q n : ℕ)
    → ((k : ℕ) → k < n → m'.cell (p + k) ≡ m.cell (q + k))
    → cells_from m' p n ≡ cells_from m q n
cells_from-eq m m' p q zero same = refl
cells_from-eq m m' p q (suc n) same =
    let first : m'.cell p ≡ m.cell q = ground (arith, same 0) in
    let rest = cells_from-eq m m' (p + 1) (q + 1) n (λ k h. ground (arith, same (k + 1))) in
    ap₂ (λ c cs. c ∷ cs) first rest

read_elements-eq :
    (m m' : Memory) (p q n k : ℕ)
    → ((j : ℕ) → j < k * n → m'.cell (p + j) ≡ m.cell (q + j))
    → read_elements m' p n k ≡ read_elements m q n k
unfolding read_elements
read_elements-eq m m' p q n zero same = refl
read_elements-eq m m' p q n (suc k) same =
    ap₂ (λ c cs. copied_item c ∷ cs) (cells_from-eq m m' p q n (λ j h. same j (grind arith)))
      (read_elements-eq m m' (p + n) (q + n) n k (λ j h.
        let within : n + j < suc k * n = grind arith in ground (arith, same (n + j) within)))

-- One element more, at the end.
read_elements-snoc :
    (m : Memory) (b n k : ℕ)
    → read_elements m b n (suc k)
      ≡ read_elements m b n k ++ copied_item (cells_from m (b + k * n) n) ∷ []
unfolding read_elements
read_elements-snoc m b n zero =
    let e : b ≡ b + 0 * n = omega arith in ap (λ p. copied_item (cells_from m p n) ∷ []) e
read_elements-snoc m b n (suc k) =
    let e : b + n + k * n ≡ b + suc k * n = grind arith in
    ap (λ l. copied_item (cells_from m b n) ∷ l)
      (read_elements-snoc m (b + n) n k
        ∙ ap (λ p. read_elements m (b + n) n k ++ copied_item (cells_from m p n) ∷ []) e)

read_elements-next :
    (m : Memory) (b n k : ℕ) {items : List Item}
    → read_elements m b n k ≡ items
    → read_elements m b n (k + 1) ≡ items ++ copied_item (cells_from m (b + (k + 1 - 1) * n) n) ∷ []
read_elements-next m b n k h =
    let one_more : k + 1 ≡ suc k = omega arith in
    let last : k ≡ k + 1 - 1 = omega arith in
    ap (read_elements m b n) one_more
    ∙ read_elements-snoc m b n k
    ∙ ap₂ (λ l j. l ++ copied_item (cells_from m (b + j * n) n) ∷ []) h last

-- The array lies in the memory that is in use, and holds the elements.
pub record Fits (n : ℕ) (a : Elements) (m : Memory) : Type 0 where
  pub within : a.len ≤ a.capacity
  pub allocated : a.base + a.capacity * n ≤ m.next

abbrev pub read : ℕ → Elements → Memory → List Item
read n a m = read_elements m a.base n a.len

copied_cell :
    (target source k j : ℕ) (m : Memory)
    → j < k
    → (copy_cells target source k m).cell (target + j) ≡ m.cell (source + j)
copied_cell target source k j m h = ground arith

zeroed_elsewhere : (p n q : ℕ) (m : Memory) → q < p → (zero_cells p n m).cell q ≡ m.cell q
zeroed_elsewhere p n q m h = ground arith

-- Behind the growth: the same elements, and room for another one.
pub record Grown (n : ℕ) (a : Elements) (m : Memory) (a' : Elements) (m' : Memory) : Type 0 where
  pub fits : Fits n a' m'
  pub room : a'.len < a'.capacity
  pub same_len : a'.len ≡ a.len
  pub same_read : read n a' m' ≡ read n a m

next_capacity-lt : (c : ℕ) → c < next_capacity c
next_capacity-lt c = ground arith

-- When the slice grows, its elements stay the same, and there is room behind them: the array still
-- lies in the memory that is in use, and its length is below its capacity.
pub grow-Grown :
    (n : ℕ) (a : Elements) (m : Memory) → Fits n a m → Grown n a m (grow n a m).0 (grow n a m).1
unfolding grow
grow-Grown n a m f = elim (Bool-cases (a.len == a.capacity)) [
  | inl full ↦
      let larger = next_capacity-lt a.capacity in
      rw full (record {
        fits = record { within = omega (arith, larger, f.within); allocated = omega arith };
        room = omega (arith, larger, f.within);
        same_len = refl;
        same_read = read_elements-eq m _ m.next a.base n a.len (λ j h.
            copied_cell m.next a.base (a.len * n) j (new_object (next_capacity a.capacity * n) m).1
              h);
      })
  | inr other ↦
      rw other
        (record { fits = f; room = ground (arith, f.within); same_len = refl; same_read = refl })
]

element_within : (n len capacity : ℕ) → len < capacity → len * n + n ≤ capacity * n
element_within n len capacity h = grind arith

all_results-ok :
    {Y : Type 0} (err : Option Error) (items : Memory → Y → List Item)
    (p : Scan Y × Result (Unit {0})) {results : List Item}
    → (all_results err items p).1 ≡ ok results
    → (err ≡ none) × (p.1 ≡ ok tt) × (results ≡ items p.0.memory p.0.out)
all_results-ok none items (w, ok u) h = (refl, refl, ground arith)
all_results-ok (some e) items (w, ok u) h = absurd (cc)
all_results-ok err items (w, fail e) h = absurd (cc)
all_results-ok err items (w, panics) h = absurd (cc)

abbrev pub no_elements : Memory → List Slot → Scan Elements
no_elements memory dest = record {
  memory = memory;
  scan_dest = dest;
  out = record { base = 0; len = 0; capacity = 0 };
}

module _ {R : Type 0} (env : Setting) (size : GoType → ℕ)
    (sql_scan : R → List Slot → Memory → Memory × Result (Unit {0})) (n : ℕ)
    (meta : List FieldMeta) where
  -- The memory behind the scan of a row into the object at `p`.
  abbrev pub filled : R → ℕ → List Slot → Memory → Memory
  filled row p dest m =
      let (dest', m') = populate_scan_dest size p meta dest m in (sql_scan row dest' m').0

  -- A scan writes to its own object and to memory that is new, and frees none.
  pub record KeepsOthers : Type 0 where
    pub grows :
        (row : R) (p : ℕ) (dest : List Slot) (m : Memory) → m.next ≤ (filled row p dest m).next
    pub keeps :
        (row : R) (p : ℕ) (dest : List Slot) (m : Memory) (q : ℕ)
        → p + n ≤ m.next
        → q < p
        → (filled row p dest m).cell q ≡ m.cell q

  -- The element that a row was scanned into, when it was.
  abbrev pub element_of : Scan Elements → Item
  element_of w = copied_item (cells_from w.memory (w.out.base + (w.out.len - 1) * n) n)

  -- What each row's scan leaves in its element.
  abbrev pub element_items : List R → Scan Elements → List Item
  element_items [] w = []
  element_items (row ∷ rows) w =
      let w' = (scan_element env size sql_scan n meta row w).0 in
      element_of w' ∷ element_items rows w'

  module _ (others : KeepsOthers) where
    scan_element-grown :
        (row : R) (w : Scan Elements)
        → Fits n w.out w.memory
        → let w' = (scan_element env size sql_scan n meta row w).0 in
          Fits n w'.out w'.memory
          × (read n w'.out w'.memory ≡ read n w.out w.memory ++ element_of w' ∷ [])
    unfolding scan_element
    scan_element-grown row w f =
        let g = grow-Grown n w.out w.memory f in
        let (a, m) = grow n w.out w.memory in
        let p = a.base + a.len * n in
        let z = zero_cells p n m in
        let m' = filled row p w.scan_dest z in
        let inside = element_within n a.len a.capacity g.room in
        let fits : p + n ≤ m.next = omega (arith, inside, g.fits.allocated) in
        let grows = others.grows row p w.scan_dest z in
        let kept : read_elements m' a.base n a.len ≡ read n a m =
          read_elements-eq m m' a.base a.base n a.len (λ j h.
            others.keeps row p w.scan_dest z (a.base + j) fits (omega (arith, h))
            ∙ zeroed_elsewhere p n (a.base + j) m (omega (arith, h))) in
        (
          record {
            within = ground (arith, g.room);
            allocated = omega (arith, grows, g.fits.allocated);
          },
          read_elements-next m' a.base n a.len (kept ∙ g.same_read),
        )

    each_row-grown :
        (rows : List R) (w : Scan Elements)
        → Fits n w.out w.memory
        → (each_row (scan_element env size sql_scan n meta) rows w).1 ≡ ok tt
        → let w' = (each_row (scan_element env size sql_scan n meta) rows w).0 in
          read n w'.out w'.memory ≡ read n w.out w.memory ++ element_items rows w
    unfolding each_row
    each_row-grown [] w f h = sym (append-nil _)
    each_row-grown (row ∷ rows) w f h =
        elim (Result-cases (scan_element env size sql_scan n meta row w).1) [
          | inl (u, e) ↦
              let (fits, more) = scan_element-grown row w f in
              let w' = (scan_element env size sql_scan n meta row w).0 in
              rw (e, each_row)
                (each_row-grown rows w' fits (rw (e, each_row) at h)
                  ∙ ap (λ l. l ++ element_items rows w') more
                  ∙ append_assoc (read n w.out w.memory) (element_of w' ∷ []) _)
          | inr (inl (x, e)) ↦ let no_error : fail x ≡ ok tt = rw (e, each_row) at h in absurd (cc)
          | inr (inr e) ↦ let no_panic : panics ≡ ok tt = rw (e, each_row) at h in absurd (cc)
        ]

    -- The array moves each time that it is full, and no row is lost: if each scan writes to no older
    -- element, the structs that a successful `SelectG` returns are what the scan of each row left in
    -- its element, in the order of the rows, and the rows had no error to report.
    pub select_elements-element_items :
        (rows : SqlRows R) (dest : List Slot) (memory : Memory) {results : List Item}
        → (select_elements env size sql_scan rows n meta dest memory).1 ≡ ok results
        → (results ≡ element_items rows.pending (no_elements memory dest)) × (rows.err ≡ none)
    unfolding select_elements
    select_elements-element_items rows dest memory h =
        let (fine, read_all, same) =
          all_results-ok {Y = Elements} rows.err (λ m a. read_elements m a.base n a.len)
            (each_row (scan_element env size sql_scan n meta) rows.pending
              (no_elements memory dest))
            h in
        (
          same
              ∙ each_row-grown rows.pending (no_elements memory dest)
                  (record { within = omega arith; allocated = omega arith }) read_all,
          fine,
        )
