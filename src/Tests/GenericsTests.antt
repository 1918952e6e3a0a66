-- ===== src/Tests/GenericsTests.antt =====
-- The functions of generics.go at concrete inputs.
use sqlx_v.Prelude.{
  ℕ, ◌+◌, ◌≤◌, ◌<◌, false, none, some, List, [], ◌∷◌, ◌≡◌, refl, arith, map, bytes_eq,
}
use sqlx_v.Errors.{external, ok, panics}
use sqlx_v.SyncMap.{load}
use sqlx_v.Value.{type_eq, struct_type, pointer_to, slice_of, type_eq}
use sqlx_v.Reflectx.Address.{Memory, write_cell}
use sqlx_v.Reflectx.TypeMap.{type_map}
use sqlx_v.Engine.Meta.{compute_meta}
use sqlx_v.Engine.Meta.Cache.{build_meta, cached_meta, keep}
use sqlx_v.Engine.Dest.{Slot, empty, populate_scan_dest, is_scannable}
use sqlx_v.Engine.Scan.{SqlRows, Scanned, iterate_scan}
use sqlx_v.Engine.Scan.Select.{Item, copied_item}
use sqlx_v.Handles.{other_queryer, select_context, get_context}
use sqlx_v.Generics.Select.{select_g, Elements, grow, select_elements}
use sqlx_v.Generics.Select.Pointers.{SameCall, select_g-select_context}
use sqlx_v.Generics.Select.Grown.{
  Grown, grow-Grown, KeepsOthers, element_items, no_elements, select_elements-element_items,
}
use sqlx_v.Generics.Get.{item_at, get_g}
use sqlx_v.Generics.Get.Same.{SameGetCall, get_g-get_context}
use sqlx_v.Generics.Iter.{Body, select_iter}
use sqlx_v.Generics.Iter.Left.{select_iter-left}
use sqlx_v.Generics.Iter.Collect.{SameGathered, gather, none_yet, select_iter-select_context}
use sqlx_v.Tests.Users.{setting, size, fresh, id_meta, sql_scan, caches, rows_of}

select_g-select_context_example :
    SameCall
      (select_g setting.mapper setting size sql_scan other_queryer
        (ok (rows_of (7 ∷ 8 ∷ [])))
        (pointer_to (struct_type 0))
        caches
        fresh)
      (select_context setting.mapper setting size sql_scan other_queryer
        (ok (rows_of (7 ∷ 8 ∷ [])))
        (record { type = some (pointer_to (slice_of (pointer_to (struct_type 0)))); target = 100 })
        caches
        fresh
        [])
unfolding type_eq
select_g-select_context_example =
    select_g-select_context setting.mapper setting size sql_scan other_queryer
      (ok (rows_of (7 ∷ 8 ∷ []))) (pointer_to (struct_type 0)) 100 caches fresh refl refl
      (λ e. absurd (omega (arith, e)))

get_g-get_context_example :
    SameGetCall
      (item_at false 8 1000)
      (get_g setting.mapper setting size sql_scan other_queryer
        (ok (rows_of (7 ∷ [])))
        (struct_type 0)
        caches
        fresh)
      (get_context setting.mapper setting size sql_scan other_queryer
        (ok (rows_of (7 ∷ [])))
        (record { type = some (pointer_to (struct_type 0)); target = 1000 })
        caches
        (record { cell = λ p. 0; next = 1008 }))
get_g-get_context_example =
    get_g-get_context setting.mapper setting size sql_scan other_queryer (ok (rows_of (7 ∷ [])))
      (struct_type 0) caches fresh refl refl (λ rows e none_left. cc)

-- A loop that is left at its first row.
abbrev first_only : Body ℕ
first_only v n = (n + 1, false)

abbrev failing_close : SqlRows ℕ
failing_close = record (rows_of (7 ∷ 8 ∷ [])) { close_err = some (external 1) }

select_iter-left_example :
    (select_iter setting.mapper setting size sql_scan first_only other_queryer
      (ok failing_close)
      (struct_type 0)
      caches
      fresh
      0).1
    ≡ panics
unfolding select_iter type_map build_meta cached_meta load bytes_eq type_eq is_scannable
    iterate_scan keep compute_meta populate_scan_dest
select_iter-left_example =
    select_iter-left setting.mapper setting size sql_scan first_only other_queryer failing_close
      (struct_type 0) caches fresh 0 refl

select_iter-select_context_example :
    (s : Scanned ℕ (List Item)) × (select_context setting.mapper setting size sql_scan other_queryer
        (ok (rows_of (7 ∷ 8 ∷ [])))
        (record { type = some (pointer_to (slice_of (struct_type 0))); target = 100 })
        caches
        fresh
        []
      ≡ ok s)
    × SameGathered
        (select_iter setting.mapper setting size sql_scan gather other_queryer
          (ok (rows_of (7 ∷ 8 ∷ [])))
          (struct_type 0)
          caches
          fresh
          none_yet)
        s.scan.out
        s.result
select_iter-select_context_example =
    select_iter-select_context setting.mapper setting size sql_scan other_queryer
      (rows_of (7 ∷ 8 ∷ [])) (struct_type 0) 100 caches fresh refl refl
      (λ e. absurd (omega (arith, e)))

abbrev full : Elements
full = record { base = 10; len = 1; capacity = 1 }

grow-Grown_example : Grown 2 full fresh (grow 2 full fresh).0 (grow 2 full fresh).1
grow-Grown_example =
    grow-Grown 2 full fresh (record { within = omega arith; allocated = omega arith })

sql_scan-keeps :
    (n : ℕ) (p : ℕ) (dest : List Slot) (m : Memory)
    → let (dest', m') = populate_scan_dest size p id_meta dest m in
      (m.next ≤ (sql_scan n dest' m').0.next)
      × ((q : ℕ) → q < p → (sql_scan n dest' m').0.cell q ≡ m.cell q)
unfolding populate_scan_dest write_cell
sql_scan-keeps n p [] m = (omega arith, λ q h. refl)
sql_scan-keeps n p (s ∷ dest) m = (omega arith, λ q h. ground arith)

keeps : KeepsOthers setting size sql_scan 1 id_meta
keeps = record {
  grows = λ n p dest m. (sql_scan-keeps n p dest m).0;
  keeps = λ n p dest m q inside h. (sql_scan-keeps n p dest m).1 q h;
}

-- More rows than the first array holds.
abbrev nine : List ℕ
nine = 1 ∷ 2 ∷ 3 ∷ 4 ∷ 5 ∷ 6 ∷ 7 ∷ 8 ∷ 9 ∷ []

select_elements-element_items_example :
    (map (λ n. copied_item (n ∷ [])) nine
      ≡ element_items setting size sql_scan 1 id_meta nine (no_elements fresh (empty ∷ [])))
    × ((rows_of nine).err ≡ none)
unfolding select_elements write_cell populate_scan_dest
select_elements-element_items_example =
    select_elements-element_items setting size sql_scan 1 id_meta keeps (rows_of nine) (empty ∷ [])
      fresh refl
