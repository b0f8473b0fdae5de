-- ===== src/StartMenu/Moves.antt =====
-- The moves of the user through the start menu.
use factory_test.Common.{
  Bool, true, false, ℕ, ◌+◌, ◌-◌, ◌<◌, List, [], ◌∷◌, ltb, some, ◌≡◌, refl, sym, subst, Bool-cases,
  inl, inr, arith,
}
use factory_test.StartMenu.{
  StartMenuCategory, auto, periph, comms, StartMenuItem, StartMenuModel, start_menu_items,
  category_to_index, category_count, same_category, item_count_for_category, assign_index,
  selected_index, selected_item, select_previous, select_next, set_selected_index, clamped,
  set_selected_category, select_previous_category, select_next_category,
}
use factory_test.StartMenu.Positions.{absolute_index-found}

pub data Move : Type 0 where
  previous next previous_category next_category : Move
  to_index : ℕ → Move
  to_category : StartMenuCategory → Move
  to_drawer : Bool → Move

same_category_eq : (c d : StartMenuCategory) → same_category c d ≡ true → c ≡ d
same_category_eq auto auto e = refl
same_category_eq auto periph e = absurd (cc)
same_category_eq auto comms e = absurd (cc)
same_category_eq periph auto e = absurd (cc)
same_category_eq periph periph e = refl
same_category_eq periph comms e = absurd (cc)
same_category_eq comms auto e = absurd (cc)
same_category_eq comms periph e = absurd (cc)
same_category_eq comms comms e = refl

module _ (items : List StartMenuItem) where
  unfoldable pub move : Move → StartMenuModel → StartMenuModel
  move previous m = select_previous m
  move next m = select_next items m
  move previous_category m = select_previous_category items m
  move next_category m = select_next_category items m
  move (to_index index) m = set_selected_index items index m
  move (to_category category) m = set_selected_category items category m
  move (to_drawer hidden) m = record m { drawer_hidden = hidden }

  unfoldable pub move_all : List Move → StartMenuModel → StartMenuModel
  move_all [] m = m
  move_all (x ∷ moves) m = move_all moves (move x m)

  -- The index of every category stands for an item of it.
  abbrev pub IsWithin : StartMenuModel → Type 0
  IsWithin m = (c : StartMenuCategory) → m.selected_indices c < item_count_for_category items c

  assign_index-IsWithin :
      (category : StartMenuCategory) (index : ℕ) (m : StartMenuModel)
      → index < item_count_for_category items category
      → IsWithin m
      → IsWithin (assign_index category index m)
  assign_index-IsWithin category index m small within c =
      elim (Bool-cases (same_category c category)) [
        | inl same ↦ simp same (
            subst (λ d. index < item_count_for_category items d)
              (sym (same_category_eq c category same)) small)
        | inr other ↦ simp other (within c)
      ]

  clamped_small : (count index : ℕ) → index < count → clamped items count index < count
  clamped_small count index h = ground arith

  set_selected_category-IsWithin :
      (category : StartMenuCategory) (m : StartMenuModel)
      → IsWithin m
      → IsWithin (set_selected_category items category m)
  unfolding set_selected_category
  set_selected_category-IsWithin category m within =
      assign_index-IsWithin category _ (record m { selected_category = category })
        (clamped_small (item_count_for_category items category) (m.selected_indices category)
          (within category))
        within

  move-IsWithin : (x : Move) (m : StartMenuModel) → IsWithin m → IsWithin (move x m)
  unfolding move select_previous select_next set_selected_index select_previous_category
      select_next_category
  move-IsWithin previous m within = elim (Bool-cases (ltb 0 (selected_index m))) [
    | inl e ↦ simp e (
        assign_index-IsWithin m.selected_category (selected_index m - 1) m
          (omega (arith, within m.selected_category)) within)
    | inr e ↦ simp e within
  ]
  move-IsWithin next m within =
      elim (Bool-cases
        (ltb (selected_index m + 1) (item_count_for_category items m.selected_category))) [
          | inl e ↦ simp e (
              assign_index-IsWithin m.selected_category (selected_index m + 1) m (ground arith)
                within)
          | inr e ↦ simp e within
        ]
  move-IsWithin previous_category m within =
      elim (Bool-cases (ltb 0 (category_to_index m.selected_category))) [
        | inl e ↦ simp e (set_selected_category-IsWithin _ m within)
        | inr e ↦ simp e within
      ]
  move-IsWithin next_category m within =
      elim (Bool-cases (ltb (category_to_index m.selected_category + 1) category_count)) [
        | inl e ↦ simp e (set_selected_category-IsWithin _ m within)
        | inr e ↦ simp e within
      ]
  move-IsWithin (to_index index) m within =
      elim (Bool-cases (ltb index (item_count_for_category items m.selected_category))) [
        | inl e ↦ simp e (assign_index-IsWithin m.selected_category index m (ground arith) within)
        | inr e ↦ simp e within
      ]
  move-IsWithin (to_category category) m within = set_selected_category-IsWithin category m within
  move-IsWithin (to_drawer hidden) m within = within

  move_all-IsWithin :
      (moves : List Move) (m : StartMenuModel) → IsWithin m → IsWithin (move_all moves m)
  unfolding move_all
  move_all-IsWithin [] m within = within
  move_all-IsWithin (x ∷ moves) m within =
      move_all-IsWithin moves (move x m) (move-IsWithin x m within)

-- The menu as it is constructed.
abbrev pub initial : StartMenuModel
initial = record { selected_category = auto; selected_indices = λ c. 0; drawer_hidden = false }

initial-IsWithin : (product_mode : Bool) → IsWithin (start_menu_items product_mode) initial
unfolding start_menu_items item_count_for_category
initial-IsWithin true auto = omega arith
initial-IsWithin true periph = omega arith
initial-IsWithin true comms = omega arith
initial-IsWithin false auto = omega arith
initial-IsWithin false periph = omega arith
initial-IsWithin false comms = omega arith

-- After any moves from the initial menu, in both builds, the selected item is an item of the table
-- and of the selected category: no access is out of bounds.
pub move_all-selected_item :
    (product_mode : Bool) (moves : List Move)
    → (let items = start_menu_items product_mode in
        let m = move_all items moves initial in
        (item : StartMenuItem) × (selected_item items m ≡ some item)
        × (same_category item.category m.selected_category ≡ true))
move_all-selected_item product_mode moves =
    let items = start_menu_items product_mode in
    let m = move_all items moves initial in
    let within = move_all-IsWithin items moves initial (initial-IsWithin product_mode) in
    let (item, inside, found, same) =
      absolute_index-found items m.selected_category (selected_index m)
        (within m.selected_category) in
    (item, found, same)
