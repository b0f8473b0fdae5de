-- ===== src/Examples/Menus.antt =====
-- Moves through the start menu.
use factory_test.Common.{true, List, [], ◌∷◌, some, ◌≡◌}
use factory_test.StartMenu.{StartMenuItem, start_menu_items, same_category, selected_item}
use factory_test.StartMenu.Moves.{
  Move, next, next_category, to_index, initial, move_all, move_all-selected_item,
}

abbrev moves : List Move
moves = next ∷ next_category ∷ to_index 6 ∷ next ∷ []

move_all-selected_item_example :
    let items = start_menu_items true in
    let m = move_all items moves initial in
    (item : StartMenuItem) × (selected_item items m ≡ some item)
    × (same_category item.category m.selected_category ≡ true)
move_all-selected_item_example = move_all-selected_item true moves
