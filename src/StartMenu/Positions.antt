-- ===== src/StartMenu/Positions.antt =====
-- Which items the indices of a category stand for.
use factory_test.Common.{
  true, false, ◌==◌, ℕ, suc, ◌+◌, ◌≤◌, ◌<◌, List, [], ◌∷◌, length, get_elem?, leb, none, some, ◌≡◌,
  refl, ◌∙◌, ap, Bool-cases, inl, inr, arith,
}
use factory_test.StartMenu.{
  StartMenuCategory, StartMenuItem, same_category, item_count_for_category, absolute_from,
  absolute_index_for_category, item_for_category,
}

-- The item of a category with an index, in a list that the loop has reached at `i`.
record Located (items : List StartMenuItem) (category : StartMenuCategory) (i position : ℕ)
    : Type 0 where
  offset : ℕ
  item : StartMenuItem
  at : position ≡ i + offset
  inside : offset < length items
  found : get_elem? items offset ≡ some item
  same : same_category item.category category ≡ true

further :
    (x : StartMenuItem) (items : List StartMenuItem) (category : StartMenuCategory) (i position : ℕ)
    → Located items category (suc i) position
    → Located (x ∷ items) category i position
further x items category i position l = record {
  offset = suc l.offset;
  item = l.item;
  at = omega (arith, l.at);
  inside = omega (arith, l.inside);
  found = l.found;
  same = l.same;
}

module _ (category : StartMenuCategory) (index none_found : ℕ) where
  absolute_from-Located :
      (items : List StartMenuItem) (seen i : ℕ)
      → seen ≤ index
      → index < seen + item_count_for_category items category
      → Located items category i (absolute_from items category index seen i none_found)
  unfolding absolute_from item_count_for_category
  absolute_from-Located [] seen i a b = absurd (omega arith)
  absolute_from-Located (x ∷ items) seen i a b =
      elim (Bool-cases (same_category x.category category)) [
        | inr other ↦ simp other (
            further x items category i _
              (absolute_from-Located items seen (suc i) a (simp other at b)))
        | inl same ↦ elim (Bool-cases (seen == index)) [
          | inl here ↦
              simp (same, here)
                (record {
                  offset = 0;
                  item = x;
                  at = omega arith;
                  inside = omega arith;
                  found = refl;
                  same = same;
                })
          | inr later ↦
              simp (same, later)
                (further x items category i _
                  (absolute_from-Located items (suc seen) (suc i) (ground arith) (ground arith)))
        ]
      ]

  absolute_from-none :
      (items : List StartMenuItem) (seen i : ℕ)
      → seen + item_count_for_category items category ≤ index
      → absolute_from items category index seen i none_found ≡ none_found
  unfolding absolute_from item_count_for_category
  absolute_from-none [] seen i a = refl
  absolute_from-none (x ∷ items) seen i a = elim (Bool-cases (same_category x.category category)) [
    | inr other ↦ simp other (absolute_from-none items seen (suc i) (simp other at a))
    | inl same ↦
        let apart : (seen == index) ≡ false = ground arith in
        simp (same, apart) (absolute_from-none items (suc seen) (suc i) (ground arith))
  ]

module _ (items : List StartMenuItem) (category : StartMenuCategory) (index : ℕ) where
  -- The position that an index of a category stands for, with the item there.
  pub absolute_index-found :
      index < item_count_for_category items category
      → (item : StartMenuItem) × (absolute_index_for_category items category index < length items)
        × (get_elem? items (absolute_index_for_category items category index) ≡ some item)
        × (same_category item.category category ≡ true)
  unfolding absolute_index_for_category
  absolute_index-found small =
      let l =
        absolute_from-Located category index (length items) items 0 0 (omega arith)
          (omega (arith, small)) in
      let at : absolute_from items category index 0 0 (length items) ≡ l.offset =
        omega (arith, l.at) in
      (l.item, omega (arith, at, l.inside), ap (λ i. get_elem? items i) at ∙ l.found, l.same)

  -- An index below the number of the items of a category stands for an item of it, and every other
  -- index for none.
  pub item_for_category_cases :
      (index < item_count_for_category items category
        → (item : StartMenuItem) × (item_for_category items category index ≡ some item)
          × (same_category item.category category ≡ true))
      × (item_count_for_category items category ≤ index
          → item_for_category items category index ≡ none)
  unfolding item_for_category absolute_index_for_category
  item_for_category_cases = (
    λ small.
        let (item, inside, found, same) = absolute_index-found small in
        let below : leb (length items) (absolute_index_for_category items category index) ≡ false =
          ground arith in
        (item, simp below found, same),
    λ large.
        let past =
          absolute_from-none category index (length items) items 0 0 (omega (arith, large)) in
        let above : leb (length items) (absolute_index_for_category items category index) ≡ true =
          ground (arith, past) in
        simp above,
  )
