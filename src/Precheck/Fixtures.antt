-- ===== src/Precheck/Fixtures.antt =====
-- src/factory_precheck/precheck_model.cpp: what a fixture's check has shown when it passes.
use factory_test.Common.{
  ◌⊎◌, true, false, Bool-cases, inl, inr, ℕ, zero, suc, List, [], ◌∷◌, length, All, Option, none,
  some, ◌≡◌, refl, sym, ap, subst, ◌∙◌, arith,
}
use factory_test.CapFixture.Types.{CapFixtureRunState, CapFixtureItemState, CapFixtureItemSnapshot}
use factory_test.Precheck.{CheckState, FixtureSubItem, CheckItem, Findings}
use factory_test.Precheck.Devices.{Devices, cap_fixture_sub_state}
use factory_test.Precheck.Watches.{
  Standing, goes_on, passed, ended, mirror_cap, cap_standing, found, watch_cap,
  run_cap_fixture_check,
}

abbrev pub PassedItem : CapFixtureItemSnapshot → Type 0
PassedItem item = item.state ≡ CapFixtureItemState.passed

abbrev pub PassedSubItem : FixtureSubItem → Type 0
PassedSubItem sub = sub.state ≡ CheckState.passed

length-mirror_cap :
    (items : List CapFixtureItemSnapshot) (subs : List FixtureSubItem)
    → length (mirror_cap items subs) ≡ length subs
length-mirror_cap [] subs = refl
length-mirror_cap (item ∷ items) [] = refl
length-mirror_cap (item ∷ items) (sub ∷ subs) = ap suc (length-mirror_cap items subs)

mirror_cap-All :
    (items : List CapFixtureItemSnapshot) (subs : List FixtureSubItem)
    → length items ≡ length subs
    → All PassedItem items
    → All PassedSubItem (mirror_cap items subs)
mirror_cap-All [] [] e good = tt
mirror_cap-All [] (sub ∷ subs) e good = absurd (omega (arith, e))
mirror_cap-All (item ∷ items) [] e good = tt
mirror_cap-All (item ∷ items) (sub ∷ subs) e (first, good) =
    (ap cap_fixture_sub_state first, mirror_cap-All items subs (omega (arith, e)) good)

-- The fixture's promise: a snapshot that shows PASSED has eight items, all passed.
abbrev pub IsHonest : Devices → Type 0
IsHonest d =
    (w : d.World)
    → (d.cap_fixture_snapshot w).0.state ≡ CapFixtureRunState.passed
    → (length (d.cap_fixture_snapshot w).0.items ≡ 8)
      × All PassedItem (d.cap_fixture_snapshot w).0.items

Standing-passed :
    (state : CapFixtureRunState) → cap_standing state ≡ passed → state ≡ CapFixtureRunState.passed
Standing-passed CapFixtureRunState.passed e = refl
Standing-passed CapFixtureRunState.failed e = absurd (let bad : ended ≡ passed = e in cc)
Standing-passed CapFixtureRunState.canceled e = absurd (let bad : ended ≡ passed = e in cc)
Standing-passed CapFixtureRunState.running e = absurd (let bad : goes_on ≡ passed = e in cc)
Standing-passed CapFixtureRunState.idle e = absurd (let bad : goes_on ≡ passed = e in cc)

Standing-cases : (s : Standing) → (s ≡ passed) ⊎ ((s ≡ ended) ⊎ (s ≡ goes_on))
Standing-cases passed = inl refl
Standing-cases ended = inr (inl refl)
Standing-cases goes_on = inr (inr refl)

module _ (d : Devices) where
  unsuccessful :
      (f g : Findings) (w w' : d.World)
      → g.success ≡ false
      → ◌≡◌ {A = Option (Findings × d.World)} (some (g, w)) (some (f, w'))
      → f.success ≡ true
      → All PassedSubItem f.cap_sub_items
  unsuccessful f g w w' bad e good =
      let same : g ≡ f = cc in
      absurd (let no : false ≡ true = sym bad ∙ ap (λ x. x.success) same ∙ good in cc)

  watch_cap-All :
      (rounds : ℕ) (item : CheckItem) (w : d.World) (f : Findings) (w' : d.World)
      → IsHonest d
      → length item.cap_sub_items ≡ 8
      → watch_cap d rounds item w ≡ some (f, w')
      → f.success ≡ true
      → All PassedSubItem f.cap_sub_items
  unfolding watch_cap
  watch_cap-All zero item w f w' honest eight e good =
      absurd (let bad : none ≡ some (f, w') = e in cc)
  watch_cap-All (suc rounds) item w f w' honest eight e good =
      let w1 = (d.is_canceled w).1 in
      let fixture = (d.cap_fixture_snapshot w1).0 in
      let item' = record item { cap_sub_items = mirror_cap fixture.items item.cap_sub_items } in
      let still = length-mirror_cap fixture.items item.cap_sub_items ∙ eight in
      elim (Bool-cases (d.is_canceled w).0) [
        | inl canceled ↦ unsuccessful f _ _ w' refl (rw (canceled, watch_cap) at e) good
        | inr uncanceled ↦ elim (Standing-cases (cap_standing fixture.state)) [
          | inl s ↦
              let (count, all) = honest w1 (Standing-passed fixture.state s) in
              let same : ◌≡◌ {A = Option (Findings × d.World)}
                  (some (found item' true "8 项全部通过", _)) (some (f, w')) =
                rw (uncanceled, s, watch_cap) at e in
              let mirrored : mirror_cap fixture.items item.cap_sub_items ≡ f.cap_sub_items = cc in
              subst (λ subs. All PassedSubItem subs) mirrored
                (mirror_cap-All fixture.items item.cap_sub_items (count ∙ sym eight) all)
          | inr (inl s) ↦ unsuccessful f _ _ w' refl (rw (uncanceled, s, watch_cap) at e) good
          | inr (inr s) ↦
              watch_cap-All rounds item' _ f w' honest still (rw (uncanceled, s, watch_cap) at e)
                good
        ]
      ]

  -- With a fixture that shows PASSED only when its eight items are, a check of the CAP fixture that
  -- passes, of an item with eight sub items, leaves all of these passed.
  pub run_cap_fixture_check-All :
      (rounds : ℕ) (item : CheckItem) (w : d.World) (f : Findings) (w' : d.World)
      → IsHonest d
      → length item.cap_sub_items ≡ 8
      → run_cap_fixture_check d rounds item w ≡ some (f, w')
      → f.success ≡ true
      → All PassedSubItem f.cap_sub_items
  run_cap_fixture_check-All rounds item w = watch_cap-All rounds item (d.start_cap_fixture w)
