-- ===== src/Precheck/Counts.antt =====
-- The counters of a run and the states of its items.
use factory_test.Common.{
  Bool, true, false, ℕ, suc, ◌+◌, ◌<◌, List, [], ◌∷◌, length, ◌≡◌, refl, Bool-cases, inl, inr,
  if◌then◌else◌, arith,
}
use factory_test.Session.Types.{size_mod}
use factory_test.Precheck.{
  CheckState, CheckItem, Findings, Bench, Counters, is_pending, is_failed, Round, round,
  check_round, checked_item, counted, run_items,
}

abbrev pub is_passed : CheckState → Bool
is_passed CheckState.passed = true
is_passed _ = false

abbrev pub is_skipped : CheckState → Bool
is_skipped CheckState.skipped = true
is_skipped _ = false

abbrev pub one_in : (CheckState → Bool) → CheckState → ℕ
one_in p s = if p s then 1 else 0

abbrev pub one : (CheckState → Bool) → CheckItem → ℕ
one p item = one_in p item.state

-- How many items have a state.
unfoldable pub tally : (CheckState → Bool) → List CheckItem → ℕ
tally p [] = 0
tally p (item ∷ items) = one p item + tally p items

-- How many items are passed, failed or skipped.
abbrev pub finished : List CheckItem → ℕ
finished items = tally is_passed items + (tally is_failed items + tally is_skipped items)

-- From one list and its counters to another, the counters change as the states do.
pub record Balanced (items : List CheckItem) (c : Counters) (items' : List CheckItem)
    (c' : Counters) : Type 0 where
  pub passed : c'.passed + tally is_passed items ≡ c.passed + tally is_passed items'
  pub failed : c'.failed + tally is_failed items ≡ c.failed + tally is_failed items'
  pub completed : c'.completed + finished items ≡ c.completed + finished items'

-- There is room for a number of increments.
abbrev pub Fits : Counters → ℕ → Type 0
Fits c n = (c.completed + n < size_mod) × (c.passed + n < size_mod) × (c.failed + n < size_mod)

pending-tally :
    (item : CheckItem)
    → is_pending item.state ≡ true
    → (one is_passed item ≡ 0) × (one is_failed item ≡ 0) × (one is_skipped item ≡ 0)
pending-tally item e = go item.state e
  where
    go :
        (s : CheckState)
        → is_pending s ≡ true
        → (one_in is_passed s ≡ 0) × (one_in is_failed s ≡ 0) × (one_in is_skipped s ≡ 0)
    go CheckState.pending e = (refl, refl, refl)
    go CheckState.running e = (refl, refl, refl)
    go CheckState.passed e = absurd (cc)
    go CheckState.failed e = absurd (cc)
    go CheckState.canceled e = (refl, refl, refl)
    go CheckState.skipped e = absurd (cc)

module _ (b : Bench) where
  open b use {World}

  -- One round: the counters of one item.
  record RoundBalanced (item : CheckItem) (c : Counters) (r : Round b) : Type 0 where
    passed : r.counters.passed + one is_passed item ≡ c.passed + one is_passed r.item
    failed : r.counters.failed + one is_failed item ≡ c.failed + one is_failed r.item
    skipped : one is_skipped r.item ≡ one is_skipped item
    completed :
        r.counters.completed + (one is_passed item + one is_failed item)
        ≡ c.completed + (one is_passed r.item + one is_failed r.item)
    small : (n : ℕ) → Fits c (suc n) → Fits r.counters n

  checked-Balanced :
      (i : ℕ) (item : CheckItem) (f : Findings) (c : Counters) (w : World)
      → is_pending item.state ≡ true
      → Fits c 1
      → RoundBalanced item c (record {
        stops = false;
        item = checked_item b item f;
        counters = counted b f.success (record c { current_index = i });
        world = w;
      })
  checked-Balanced i item f c w p (x, y, z) = elim (Bool-cases f.success) [
    | inl e ↦ simp e (record {
      passed = ground (arith, pending-tally item p);
      failed = ground (arith, pending-tally item p);
      skipped = ground (arith, pending-tally item p);
      completed = ground (arith, pending-tally item p);
      small = λ n (x, y, z). (omega arith, omega arith, omega arith);
    })
    | inr e ↦ simp e (record {
      passed = ground (arith, pending-tally item p);
      failed = ground (arith, pending-tally item p);
      skipped = ground (arith, pending-tally item p);
      completed = ground (arith, pending-tally item p);
      small = λ n (x, y, z). (omega arith, omega arith, omega arith);
    })
  ]

  round-Balanced :
      (i : ℕ) (item : CheckItem) (c : Counters) (w : World)
      → Fits c 1
      → RoundBalanced item c (round b i item c w)
  round-Balanced i item c w fits = elim (Bool-cases (b.is_canceled w).0) [
    | inl stop ↦ simp stop (unchanged true (b.is_canceled w).1)
    | inr go ↦ elim (Bool-cases (is_pending item.state)) [
      | inr other ↦ simp (go, other) (unchanged false (b.is_canceled w).1)
      | inl p ↦ simp (go, p) (checked p (b.is_canceled w).1)
    ]
  ]
    where
      unchanged :
          (stops : Bool) (v : World)
          → RoundBalanced item c (record { stops = stops; item = item; counters = c; world = v })
      unchanged stops v = record {
        passed = refl;
        failed = refl;
        skipped = refl;
        completed = refl;
        small = λ n (x, y, z). (omega arith, omega arith, omega arith);
      }

      checked :
          is_pending item.state ≡ true
          → (v : World) → RoundBalanced item c (check_round b i item c v)
      checked p v =
          let found =
            b.run_check i (record item { state = CheckState.running; detail = "检测中" }) v in
          elim (Bool-cases (b.is_canceled found.1).0) [
            | inl stop ↦ simp stop (record {
              passed = ground (arith, pending-tally item p);
              failed = ground (arith, pending-tally item p);
              skipped = ground (arith, pending-tally item p);
              completed = ground (arith, pending-tally item p);
              small = λ n (x, y, z). (omega arith, omega arith, omega arith);
            })
            | inr go ↦ simp go (checked-Balanced i item found.0 c (b.is_canceled found.1).1 p fits)
          ]

  -- The loop of run_ changes the counters as it changes the states of the items.
  pub run_items-Balanced :
      (i : ℕ) (items : List CheckItem) (c : Counters) (w : World)
      → Fits c (length items)
      → Balanced items c (run_items b i items c w).items (run_items b i items c w).counters
  unfolding run_items tally
  run_items-Balanced i [] c w fits = record { passed = refl; failed = refl; completed = refl }
  run_items-Balanced i (item ∷ items) c w (x, y, z) =
      let r = round b i item c w in
      let head = round-Balanced i item c w (omega arith, omega arith, omega arith) in
      let tail =
        run_items-Balanced (suc i) items r.counters r.world (head.small (length items) (x, y, z)) in
      elim (Bool-cases r.stops) [
        | inl stop ↦ simp stop (record {
          passed = omega (arith, head.passed);
          failed = omega (arith, head.failed);
          completed = omega (arith, head.completed, head.skipped);
        })
        | inr go ↦ simp go (record {
          passed = omega (arith, head.passed, tail.passed);
          failed = omega (arith, head.failed, tail.failed);
          completed = omega (arith, head.completed, head.skipped, tail.completed);
        })
      ]
