-- ===== src/Precheck/Prepared.antt =====
-- What start and retry_failed set up: the items and the counters before the worker runs.
use factory_test.Common.{
  Bool, true, false, ℕ, zero, suc, ◌+◌, ◌≤◌, ◌<◌, List, [], ◌∷◌, length, ◌≡◌, refl, sym, ◌∙◌, ap,
  Bool-cases, inl, inr, arith,
}
use factory_test.Session.Types.{size_mod}
use factory_test.Precheck.{
  CheckState, CheckItem, Snapshot, is_failed, decrement, prepared, retry_items, retry_prepared,
  skip_item, change_at, skip_unsupported, camera_item, imu_item,
}
use factory_test.Precheck.Counts.{is_passed, is_skipped, one, one_in, tally, finished}

-- retry_failed puts back what failed: nothing is failed then, and the counters are so much less.
pub record Retried (items : List CheckItem) (done fails : ℕ) (r : List CheckItem × (ℕ × ℕ))
    : Type 0 where
  pub completed : r.1.0 + tally is_failed items ≡ done
  pub failed : r.1.1 + tally is_failed items ≡ fails
  pub none_failed : tally is_failed r.0 ≡ 0
  pub same_passed : tally is_passed r.0 ≡ tally is_passed items
  pub same_skipped : tally is_skipped r.0 ≡ tally is_skipped items
  pub same_length : length r.0 ≡ length items

failed-tally :
    (s : CheckState)
    → is_failed s ≡ true
    → (one_in is_failed s ≡ 1) × (one_in is_passed s ≡ 0) × (one_in is_skipped s ≡ 0)
failed-tally CheckState.pending e = absurd (cc)
failed-tally CheckState.running e = absurd (cc)
failed-tally CheckState.passed e = absurd (cc)
failed-tally CheckState.failed e = (refl, refl, refl)
failed-tally CheckState.canceled e = absurd (cc)
failed-tally CheckState.skipped e = absurd (cc)

pub retry_items-Retried :
    (items : List CheckItem) (done fails : ℕ)
    → tally is_failed items ≤ done
    → tally is_failed items ≤ fails
    → done < size_mod
    → fails < size_mod
    → Retried items done fails (retry_items items done fails)
unfolding retry_items tally
retry_items-Retried [] done fails a b c d = record {
  completed = omega arith;
  failed = omega arith;
  none_failed = refl;
  same_passed = refl;
  same_skipped = refl;
  same_length = refl;
}
retry_items-Retried (x ∷ items) done fails a b c d = elim (Bool-cases (is_failed x.state)) [
  | inl e ↦
      let (one_failed, none_passed, none_skipped) = failed-tally x.state e in
      let rest =
        retry_items-Retried items (decrement done) (decrement fails) (omega arith) (omega arith)
          (omega arith) (omega arith) in
      simp e (record {
        completed = omega (arith, rest.completed);
        failed = omega (arith, rest.failed);
        none_failed = omega (arith, rest.none_failed);
        same_passed = omega (arith, rest.same_passed);
        same_skipped = omega (arith, rest.same_skipped);
        same_length = ap suc rest.same_length;
      })
  | inr e ↦
      let not_failed : one_in is_failed x.state ≡ 0 = simp e in
      let rest = retry_items-Retried items done fails (omega arith) (omega arith) c d in
      simp e (record {
        completed = omega (arith, rest.completed);
        failed = omega (arith, rest.failed);
        none_failed = omega (arith, rest.none_failed);
        same_passed = omega (arith, rest.same_passed);
        same_skipped = omega (arith, rest.same_skipped);
        same_length = ap suc rest.same_length;
      })
]

-- The counters of a snapshot count the states of its items; `extra` is what `completed` is too large by.
pub record IsCounted (extra : ℕ) (s : Snapshot) : Type 0 where
  pub passed : s.passed ≡ tally is_passed s.items
  pub failed : s.failed ≡ tally is_failed s.items
  pub completed : s.completed ≡ finished s.items + extra

-- There is room for another run.
abbrev pub HasRoom : Snapshot → Type 0
HasRoom s = (s.completed + (length s.items + 2) < size_mod)

pub length-change_at :
    (i : ℕ) (f : CheckItem → CheckItem) (items : List CheckItem)
    → length (change_at i f items) ≡ length items
unfolding change_at
length-change_at i f [] = refl
length-change_at zero f (x ∷ items) = refl
length-change_at (suc i) f (x ∷ items) = ap suc (length-change_at i f items)

-- The item at an index, if there is one, is skipped.
abbrev pub SkippedAt : ℕ → List CheckItem → Type 0
SkippedAt i [] = Unit
SkippedAt zero (x ∷ items) = x.state ≡ CheckState.skipped
SkippedAt (suc i) (x ∷ items) = SkippedAt i items

pub SkippedAt-change_at :
    (j i : ℕ) (items : List CheckItem)
    → SkippedAt j items
    → SkippedAt j (change_at i skip_item items)
unfolding change_at
SkippedAt-change_at j i [] h = tt
SkippedAt-change_at zero zero (x ∷ items) h = refl
SkippedAt-change_at zero (suc i) (x ∷ items) h = h
SkippedAt-change_at (suc j) zero (x ∷ items) h = h
SkippedAt-change_at (suc j) (suc i) (x ∷ items) h = SkippedAt-change_at j i items h

-- Skipping an item that is skipped changes no count.
tally-change_at :
    (p : CheckState → Bool) (i : ℕ) (items : List CheckItem)
    → SkippedAt i items
    → tally p (change_at i skip_item items) ≡ tally p items
unfolding change_at tally
tally-change_at p i [] h = refl
tally-change_at p zero (x ∷ items) h = ap (λ s. one_in p s + tally p items) (sym h)
tally-change_at p (suc i) (x ∷ items) h = ap (λ n. one p x + n) (tally-change_at p i items h)

tally-skip_unsupported :
    (p : CheckState → Bool) (s : Snapshot)
    → SkippedAt camera_item s.items
    → SkippedAt imu_item s.items
    → tally p (skip_unsupported s).items ≡ tally p s.items
unfolding skip_unsupported
tally-skip_unsupported p s a b =
    tally-change_at p imu_item (change_at camera_item skip_item s.items)
      (SkippedAt-change_at imu_item camera_item s.items b)
    ∙ tally-change_at p camera_item s.items a

-- A Lite model counts the two items that it skips once more, each time that it runs.
pub skip_unsupported-IsCounted :
    (extra : ℕ) (s : Snapshot)
    → IsCounted extra s
    → HasRoom s
    → SkippedAt camera_item s.items
    → SkippedAt imu_item s.items
    → IsCounted (extra + 2) (skip_unsupported s)
unfolding skip_unsupported
skip_unsupported-IsCounted extra s c room a b = record {
  passed = c.passed ∙ sym (tally-skip_unsupported is_passed s a b);
  failed = c.failed ∙ sym (tally-skip_unsupported is_failed s a b);
  completed = omega (
    arith,
    c.completed,
    tally-skip_unsupported is_passed s a b,
    tally-skip_unsupported is_failed s a b,
    tally-skip_unsupported is_skipped s a b,
  );
}

-- A fresh snapshot is counted, with the two items skipped or not.
pub prepared-IsCounted : (s : Snapshot) → IsCounted 0 (prepared s)
unfolding prepared tally
prepared-IsCounted s = record { passed = refl; failed = refl; completed = refl }

pub skip_prepared-IsCounted : (s : Snapshot) → IsCounted 0 (skip_unsupported (prepared s))
unfolding prepared tally skip_unsupported change_at
skip_prepared-IsCounted s = record { passed = refl; failed = refl; completed = refl }

-- A retry leaves skipped items alone.
SkippedAt-retry_items :
    (i : ℕ) (items : List CheckItem) (done fails : ℕ)
    → SkippedAt i items
    → SkippedAt i (retry_items items done fails).0
unfolding retry_items
SkippedAt-retry_items i [] done fails h = tt
SkippedAt-retry_items zero (x ∷ items) done fails h =
    let not_failed : is_failed x.state ≡ false = ap is_failed h in simp not_failed h
SkippedAt-retry_items (suc i) (x ∷ items) done fails h = SkippedAt-retry_items i items _ _ h

pub retry_prepared-SkippedAt :
    (i : ℕ) (s : Snapshot) → SkippedAt i s.items → SkippedAt i (retry_prepared s).items
unfolding retry_prepared
retry_prepared-SkippedAt i s h = SkippedAt-retry_items i s.items s.completed s.failed h

pub skip_unsupported_room :
    (s : Snapshot)
    → HasRoom s
    → (skip_unsupported s).completed + length (skip_unsupported s).items < size_mod
unfolding skip_unsupported
skip_unsupported_room s room = omega (
  arith,
  room,
  length-change_at imu_item skip_item (change_at camera_item skip_item s.items),
  length-change_at camera_item skip_item s.items,
)
