-- ===== src/IrFixture/Heard.antt =====
-- src/model/ir_fixture_test_model.cpp: how the loop over the replies ends.
use factory_test.Common.{
  ◌&&◌, ltb, Bool-cases, inl, inr, ℕ, zero, suc, ◌+◌, String, List, [], ◌∷◌, Option, none, some,
  if◌then◌else◌, ◌≡◌, ◌≢◌, refl, ap, subst, arith,
}
use factory_test.Nec.Receiving.{IrReceiveSnapshot}
use factory_test.IrFixture.Types.{IrFixtureSnapshot, IrRig, k_rx_packet_count}
use factory_test.IrFixture.Steps.{rx_item, Model, fail}
use factory_test.IrFixture.Model.{poll_pause, receive, Received, ended, heard}
use factory_test.IrFixture.Judging.{Verified, passed_over, verified, judge-cases}
use factory_test.IrFixture.Calls.{Calls, no_calls, polls, loads, reads_clock, poll_pause-Calls}

module _ (r : IrRig) where
  -- What the loop has heard when it ends with a number of replies.
  unfoldable pub Heard : ℕ → r.World → ℕ → r.World → Type 0
  Heard count w n v = (log : List IrReceiveSnapshot) × Calls r log w v × Verified count log n

  still :
      (count n : ℕ) (w v : r.World) (snapshot : IrFixtureSnapshot) (m' : Model r)
      → Calls r [] w v
      → ◌≡◌ {A = Option (Received r)} (some (heard count (snapshot, v))) (some (heard n m'))
      → Heard count w n m'.1
  unfolding Heard
  still count n w v snapshot m' calls h =
      let same : count ≡ n = cc in
      let model : (snapshot, v) ≡ m' = cc in
      (
        [],
        subst (λ x. Calls r [] w x) (ap (λ x. x.1) model) calls,
        (0, omega (arith, same), refl, tt),
      )

  -- A poll that is followed by the rest of the loop.
  after_poll :
      (count next n : ℕ) (w w1 v : r.World) (received : IrReceiveSnapshot)
      → ((log : List IrReceiveSnapshot) → Calls r log w1 v → Calls r (received ∷ log) w v)
      → ((log : List IrReceiveSnapshot) → Verified next log n → Verified count (received ∷ log) n)
      → Heard next w1 n v
      → Heard count w n v
  unfolding Heard
  after_poll count next n w w1 v received before judged (log, calls, right) =
      (received ∷ log, before log calls, judged log right)

  -- The pause after a reply that is counted, and the rounds after it.
  paused-Heard :
      (rounds deadline count : ℕ) (snapshot : IrFixtureSnapshot) (w : r.World) (n : ℕ)
      (m' : Model r)
      → ((w' : r.World)
          → receive r rounds deadline count (snapshot, w') ≡ some (heard n m')
          → Heard count w' n m'.1)
      → (let (waited, w') = poll_pause r count w in
          if waited
          then receive r rounds deadline count (snapshot, w')
          else some (heard count (snapshot, w')))
        ≡ some (heard n m')
      → Heard count w n m'.1
  unfolding Heard
  paused-Heard rounds deadline count snapshot w n m' later h =
      elim (Bool-cases (poll_pause r count w).0) [
        | inl e ↦
            let (log, calls, right) = later (poll_pause r count w).1 (rw e at h) in
            (log, poll_pause-Calls r count w m'.1 calls, right)
        | inr e ↦
            still count n w (poll_pause r count w).1 snapshot m'
              (poll_pause-Calls r count w _ no_calls) (rw e at h)
      ]

  pub receive-Heard :
      (rounds deadline count : ℕ) (m : Model r) (n : ℕ) (m' : Model r)
      → receive r rounds deadline count m ≡ some (heard n m')
      → Heard count m.1 n m'.1
  unfolding receive
  receive-Heard zero deadline count m n m' h = absurd (let bad : none ≡ some _ = h in cc)
  receive-Heard (suc rounds) deadline count (snapshot, w) n m' h =
      elim (Bool-cases (r.is_canceled w).0) [
        | inl canceled ↦
            still count n w _ snapshot m' (loads no_calls) (rw (canceled, receive) at h)
        | inr uncanceled ↦
            let w2 = (r.now (r.is_canceled w).1).1 in
            let received = (r.poll w2).0 in
            let before : (log : List IrReceiveSnapshot)
                → Calls r log (r.poll w2).1 m'.1
                → Calls r (received ∷ log) w m'.1 =
              λ log calls. loads (reads_clock (polls calls)) in
            elim (Bool-cases
              (ltb (r.now (r.is_canceled w).1).0 deadline && ltb count k_rx_packet_count)) [
                | inr over ↦
                    still count n w w2 snapshot m' (loads (reads_clock no_calls))
                      (rw (uncanceled, over, receive) at h)
                | inl goes_on ↦ elim (judge-cases r received count (snapshot, (r.poll w2).1)) [
                  | inl (e, other) ↦
                      after_poll count count n w _ m'.1 received before
                        (λ log. passed_over count n received log other)
                        (paused-Heard rounds deadline count snapshot _ n m'
                          (λ w'. receive-Heard rounds deadline count (snapshot, w') n m')
                          (rw (uncanceled, goes_on, e, receive) at h))
                  | inr (inl (snapshot', e, reply, command, protocol)) ↦
                      after_poll count (count + 1) n w _ m'.1 received before
                        (λ log. verified count n received log reply command protocol)
                        (paused-Heard rounds deadline (count + 1) snapshot' _ n m'
                          (λ w'. receive-Heard rounds deadline (count + 1) (snapshot', w') n m')
                          (rw (uncanceled, goes_on, e, receive) at h))
                  | inr (inr (message, e)) ↦ absurd (
                      let bad : ◌≡◌ {A = Option (Received r)} (some (ended _)) (some (heard n m')) =
                        rw (uncanceled, goes_on, e, receive) at h in
                      cc)
                ]
              ]
      ]

  -- A loop that ends the run has failed the receiver.
  unfoldable pub IsFailed : Model r → Type 0
  IsFailed m' = (message : String) × (m : Model r) × (fail r rx_item message m ≡ m')

  unended :
      (count : ℕ) (m m' : Model r)
      → ◌≢◌ {A = Option (Received r)} (some (heard count m)) (some (ended m'))
  unended count m m' h = cc

  ended_injective :
      (m m' : Model r) → ◌≡◌ {A = Option (Received r)} (some (ended m)) (some (ended m')) → m ≡ m'
  ended_injective m m' h = cc

  paused-IsFailed :
      (rounds deadline count : ℕ) (snapshot : IrFixtureSnapshot) (w : r.World) (m' : Model r)
      → ((w' : r.World)
          → receive r rounds deadline count (snapshot, w') ≡ some (ended m')
          → IsFailed m')
      → (let (waited, w') = poll_pause r count w in
          if waited
          then receive r rounds deadline count (snapshot, w')
          else some (heard count (snapshot, w')))
        ≡ some (ended m')
      → IsFailed m'
  paused-IsFailed rounds deadline count snapshot w m' later h =
      elim (Bool-cases (poll_pause r count w).0) [
        | inl e ↦ later (poll_pause r count w).1 (rw e at h)
        | inr e ↦ absurd (unended _ _ m' (rw e at h))
      ]

  pub receive-IsFailed :
      (rounds deadline count : ℕ) (m m' : Model r)
      → receive r rounds deadline count m ≡ some (ended m')
      → IsFailed m'
  unfolding receive IsFailed
  receive-IsFailed zero deadline count m m' h = absurd (let bad : none ≡ some _ = h in cc)
  receive-IsFailed (suc rounds) deadline count (snapshot, w) m' h =
      elim (Bool-cases (r.is_canceled w).0) [
        | inl canceled ↦ absurd (unended _ _ m' (rw (canceled, receive) at h))
        | inr uncanceled ↦
            let w2 = (r.now (r.is_canceled w).1).1 in
            let received = (r.poll w2).0 in
            elim (Bool-cases
              (ltb (r.now (r.is_canceled w).1).0 deadline && ltb count k_rx_packet_count)) [
                | inr over ↦ absurd (unended _ _ m' (rw (uncanceled, over, receive) at h))
                | inl goes_on ↦ elim (judge-cases r received count (snapshot, (r.poll w2).1)) [
                  | inl (e, other) ↦
                      paused-IsFailed rounds deadline count snapshot _ m'
                        (λ w'. receive-IsFailed rounds deadline count (snapshot, w') m')
                        (rw (uncanceled, goes_on, e, receive) at h)
                  | inr (inl (snapshot', e, _, _, _)) ↦
                      paused-IsFailed rounds deadline (count + 1) snapshot' _ m'
                        (λ w'. receive-IsFailed rounds deadline (count + 1) (snapshot', w') m')
                        (rw (uncanceled, goes_on, e, receive) at h)
                  | inr (inr (message, e)) ↦
                      (message, _, ended_injective _ m' (rw (uncanceled, goes_on, e, receive) at h))
                ]
              ]
      ]
