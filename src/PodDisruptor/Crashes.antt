-- ===== src/PodDisruptor/Crashes.antt =====
-- pkg/disruptors/pod.go: how long the loop of crashLoopPod runs, and what it comes to.
use xk6_disruptor.Prelude.{
  ℕ, zero, suc, ◌+◌, ◌*◌, ◌≤◌, ◌<◌, ◌≡◌, refl, sym, ap, ◌∙◌, ◌⊎◌, inl, inr, Bool, true, false, ◌||◌,
  Option, none, some, arith, Error, wrap, Result, ok, err, leb, ◌==◌, Bool-cases, Option-cases, ℤ,
  pos, leb_ℤ,
}
use xk6_disruptor.PodDisruptor.CrashLoop.{
  CrashLoopFault, Round, Ended, return, again, failed_round, restarted, kill_round, counted_round,
  running_round, enough, round, go_on, crash_loop,
}

-- What a round may come to: the loop returns with its crashes, or there is one failure more, of less
-- than five, or one crash more and no failure.
abbrev Fair : ℕ → ℕ → Ended → Type 0
Fair crashes failures (return c e) = c ≡ crashes
Fair crashes failures (again c f) =
    ((c ≡ crashes) × (f ≡ suc failures) × (f < 5)) ⊎ ((c ≡ suc crashes) × (f ≡ 0))

module _ (fault : CrashLoopFault) (r : Round) (crashes failures : ℕ) where
  failed_round-Fair : (e : Error) → Fair crashes failures (failed_round crashes failures e)
  unfolding failed_round
  failed_round-Fair e = elim (Bool-cases (leb 5 (suc failures))) [
    | inl full ↦ rw full refl
    | inr few ↦ rw few (inl (refl, refl, ground (arith, few)))
  ]

  restarted-Fair : (x : Result Bool) → Fair crashes failures (restarted crashes failures x)
  unfolding restarted
  restarted-Fair (err e) = failed_round-Fair (wrap "error waiting for container restart" e)
  restarted-Fair (ok true) = inr (refl, refl)
  restarted-Fair (ok false) = failed_round-Fair _

  kill_round-Fair :
      (before : ℕ) → Fair crashes failures (kill_round fault r crashes failures before)
  unfolding kill_round
  kill_round-Fair before = elim (Option-cases r.kill) [
    | inr (e, n) ↦ rw n (failed_round-Fair _)
    | inl n ↦ elim (Bool-cases (leb_ℤ r.remaining_again (pos 0))) [
      | inl over ↦ rw (n, over) refl
      | inr left ↦ rw (n, left) (restarted-Fair _)
    ]
  ]

  counted_round-Fair :
      (x : Result ℕ) → Fair crashes failures (counted_round fault r crashes failures x)
  unfolding counted_round
  counted_round-Fair (err e) = failed_round-Fair _
  counted_round-Fair (ok before) = kill_round-Fair before

  running_round-Fair :
      (x : Result Bool) → Fair crashes failures (running_round fault r crashes failures x)
  unfolding running_round
  running_round-Fair (err e) = failed_round-Fair _
  running_round-Fair (ok false) = failed_round-Fair _
  running_round-Fair (ok true) = counted_round-Fair r.restart_count

  round-Fair : Fair crashes failures (round fault r crashes failures)
  unfolding round
  round-Fair = elim (Bool-cases r.cancelled) [
    | inl a ↦ rw a refl
    | inr a ↦ elim (Bool-cases r.after_deadline) [
      | inl b ↦ rw (a, b) refl
      | inr b ↦ elim (Bool-cases (enough fault crashes)) [
        | inl c ↦ rw (a, b, c) refl
        | inr c ↦ elim (Bool-cases (leb_ℤ r.remaining (pos 0))) [
          | inl d ↦ rw (a, b, c, d) refl
          | inr d ↦ rw (a, b, c, d) (running_round-Fair _)
        ]
      ]
    ]
  ]

  -- The loop does not go on when it is cancelled, when the deadline is over, or at the count.
  round_stops :
      (r.cancelled || r.after_deadline || enough fault crashes) ≡ true
      → round fault r crashes failures ≡ return crashes none
  unfolding round
  round_stops h = ground arith

  again_below :
      (n c f : ℕ)
      → fault.count ≡ pos n
      → 0 < n
      → round fault r crashes failures ≡ again c f
      → crashes < n
  unfolding enough
  again_below n c f count some_count e = elim (Bool-cases (enough fault crashes)) [
    | inl full ↦
        let x : return crashes none ≡ again c f = sym (round_stops (ground (arith, full))) ∙ e in
        absurd (cc)
    | inr more ↦ let x = more in ground (arith, count)
  ]

module _ (fault : CrashLoopFault) (n : ℕ) (count : fault.count ≡ pos n) (positive : 0 < n) where
  Ends : ℕ → (ℕ → Round) → ℕ → ℕ → Type 0
  Ends fuel rounds crashes failures =
      (c : ℕ) × (e : Option Error) × (crash_loop fuel fault rounds crashes failures ≡ some (c, e))
      × (c ≤ n)

  step-Ends :
      (fuel : ℕ) (rounds : ℕ → Round) (crashes failures : ℕ) (x : Ended)
      → round fault (rounds 0) crashes failures ≡ x
      → Fair crashes failures x
      → failures < 5
      → 5 * crashes + failures ≤ 5 * n
      → 5 * n < suc fuel + 5 * crashes + failures
      → ((c f : ℕ)
          → f < 5
          → 5 * c + f ≤ 5 * n
          → 5 * n < fuel + 5 * c + f
          → Ends fuel (λ i. rounds (suc i)) c f)
      → Ends (suc fuel) rounds crashes failures
  unfolding Ends crash_loop go_on
  step-Ends fuel rounds crashes failures (return c e) r fair few room left rest =
      (c, e, rw r refl, omega (arith, fair))
  step-Ends fuel rounds crashes failures (again c f) r fair few room left rest =
      let below = again_below fault (rounds 0) crashes failures n c f count positive r in
      rw r (elim fair [
        | inl (same, more, few') ↦ rest c f few' (omega arith) (omega arith)
        | inr (more, none_left) ↦ rest c f (omega arith) (omega arith) (omega arith)
      ])

  loop-Ends :
      (fuel : ℕ) (rounds : ℕ → Round) (crashes failures : ℕ)
      → failures < 5
      → 5 * crashes + failures ≤ 5 * n
      → 5 * n < fuel + 5 * crashes + failures
      → Ends fuel rounds crashes failures
  loop-Ends zero rounds crashes failures few room left = absurd (omega arith)
  loop-Ends (suc fuel) rounds crashes failures few room left =
      step-Ends fuel rounds crashes failures (round fault (rounds 0) crashes failures) refl
        (round-Fair fault (rounds 0) crashes failures) few room left
        (λ c f few' room' left'. loop-Ends fuel (λ i. rounds (suc i)) c f few' room' left')

  -- With a positive count, the crash loop of a pod returns within five rounds for each crash asked
  -- for, and one more, whatever happens in the rounds, and it reports at most the count.
  pub crash_loop_ends :
      (rounds : ℕ → Round)
      → (c : ℕ) × (e : Option Error) × (crash_loop (5 * n + 1) fault rounds 0 0 ≡ some (c, e))
        × (c ≤ n)
  unfolding Ends
  crash_loop_ends rounds =
      loop-Ends (5 * n + 1) rounds 0 0 (omega arith) (omega arith) (omega arith)

-- The loop returns at the latest in the first round that finds the context cancelled or the deadline over,
-- whatever the count is.
pub crash_loop_stops :
    (fault : CrashLoopFault) (k : ℕ) (rounds : ℕ → Round) (crashes failures : ℕ)
    → ((rounds k).cancelled || (rounds k).after_deadline) ≡ true
    → (r : ℕ × Option Error) × (crash_loop (suc k) fault rounds crashes failures ≡ some r)
unfolding crash_loop go_on
crash_loop_stops fault zero rounds crashes failures h =
    ((crashes, none), rw (round_stops fault (rounds 0) crashes failures (ground (arith, h))) refl)
crash_loop_stops fault (suc k) rounds crashes failures h =
    stops_after (round fault (rounds 0) crashes failures)
      (λ c f. crash_loop_stops fault k (λ i. rounds (suc i)) c f h)
  where
    stops_after :
        (x : Ended)
        → ((c f : ℕ)
            → (r : ℕ × Option Error) × (crash_loop (suc k) fault (λ i. rounds (suc i)) c f
                ≡ some r))
        → (r : ℕ × Option Error) × (go_on (crash_loop (suc k) fault (λ i. rounds (suc i))) x
            ≡ some r)
    stops_after (return c e) rest = ((c, e), refl)
    stops_after (again c f) rest = rest c f

-- Every call of the round succeeds, and the container restarts.
pub record IsHealthy (r : Round) : Type 0 where
  pub runs : r.cancelled ≡ false
  pub early : r.after_deadline ≡ false
  pub time : leb_ℤ r.remaining (pos 0) ≡ false
  pub up : (t : ℤ) → r.wait_running t ≡ ok true
  pub counted : (n : ℕ) × (r.restart_count ≡ ok n)
  pub killed : r.kill ≡ none
  pub time_again : leb_ℤ r.remaining_again (pos 0) ≡ false
  pub up_again : (n : ℕ) (t : ℤ) → r.wait_restart n t ≡ ok true

healthy_round :
    (fault : CrashLoopFault) (r : Round) (crashes : ℕ)
    → IsHealthy r
    → enough fault crashes ≡ false
    → round fault r crashes 0 ≡ again (suc crashes) 0
unfolding round running_round counted_round kill_round restarted
healthy_round fault r crashes h more =
    let (n, counted) = h.counted in
    rw (h.runs, h.early, more, h.time, h.up, counted, h.killed, h.time_again, h.up_again) refl

enough_at :
    (fault : CrashLoopFault) (n crashes : ℕ)
    → fault.count ≡ pos (n + crashes)
    → 0 < n + crashes
    → enough fault crashes ≡ (n == 0)
unfolding enough
enough_at fault n crashes count positive = rw count (ground arith)

-- When every call of every round succeeds and the container restarts each time, the crash loop
-- returns with no error after exactly the crashes that the count asks for, those made before
-- included.
pub crash_loop_exact :
    (fault : CrashLoopFault) (rounds : ℕ → Round) (n crashes : ℕ)
    → fault.count ≡ pos (n + crashes)
    → 0 < n + crashes
    → ((i : ℕ) → IsHealthy (rounds i))
    → crash_loop (suc n) fault rounds crashes 0 ≡ some (n + crashes, none)
unfolding crash_loop go_on
crash_loop_exact fault rounds zero crashes count positive healthy =
    let full : enough fault crashes ≡ true = enough_at fault 0 crashes count positive ∙ refl in
    rw (round_stops fault (rounds 0) crashes 0 (ground (arith, full)))
      (ap (λ (m : ℕ). some (m, none)) (omega arith))
crash_loop_exact fault rounds (suc n) crashes count positive healthy =
    let more : enough fault crashes ≡ false =
      enough_at fault (suc n) crashes count positive ∙ ground arith in
    rw (healthy_round fault (rounds 0) crashes (healthy 0) more) (
      crash_loop_exact fault (λ i. rounds (suc i)) n (suc crashes) (count ∙ ap pos (omega arith))
        (omega arith) (λ i. healthy (suc i))
      ∙ ap (λ (m : ℕ). some (m, none)) (omega arith))
