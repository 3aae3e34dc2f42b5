-- ===== src/Thread/Fairness.antt =====
-- Round-robin fairness of thread.rs: yields bring every ready thread to the CPU.
use sysrust.Common.{ℕ, ◌-◌, ◌≤◌, ◌<◌, ◌≡◌, ◌≢◌, ◌⊎◌, inl, inr, List, [], ◌∷◌, arith, length, ◌∙◌}
use native.Mathlib.Decide.{ℕ_discrete}
use sysrust.Thread.{ThreadState, Sched, max_threads, pick, switch_to, schedule, yield_thread}
use sysrust.Thread.Round.{pick_stays, pick-IsNext, IsNext, gap, ahead}
use sysrust.Thread.Running.{IsScheduled, yield_thread-IsScheduled}

-- RFLAGS and the stack pointer at each of a sequence of yields.
abbrev pub Yields : Type 0
Yields = List (ℕ × ℕ)

-- Some yield of the sequence makes `slot` the current one.
abbrev pub RunsWithin : (slot : ℕ) → Yields → Sched → Type 0
RunsWithin slot [] s = ⊥
RunsWithin slot ((flags, sp) ∷ more) s =
    let s' = (yield_thread flags sp s).0 in (s'.current ≡ slot) ⊎ RunsWithin slot more s'

-- The slot that waits is ready and not the current one.
record IsWaiting (slot : ℕ) (s : Sched) : Type 0 where
  bound : slot < max_threads
  waits : (s.threads slot).state ≡ ThreadState.ready

yield-current :
    (flags sp : ℕ) (s : Sched) → (yield_thread flags sp s).0.current ≡ pick s.threads s.current
unfolding yield_thread schedule
yield-current flags sp s = ground arith

-- Moving on by no more than the gap, and not onto the slot, narrows the gap.
gap_narrows :
    (old slot k : ℕ)
    → old < max_threads
    → slot < max_threads
    → 1 ≤ k
    → k ≤ gap old slot
    → ahead old k ≢ slot
    → gap (ahead old k) slot < gap old slot
gap_narrows old slot k a b c d e = omega arith

-- The scan goes no further than the waiting slot.
scan_stops :
    (slot k : ℕ) (s : Sched)
    → IsScheduled s
    → IsWaiting slot s
    → IsNext s.threads s.current (pick s.threads s.current) k
    → k ≤ gap s.current slot
scan_stops slot k s v w n =
    let there : ahead s.current (gap s.current slot) ≡ slot = omega (arith, v.in_range, w.bound) in
    let apart : slot ≢ s.current = λ e. ground arith in
    ground (arith, n.none_before (gap s.current slot))

-- A yield that does not run the waiting slot brings it nearer.
yield_nearer :
    (flags sp slot : ℕ) (s : Sched)
    → IsScheduled s
    → IsWaiting slot s
    → pick s.threads s.current ≢ slot
    → IsWaiting slot (yield_thread flags sp s).0
      × (gap (pick s.threads s.current) slot < gap s.current slot)
unfolding yield_thread schedule switch_to
yield_nearer flags sp slot s v w ne =
    let leaves : pick s.threads s.current ≢ s.current =
      λ e. ground (arith, pick_stays s.threads s.current v.in_range e slot w.bound) in
    let (k, n) = pick-IsNext s.threads s.current v.in_range leaves in
    let less : gap (ahead s.current k) slot < gap s.current slot =
      gap_narrows s.current slot k v.in_range w.bound n.positive (scan_stops slot k s v w n)
        (λ e. ne (n.place ∙ e)) in
    (record { bound = w.bound; waits = ground arith }, rw n.place less)

waits_no_longer :
    (slot : ℕ) (ys : Yields) (s : Sched)
    → IsScheduled s
    → IsWaiting slot s
    → gap s.current slot ≤ length ys
    → RunsWithin slot ys s
waits_no_longer slot [] s v w d = absurd (ground arith)
waits_no_longer slot ((flags, sp) ∷ ys) s v w d =
    elim (ℕ_discrete (pick s.threads s.current) slot) [
      | yes e ↦ inl (yield-current flags sp s ∙ e)
      | no ne ↦
          let (w', less) = yield_nearer flags sp slot s v w ne in
          inr (
            waits_no_longer slot ys (yield_thread flags sp s).0
              (yield_thread-IsScheduled flags sp s v) w' (rw yield-current (omega (arith, less))))
    ]

-- From a state in which the current slot, and it alone, is running, a ready thread becomes the
-- current one at some call of any sequence of 31 or more calls of yield_thread with nothing
-- between them.
pub yield_fair :
    (slot : ℕ) (ys : Yields) (s : Sched)
    → IsScheduled s
    → slot < max_threads
    → (s.threads slot).state ≡ ThreadState.ready
    → max_threads - 1 ≤ length ys
    → RunsWithin slot ys s
yield_fair slot ys s v a r d =
    waits_no_longer slot ys s v (record { bound = a; waits = r }) (omega (arith, v.in_range))
