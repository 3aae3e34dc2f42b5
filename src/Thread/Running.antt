-- ===== src/Thread/Running.antt =====
-- The invariant of the scheduler of thread.rs: the current slot, and it alone, is running.
use sysrust.Common.{
  ℕ, refl, ◌<◌, ◌≡◌, ◌≢◌, arith, Table, for_range_inv, find_from-some, find_from, for_range, store,
  Option-cases, inl, inr,
}
use sysrust.Thread.{
  ThreadState, Thread, Sched, is_dead, max_threads, pick, switch_to, schedule, yield_thread, create,
  create_in, free_slot, init, exit, bury,
}
use sysrust.Thread.Round.{pick_stays, pick-lt}

pub record IsScheduled (s : Sched) : Type 0 where
  pub in_range : s.current < max_threads
  pub runs : (s.threads s.current).state ≡ ThreadState.running
  pub alone : (j : ℕ) → j < max_threads → (s.threads j).state ≡ ThreadState.running → j ≡ s.current

pub schedule-IsScheduled : (sp : ℕ) (s : Sched) → IsScheduled s → IsScheduled (schedule sp s).0
unfolding schedule switch_to
schedule-IsScheduled sp s v = record {
  in_range = ground (arith, pick-lt s.threads s.current);
  runs = ground arith;
  alone = λ j a r. ground (arith, v.alone j);
}

pub create-IsScheduled :
    (stack entry exit_addr : ℕ) (s : Sched)
    → IsScheduled s
    → IsScheduled (create stack entry exit_addr s).0
unfolding create create_in free_slot
create-IsScheduled stack entry exit_addr s v =
    elim (Option-cases (find_from (λ i. is_dead (s.threads i).state) max_threads 0)) [
      | inl e ↦ rw (create, free_slot, e) v
      | inr (i, e) ↦
          let f = find_from-some (λ i. is_dead (s.threads i).state) max_threads 0 i e in
          rw (create, free_slot, e)
            (record {
              in_range = ground arith;
              runs = ground arith;
              alone = λ j a r. ground (arith, v.alone j);
            })
    ]

abbrev kill : ℕ → Table Thread → Table Thread
kill i t = store t i (record (t i) { state = ThreadState.dead })

init-states :
    (t : Table Thread) (j : ℕ)
    → j < max_threads
    → (for_range kill max_threads 0 t j).state ≡ ThreadState.dead
init-states t j a =
    for_range_inv kill (λ i (u : Table Thread). (k : ℕ) → k < i → (u k).state ≡ ThreadState.dead)
      max_threads 0 max_threads (omega arith) t (λ k b. absurd (omega arith))
      (λ i u h k b. ground (arith, h k)) j a

pub init-IsScheduled : (s : Sched) → IsScheduled (init s)
unfolding init
init-IsScheduled s = record {
  in_range = omega arith;
  runs = refl;
  alone = λ j a r. ground (arith, init-states s.threads j);
}

-- A switch away from a slot, whatever the state of that slot, when no other slot runs.
schedule_leaves :
    (sp : ℕ) (s : Sched)
    → s.current < max_threads
    → pick s.threads s.current ≢ s.current
    → ((j : ℕ) → j < max_threads → (s.threads j).state ≡ ThreadState.running → j ≡ s.current)
    → IsScheduled (schedule sp s).0
unfolding schedule switch_to
schedule_leaves sp s a ne alone = record {
  in_range = ground (arith, pick-lt s.threads s.current);
  runs = ground arith;
  alone = λ j b r. ground (arith, alone j);
}

pub yield_thread-IsScheduled :
    (flags sp : ℕ) (s : Sched) → IsScheduled s → IsScheduled (yield_thread flags sp s).0
unfolding yield_thread
yield_thread-IsScheduled flags sp s v = schedule-IsScheduled sp s v

-- The facts of `bury` that `schedule` reads.
pub bury-pick :
    (s : Sched) (j : ℕ)
    → IsScheduled s
    → j < max_threads
    → (s.threads j).state ≡ ThreadState.ready
    → pick (bury s).threads s.current ≢ s.current
unfolding bury
bury-pick s j v a r e = ground (arith, pick_stays (bury s).threads s.current v.in_range e j a)

pub bury-current : (s : Sched) → (bury s).current ≡ s.current
unfolding bury
bury-current s = ground arith

-- From a state in which the current slot, and it alone, is running, and in which some thread is
-- ready, exit leaves a state in which again the current slot, and it alone, is running.
pub exit-IsScheduled :
    (sp : ℕ) (s : Sched) (j : ℕ)
    → IsScheduled s
    → j < max_threads
    → (s.threads j).state ≡ ThreadState.ready
    → IsScheduled (exit sp s).0
unfolding exit
exit-IsScheduled sp s j v a r =
    schedule_leaves sp (bury s) (rw bury-current v.in_range) (rw bury-current (bury-pick s j v a r))
      (λ k b run. unfold bury in ground (arith, v.alone k))

pub exit-dead :
    (sp : ℕ) (s : Sched) (j : ℕ)
    → IsScheduled s
    → j < max_threads
    → (s.threads j).state ≡ ThreadState.ready
    → ((exit sp s).0.threads s.current).state ≡ ThreadState.dead
unfolding exit schedule switch_to
exit-dead sp s j v a r = ground (arith, bury-pick s j v a r, bury-current s)
