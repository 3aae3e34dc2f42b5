-- ===== src/Thread/Tests.antt =====
-- Runs of the scheduler of thread.rs on small tables, and its theorems at them.
use sysrust.Common.{
  ℕ, ◌+◌, ◌-◌, ◌*◌, ◌<◌, ◌≡◌, ◌↔◌, true, some, [], ◌∷◌, ◌++◌, arith, refl, if◌then◌else◌, ◌==◌,
  find_from,
}
use sysrust.Thread.{
  ThreadState, Thread, Sched, kfree, context_switch, cli, sti, failed, created, max_threads, create,
  exit, yield_thread, free_slot, get_count, get_by_id, is_alive, initial_frame, thread_stack_size,
}
use sysrust.Thread.Running.{IsScheduled, yield_thread-IsScheduled, exit-IsScheduled}
use sysrust.Thread.Fairness.{yield_fair, RunsWithin, Yields}
use sysrust.Thread.Create.{
  Spawned, create-Spawned, create-count, create_fails_iff, HasIds, create-HasIds,
  initial_frame_resumes, word_at,
}
use sysrust.Thread.Lifecycle.{exit_frees_own_stack}

abbrev thread : ℕ → ThreadState → ℕ → Thread
thread i st stack = record { id = i; rsp = 0; state = st; stack_base = stack }

-- Slot 0 sleeps on the boot stack, slot 1 runs on a stack of its own, slot 2 is ready.
abbrev three : Sched
three = record {
  threads = λ i.
      if i == 0
      then thread 0 ThreadState.blocked 0
      else if i == 1
      then thread 1 ThreadState.running 0x9000
      else if i == 2
      then thread 2 ThreadState.ready 0xa000
      else thread 0 ThreadState.dead 0;
  current = 1;
  next_id = 3;
  pending_free = 0;
}

three-IsScheduled : IsScheduled three
three-IsScheduled = record { in_range = omega arith; runs = refl; alone = λ j a r. ground arith }

three-HasIds : HasIds three
three-HasIds = record { below = λ j a l. ground arith; distinct = λ i j a b l m e. ground arith }

abbrev ten_yields : Yields
ten_yields =
    (0, 1)
    ∷ (0, 2)
    ∷ (0, 3)
    ∷ (0, 4)
    ∷ (0, 5)
    ∷ (512, 6)
    ∷ (512, 7)
    ∷ (0, 8)
    ∷ (0, 9)
    ∷ (0, 10)
    ∷ []

yield_three : (yield_thread 0x202 7 three).1 ≡ cli ∷ context_switch 1 0 ∷ sti ∷ []
unfolding yield_thread find_from
yield_three = refl

free_slot_three : free_slot three.threads ≡ some 3
unfolding free_slot find_from
free_slot_three = refl

schedule-IsScheduled_example : IsScheduled (yield_thread 0x202 7 three).0
schedule-IsScheduled_example = yield_thread-IsScheduled 0x202 7 three three-IsScheduled

yield_fair_example : RunsWithin 2 (ten_yields ++ ten_yields ++ ten_yields ++ (0, 31) ∷ []) three
yield_fair_example =
    yield_fair 2 (ten_yields ++ ten_yields ++ ten_yields ++ (0, 31) ∷ []) three three-IsScheduled
      (omega arith) refl (omega arith)

exit_frees_own_stack_example :
    (new_rsp : ℕ) × ((exit 7 three).1 ≡ cli ∷ kfree 0x9000 ∷ context_switch 1 new_rsp ∷ [])
exit_frees_own_stack_example =
    exit_frees_own_stack 7 2 three three-IsScheduled (omega arith) refl (omega arith)

exit-IsScheduled_example : IsScheduled (exit 7 three).0
exit-IsScheduled_example = exit-IsScheduled 7 three 2 three-IsScheduled (omega arith) refl

create-HasIds_example :
    HasIds (create 0xb000 5 6 three).0
    × (get_by_id (create 0xb000 5 6 three).0 3 ≡ some 3)
    × (is_alive (create 0xb000 5 6 three).0 3 ≡ true)
create-HasIds_example =
    create-HasIds 0xb000 5 6 3 three three-HasIds (omega arith) (omega arith) free_slot_three

create_fails_iff_example : ((create 0xb000 5 6 three).1 ≡ failed) ↔ (get_count three ≡ max_threads)
create_fails_iff_example = create_fails_iff 0xb000 5 6 three (omega arith)

create-count_example : get_count (create 0xb000 5 6 three).0 ≡ get_count three + 1
unfolding create initial_frame find_from
create-count_example = create-count 0xb000 5 6 three 3 (initial_frame 0xb000 5 6) refl

create-Spawned_example :
    Spawned 0xb000 3 three (create 0xb000 5 6 three).0
    × ((create 0xb000 5 6 three).1 ≡ created 3 (initial_frame 0xb000 5 6))
create-Spawned_example = create-Spawned 0xb000 5 6 three 3 (omega arith) free_slot_three

initial_frame_resumes_example :
    (5 < 6 → word_at (initial_frame 0xb000 5 6) (0xb000 + thread_stack_size - 64 + 8 * 5) ≡ some 0)
    × (word_at (initial_frame 0xb000 5 6) (0xb000 + thread_stack_size - 64 + 48) ≡ some 5)
    × (word_at (initial_frame 0xb000 5 6) (0xb000 + thread_stack_size - 64 + 56) ≡ some 6)
initial_frame_resumes_example = initial_frame_resumes 0xb000 5 6 5
