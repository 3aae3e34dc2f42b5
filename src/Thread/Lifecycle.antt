-- ===== src/Thread/Lifecycle.antt =====
-- `exit` of thread.rs: what it hands to the heap, and when.
use sysrust.Common.{ℕ, ◌≡◌, ◌≢◌, ◌<◌, [], ◌∷◌, arith}
use sysrust.Thread.{
  ThreadState, Sched, kfree, context_switch, cli, null, max_threads, exit, bury, schedule, pick,
}
use sysrust.Thread.Running.{IsScheduled, bury-pick}

-- From a state in which the current slot, and it alone, is running, with some thread ready and a
-- current thread whose stack is not null, exit hands that very stack to kfree after masking
-- interrupts and before context_switch leaves it.
pub exit_frees_own_stack :
    (sp j : ℕ) (s : Sched)
    → IsScheduled s
    → j < max_threads
    → (s.threads j).state ≡ ThreadState.ready
    → (s.threads s.current).stack_base ≢ null
    → (new_rsp : ℕ) × ((exit sp s).1
        ≡ cli ∷ kfree (s.threads s.current).stack_base ∷ context_switch s.current new_rsp ∷ [])
unfolding exit schedule
exit_frees_own_stack sp j s v a r ne = (
  ((bury s).threads (pick (bury s).threads s.current)).rsp,
  unfold bury in ground (arith, bury-pick s j v a r),
)
