-- ===== src/Thread.antt =====
-- The round-robin scheduler of src/thread.rs, with the state of THREADS, CURRENT_THREAD, NEXT_ID and
-- PENDING_FREE_STACK in one record. What leaves the module is an effect, in the order of the code:
-- stacks given back to the heap, interrupts masked, and the switch of stack pointers.
pub mod Create
pub mod Fairness
pub mod Lifecycle
pub mod Round
pub mod Running
pub mod Tests
use sysrust.Common.{
  ℕ, ◌+◌, ◌-◌, ◌*◌, ◌/◌, ◌%◌, ◌^◌, Bool, true, false, ◌&&◌, not, Option, none, some, List, [], ◌∷◌,
  ◌++◌, ◌==◌, if◌then◌else◌, Table, store, find_from, count_from, for_range,
}

pub data ThreadState : Type 0 where
  ready running blocked dead : ThreadState

abbrev pub is_ready : ThreadState → Bool
is_ready ThreadState.ready = true
is_ready _ = false

abbrev pub is_running : ThreadState → Bool
is_running ThreadState.running = true
is_running _ = false

abbrev pub is_dead : ThreadState → Bool
is_dead ThreadState.dead = true
is_dead _ = false

abbrev pub max_threads : ℕ
max_threads = 32

abbrev pub thread_stack_size : ℕ
thread_stack_size = 4096

-- The null pointer.
abbrev pub null : ℕ
null = 0

pub record Thread : Type 0 where
  pub id : ℕ
  pub rsp : ℕ
  pub state : ThreadState
  pub stack_base : ℕ

pub record Sched : Type 0 where
  pub threads : Table Thread
  pub current : ℕ
  pub next_id : ℕ
  pub pending_free : ℕ

pub data Effect : Type 0 where
  kfree : ℕ → Effect
  context_switch : (old_slot new_rsp : ℕ) → Effect
  cli sti : Effect

-- A table with every slot dead, and the boot thread running in slot 0.
pub init : Sched → Sched
init s =
    let cleared : Table Thread =
      for_range (λ i (t : Table Thread). store t i (record (t i) { state = ThreadState.dead }))
        max_threads 0 s.threads in
    record s {
      threads =
          store cleared 0 (record (cleared 0) {
            id = 0;
            rsp = 0;
            state = ThreadState.running;
            stack_base = null;
          });
      current = 0;
      next_id = 1;
    }

-- The eight words that `create` pushes, highest address first: `exit` under `entry` under six
-- zeros for the registers that `context_switch` pops.
pub initial_frame : (stack entry exit_addr : ℕ) → List (ℕ × ℕ)
initial_frame stack entry exit_addr =
    let top = stack + thread_stack_size in
    (top - 8, exit_addr)
    ∷ (top - 16, entry)
    ∷ (top - 24, 0)
    ∷ (top - 32, 0)
    ∷ (top - 40, 0)
    ∷ (top - 48, 0)
    ∷ (top - 56, 0)
    ∷ (top - 64, 0)
    ∷ []

-- The outcome of `create`: the thread's id with the words of its first frame, or -1.
pub data Created : Type 0 where
  failed : Created
  created : (tid : ℕ) → (frame : List (ℕ × ℕ)) → Created

-- The first slot of a dead thread.
pub free_slot : Table Thread → Option ℕ
free_slot t = find_from (λ i. is_dead (t i).state) max_threads 0

pub create_in : (stack entry exit_addr slot : ℕ) → Sched → Sched × Created
create_in stack entry exit_addr slot s = if stack == null then (s, failed) else (
  record s {
    next_id = (s.next_id + 1) % 2 ^ 32;
    threads = store s.threads slot (record {
      id = s.next_id;
      rsp = stack + thread_stack_size - 64;
      state = ThreadState.ready;
      stack_base = stack;
    });
  },
  created s.next_id (initial_frame stack entry exit_addr),
)

-- `stack` is what kmalloc(THREAD_STACK_SIZE) returns, null when the heap is exhausted.
pub create : (stack entry exit_addr : ℕ) → Sched → Sched × Created
unfolding create_in free_slot
create stack entry exit_addr s = elim (free_slot s.threads) [
  | none ↦ (s, failed)
  | some slot ↦ create_in stack entry exit_addr slot s
]

-- The slot that the scan from one past `old` finds, or `old`.
pub pick : Table Thread → ℕ → ℕ
pick t old = elim (find_from (λ i. is_ready (t ((old + i) % max_threads)).state) max_threads 1) [
  | none ↦ old
  | some i ↦ (old + i) % max_threads
]

-- The table after the two state updates, and with the old thread's stack pointer saved.
pub switch_to : (sp old next : ℕ) → Table Thread → Table Thread
switch_to sp old next t =
    let demoted : Table Thread =
      if is_running (t old).state
      then store t old (record (t old) { state = ThreadState.ready })
      else t in
    let promoted : Table Thread =
      store demoted next (record (demoted next) { state = ThreadState.running }) in
    store promoted old (record (promoted old) { rsp = sp })

-- `sp` is the stack pointer that `context_switch` saves.
pub schedule : (sp : ℕ) → Sched → Sched × List Effect
unfolding pick switch_to
schedule sp s =
    let freed : List Effect = if s.pending_free == null then [] else kfree s.pending_free ∷ [] in
    let old = s.current in
    let next = pick s.threads old in
    if next == old then (record s { pending_free = null }, freed) else (
      record s { threads = switch_to sp old next s.threads; current = next; pending_free = null },
      freed ++ context_switch old (s.threads next).rsp ∷ [],
    )

-- `flags` is RFLAGS at the call; bit 9 is the interrupt flag.
pub yield_thread : (flags sp : ℕ) → Sched → Sched × List Effect
unfolding schedule
yield_thread flags sp s =
    let (s', effects) = schedule sp s in
    (s', cli ∷ (effects ++ (if flags / 512 % 2 == 1 then sti ∷ [] else [])))

-- The state that `exit` leaves for `schedule`.
pub bury : Sched → Sched
bury s =
    let cur = s.current in
    let t = s.threads cur in
    if t.stack_base == null
    then record s { threads = store s.threads cur (record t { state = ThreadState.dead }) }
    else record s {
      threads = store s.threads cur (record t { state = ThreadState.dead; stack_base = null });
      pending_free = t.stack_base;
    }

pub exit : (sp : ℕ) → Sched → Sched × List Effect
unfolding bury schedule
exit sp s = let (s', effects) = schedule sp (bury s) in (s', cli ∷ effects)

pub get_current : Sched → ℕ
get_current s = (s.threads s.current).id

-- Alive, and with this id.
abbrev pub has_id : Table Thread → ℕ → ℕ → Bool
has_id t tid i = not (is_dead (t i).state) && (t i).id == tid

-- The slot whose thread `get_by_id` returns.
pub get_by_id : Sched → ℕ → Option ℕ
get_by_id s tid = find_from (has_id s.threads tid) max_threads 0

pub is_alive : Sched → ℕ → Bool
unfolding get_by_id
is_alive s tid = elim (find_from (has_id s.threads tid) max_threads 0) [
  | none ↦ false
  | some _ ↦ true
]

pub get_count : Sched → ℕ
get_count s = count_from (λ i. not (is_dead (s.threads i).state)) max_threads 0
