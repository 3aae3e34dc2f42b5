-- ===== src/Thread/Create.antt =====
-- `create` of thread.rs: the slot taken, the id given, the count of live threads, and the frame from
-- which `context_switch` of boot/boot.s starts the thread.
use sysrust.Common.{
  ℕ, ◌+◌, ◌-◌, ◌*◌, ◌%◌, ◌^◌, ◌<◌, ◌≡◌, ◌≢◌, ◌↔◌, inl, inr, true, false, Option, none, some, List,
  [], ◌∷◌, arith, refl, ◌==◌, if◌then◌else◌, find_from, find_from-some, find_from_ext,
  find_from_first, FirstIn, count_from_gain, count_from_full, Option-cases, sym, ◌∙◌,
}
use mathlib.Core.Bool.{not-not}
use sysrust.Thread.{
  ThreadState, Sched, failed, created, is_dead, max_threads, thread_stack_size, null, create,
  create_in, free_slot, get_count, is_alive, get_by_id, has_id, initial_frame,
}

-- The state is one thread richer: `slot`, the first dead one, holds a ready thread with the next
-- id on the new stack, and no other slot has changed.
pub record Spawned (stack slot : ℕ) (s s' : Sched) : Type 0 where
  pub first : FirstIn (λ i. is_dead (s.threads i).state) max_threads 0 slot
  pub thread : s'.threads slot ≡ record {
    id = s.next_id;
    rsp = stack + thread_stack_size - 64;
    state = ThreadState.ready;
    stack_base = stack;
  }
  pub others : (j : ℕ) → j ≢ slot → s'.threads j ≡ s.threads j
  pub current : s'.current ≡ s.current
  pub next_id : s'.next_id ≡ (s.next_id + 1) % 2 ^ 32

module _ (stack entry exit_addr : ℕ) (s : Sched) where
  -- With a stack and a dead slot.
  pub create-Spawned :
      (slot : ℕ)
      → stack ≢ null
      → free_slot s.threads ≡ some slot
      → Spawned stack slot s (create stack entry exit_addr s).0
        × ((create stack entry exit_addr s).1
            ≡ created s.next_id (initial_frame stack entry exit_addr))
  unfolding create create_in
  create-Spawned slot ne e =
      rw (create, e)
        (
          record {
            first =
                unfold free_slot in
                find_from-some (λ i. is_dead (s.threads i).state) max_threads 0 slot e;
            thread = ground arith;
            others = λ j d. ground arith;
            current = ground arith;
            next_id = ground arith;
          },
          ground arith,
        )

  -- A live thread more, when it succeeds.
  pub create-count :
      (tid : ℕ) (frame : List (ℕ × ℕ))
      → (create stack entry exit_addr s).1 ≡ created tid frame
      → get_count (create stack entry exit_addr s).0 ≡ get_count s + 1
  unfolding get_count create create_in
  create-count tid frame h = elim (Option-cases (free_slot s.threads)) [
    | inl e ↦ absurd (ground arith)
    | inr (slot, e) ↦
        let f =
          find_from-some (λ i. is_dead (s.threads i).state) max_threads 0 slot
            (unfold free_slot in e) in
        rw (create, e)
          (count_from_gain _ _ max_threads 0 slot f.0 f.1 (ground arith) (ground arith)
            (λ k d. ground arith))
  ]

  -- With a stack that is not null, create fails exactly when get_count says that all 32 threads
  -- are live.
  pub create_fails_iff :
      stack ≢ null → ((create stack entry exit_addr s).1 ≡ failed) ↔ (get_count s ≡ max_threads)
  unfolding get_count create create_in free_slot
  create_fails_iff ne = elim (Option-cases (free_slot s.threads)) [
    | inl e ↦
        let none_dead =
          find_from_ext _ _ max_threads 0 (λ k a b. sym (not-not (is_dead (s.threads k).state))) in
        let full = (count_from_full _ max_threads 0).0 (sym none_dead ∙ e) in
        rw (create, e) (λ h. full, λ h. refl)
    | inr (slot, e) ↦
        let none_dead =
          find_from_ext _ _ max_threads 0 (λ k a b. sym (not-not (is_dead (s.threads k).state))) in
        (
          λ h. absurd (ground arith),
          λ h. absurd (ground (arith, none_dead ∙ (count_from_full _ max_threads 0).1 h)),
        )
  ]

-- Live threads have ids below NEXT_ID, and no two have the same.
pub record HasIds (s : Sched) : Type 0 where
  pub below :
      (j : ℕ) → j < max_threads → is_dead (s.threads j).state ≡ false → (s.threads j).id < s.next_id
  pub distinct :
      (i j : ℕ)
      → i < max_threads
      → j < max_threads
      → is_dead (s.threads i).state ≡ false
      → is_dead (s.threads j).state ≡ false
      → (s.threads i).id ≡ (s.threads j).id
      → i ≡ j

-- When live threads have distinct ids below NEXT_ID, NEXT_ID + 1 has not reached 2^32, the stack
-- is not null and a slot is free, create keeps the ids distinct and below NEXT_ID, and get_by_id
-- and is_alive then find the new thread under its id, in that slot.
pub create-HasIds :
    (stack entry exit_addr slot : ℕ) (s : Sched)
    → HasIds s
    → s.next_id + 1 < 2 ^ 32
    → stack ≢ null
    → free_slot s.threads ≡ some slot
    → HasIds (create stack entry exit_addr s).0
      × (get_by_id (create stack entry exit_addr s).0 s.next_id ≡ some slot)
      × (is_alive (create stack entry exit_addr s).0 s.next_id ≡ true)
unfolding is_alive get_by_id
create-HasIds stack entry exit_addr slot s ids small ne e =
    let (sp, _) = create-Spawned stack entry exit_addr s slot ne e in
    let f = sp.first in
    let found : find_from (has_id (create stack entry exit_addr s).0.threads s.next_id) max_threads
          0
        ≡ some slot =
      find_from_first _ max_threads 0 slot
        (f.0, f.1, ground arith, λ k a b. ground (arith, sp.others k, ids.below k)) in
    (
      record {
        below = λ j a l. ground (arith, sp.others j, ids.below j);
        distinct = λ i j a b l m q.
            ground (arith, sp.others i, sp.others j, ids.below i, ids.below j, ids.distinct i j);
      },
      found,
      rw (is_alive, found),
    )

-- The memory that a list of writes leaves, as far as they reach.
pub word_at : List (ℕ × ℕ) → ℕ → Option ℕ
word_at [] a = none
word_at ((b, w) ∷ ws) a = if b == a then some w else word_at ws a

-- Read from the rsp that create stores upwards, the first frame of a thread holds zero in each of
-- the six words that context_switch pops into registers, then entry for its ret, then the address
-- of exit.
pub initial_frame_resumes :
    (stack entry exit_addr k : ℕ)
    → let rsp = stack + thread_stack_size - 64 in
      (k < 6 → word_at (initial_frame stack entry exit_addr) (rsp + 8 * k) ≡ some 0)
      × (word_at (initial_frame stack entry exit_addr) (rsp + 48) ≡ some entry)
      × (word_at (initial_frame stack entry exit_addr) (rsp + 56) ≡ some exit_addr)
unfolding initial_frame word_at
initial_frame_resumes stack entry exit_addr k = (λ h. ground arith, ground arith, ground arith)
