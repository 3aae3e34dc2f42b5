-- ===== src/Sync/Nesting.antt =====
-- Nested critical sections of src/sync.rs: which ones restore the interrupt flag.
use sysrust.Common.{ℕ, ◌≡◌, ◌≢◌, List, [], ◌∷◌, true, false, ◌==◌, arith, refl, ◌∙◌}
use sysrust.Sync.{Cpu, interrupt_flag, lock, unlock}

-- None of the locks in the list is `i`.
abbrev pub IsFresh : ℕ → List ℕ → Type 0
IsFresh i [] = Unit {0}
IsFresh i (j ∷ held) = (j ≢ i) × IsFresh i held

-- Code that runs with the locks of the list held: critical sections one after the other, each of a
-- lock that is not held, with code of the same kind inside.
pub data Code : List ℕ → Type 0 where
  done : (held : List ℕ) → Code held
  critical : {held : List ℕ} (i : ℕ) → IsFresh i held → Code (i ∷ held) → Code held → Code held

abbrev pub run : {held : List ℕ} → Code held → Cpu → Cpu
run (done held) s = s
run (critical i fresh body rest) s = run rest (unlock i (run body (lock i s)))

-- The saved flags of the held locks are the same.
abbrev SavedSame : List ℕ → Cpu → Cpu → Type 0
SavedSame [] s s' = Unit {0}
SavedSame (j ∷ held) s s' =
    ((s'.locks j).saved_flags ≡ (s.locks j).saved_flags) × SavedSame held s s'

SavedSame-refl : (held : List ℕ) (s : Cpu) → SavedSame held s s
SavedSame-refl [] s = tt
SavedSame-refl (j ∷ held) s = (refl, SavedSame-refl held s)

SavedSame-trans :
    (held : List ℕ) (a b c : Cpu) → SavedSame held a b → SavedSame held b c → SavedSame held a c
SavedSame-trans [] a b c p q = tt
SavedSame-trans (j ∷ held) a b c p q = (q.0 ∙ p.0, SavedSame-trans held a b c p.1 q.1)

lock-SavedSame : (held : List ℕ) (i : ℕ) (s : Cpu) → IsFresh i held → SavedSame held s (lock i s)
unfolding lock
lock-SavedSame [] i s fresh = tt
lock-SavedSame (j ∷ held) i s fresh =
    let apart : (j == i) ≡ false = ground (arith, fresh.0) in
    (rw apart refl, lock-SavedSame held i s fresh.1)

unlock-SavedSame :
    (held : List ℕ) (i : ℕ) (s : Cpu) → IsFresh i held → SavedSame held s (unlock i s)
unfolding unlock
unlock-SavedSame [] i s fresh = tt
unlock-SavedSame (j ∷ held) i s fresh =
    let apart : (j == i) ≡ false = ground (arith, fresh.0) in
    (rw apart refl, unlock-SavedSame held i s fresh.1)

==-refl : (i : ℕ) → (i == i) ≡ true
==-refl i = ground arith

locked_saves : (i : ℕ) (s : Cpu) → ((lock i s).locks i).saved_flags ≡ s.flags
unfolding lock
locked_saves i s = rw (==-refl i) refl

unlock_restores : (i : ℕ) (s : Cpu) → (unlock i s).flags ≡ (s.locks i).saved_flags
unfolding unlock
unlock_restores i s = refl

run_keeps :
    {held : List ℕ} (c : Code held) (s : Cpu)
    → ((run c s).flags ≡ s.flags) × SavedSame held s (run c s)
run_keeps (done held) s = (refl, SavedSame-refl held s)
run_keeps (critical {held} i fresh body rest) s =
    let inside = run_keeps body (lock i s) in
    let left = unlock i (run body (lock i s)) in
    let after = run_keeps rest left in
    let restored : left.flags ≡ s.flags =
      unlock_restores i (run body (lock i s)) ∙ inside.1.0 ∙ locked_saves i s in
    (
      after.0 ∙ restored,
      SavedSame-trans held s left (run rest left)
          (SavedSame-trans held s (lock i s) left (lock-SavedSame held i s fresh) (
            SavedSame-trans held (lock i s) (run body (lock i s)) left inside.1.1
              (unlock-SavedSame held i (run body (lock i s)) fresh)))
          after.1,
    )

-- Code made of critical sections of spinlocks, nested in any way in which no lock is taken while
-- it is held, leaves the flags register as it found it.
pub run-flags : {held : List ℕ} (c : Code held) (s : Cpu) → (run c s).flags ≡ s.flags
run-flags c s = (run_keeps c s).0

-- Taking one spinlock twice and releasing it twice leaves interrupts masked, whatever the flags
-- were before.
pub relock_masks :
    (i : ℕ) (s : Cpu) → interrupt_flag (unlock i (unlock i (lock i (lock i s)))).flags ≡ 0
unfolding lock unlock
relock_masks i s = rw (==-refl i) (omega arith)
