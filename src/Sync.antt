-- ===== src/Sync.antt =====
-- The locks of src/sync.rs. The flags register is a number, of which bit 9 is the interrupt flag.
pub mod Nesting
pub mod Tests
use sysrust.Common.{
  ℕ, zero, suc, ◌+◌, ◌-◌, ◌*◌, ◌/◌, ◌%◌, List, [], ◌∷◌, Bool, true, false, Option, some, none, ◌==◌,
  ◌||◌, if◌then◌else◌, Table, store,
}

pub record Spinlock : Type 0 where
  pub locked : ℕ
  pub saved_flags : ℕ

-- The flags of the processor, and the spinlocks of the kernel.
pub record Cpu : Type 0 where
  pub flags : ℕ
  pub locks : Table Spinlock

-- Bit 9 of the flags.
abbrev pub interrupt_flag : ℕ → ℕ
interrupt_flag flags = flags / 512 % 2

-- The instruction: bit 9 cleared, the others kept.
abbrev pub cli : ℕ → ℕ
cli flags = flags - interrupt_flag flags * 512

unfoldable pub lock : ℕ → Cpu → Cpu
lock i s = record {
  flags = cli s.flags;
  locks = store s.locks i (record { locked = 1; saved_flags = s.flags });
}

unfoldable pub unlock : ℕ → Cpu → Cpu
unlock i s = record {
  flags = (s.locks i).saved_flags;
  locks = store s.locks i (record (s.locks i) { locked = 0 });
}

-- `none` is the owner -1.
pub record Mutex : Type 0 where
  pub mutex_locked : ℕ
  pub owner : Option ℕ

abbrev pub owned_by : ℕ → Option ℕ → Bool
owned_by thread none = false
owned_by thread (some o) = o == thread

-- The loop of `lock`: the mutex as the thread finds it in each round, after the yields between
-- them; `none` is a thread that still waits.
unfoldable pub mutex_lock : (current : ℕ) → List Mutex → Option Mutex
mutex_lock current [] = none
mutex_lock current (m ∷ later) =
    let waited = mutex_lock current later in
    if (m.mutex_locked == 0) || owned_by current m.owner
    then some (record { mutex_locked = 1; owner = some current })
    else waited

abbrev pub mutex_unlock : Mutex → Mutex
mutex_unlock m = record { mutex_locked = 0; owner = none }
