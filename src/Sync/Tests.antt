-- ===== src/Sync/Tests.antt =====
-- The model of src/sync.rs on concrete sections.
use sysrust.Common.{◌≡◌, [], ◌∷◌, arith}
use sysrust.Sync.{Cpu, lock, unlock, interrupt_flag}
use sysrust.Sync.Nesting.{Code, done, critical, run, run-flags, relock_masks}

abbrev enabled : Cpu
enabled = record { flags = 514; locks = λ i. record { locked = 0; saved_flags = 0 } }

-- Lock 1 around lock 2, then lock 2 alone.
abbrev nested : Code []
nested =
    critical 1 tt (critical 2 (omega arith, tt) (done (2 ∷ 1 ∷ [])) (done (1 ∷ [])))
      (critical 2 tt (done (2 ∷ [])) (done []))

run-flags_example : (run nested enabled).flags ≡ 514
run-flags_example = run-flags nested enabled

relock_masks_example : interrupt_flag (unlock 1 (unlock 1 (lock 1 (lock 1 enabled)))).flags ≡ 0
relock_masks_example = relock_masks 1 enabled
