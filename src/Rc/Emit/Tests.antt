-- ===== src/Rc/Emit/Tests.antt =====
-- Runs of the emitter of src/rc/emit.rs.
use sysrust.Common.{◌+◌, ◌%◌, ◌^◌, ◌≡◌, false, [], ◌∷◌, arith, refl}
use sysrust.Ramfs.{bytes_from}
use sysrust.Rc.Emit.{
  Emitter, init, bytes, dword_bytes, jcc_placeholder, jmp_placeholder, jmp_rel, patch_dword,
  prologue, load_indirect, add, setcc, mov_reg_imm,
}
use sysrust.Rc.Emit.Buffer.{Emitted, bytes-Emitted}
use sysrust.Rc.Emit.Patching.{placeholder-patched}

-- one byte of room
abbrev near_full : Emitter
near_full = record {
  code_buf = λ i. 0;
  code_pos = 65535;
  load_base = 0;
  emit_overflow_flag = false;
}

abbrev empty : Emitter
empty = init near_full

-- push ebp; mov ebp, esp; sub esp, 8
prologue_eight :
    bytes_from (prologue 8 empty).code_buf 9 0
    ≡ 0x55 ∷ 0x89 ∷ 0xe5 ∷ 0x81 ∷ 0xec ∷ 8 ∷ 0 ∷ 0 ∷ 0 ∷ []
unfolding bytes bytes_from
prologue_eight = refl

-- mov ecx, [esp]
load_from_stack : bytes_from (load_indirect 1 4 empty).code_buf 3 0 ≡ 0x8b ∷ 0x0c ∷ 0x24 ∷ []
unfolding bytes bytes_from
load_from_stack = refl

-- setl al; mov edx, 258; add eax, edx
three :
    bytes_from (add 0 2 (mov_reg_imm 2 258 (setcc 12 0 empty))).code_buf 10 0
    ≡ 0x0f ∷ 0x9c ∷ 0xc0 ∷ 0xba ∷ 2 ∷ 1 ∷ 0 ∷ 0 ∷ 0x01 ∷ 0xd0 ∷ []
unfolding bytes bytes_from
three = refl

-- a byte dropped
bytes-Emitted_example : Emitted (1 ∷ 2 ∷ []) near_full (bytes (1 ∷ 2 ∷ []) near_full)
bytes-Emitted_example = bytes-Emitted (1 ∷ 2 ∷ []) near_full (omega arith)

placeholder-patched_example :
    (patch_dword (jmp_placeholder empty).0 1 (bytes (0xc3 ∷ []) (jmp_placeholder empty).1)
      ≡ bytes (0xc3 ∷ []) (jmp_rel 1 empty))
    × (patch_dword (jcc_placeholder 4 empty).0 1 (bytes (0xc3 ∷ []) (jcc_placeholder 4 empty).1)
        ≡ bytes (0xc3 ∷ []) (bytes (0x0f ∷ (0x80 + 4) % 2 ^ 8 ∷ dword_bytes 1) empty))
placeholder-patched_example = placeholder-patched (0xc3 ∷ []) 1 4 empty (omega arith)
