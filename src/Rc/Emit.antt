-- ===== src/Rc/Emit.antt =====
-- The emitter of machine code of src/rc/emit.rs. A register or an i32 is its bits; a function is the
-- sequence of its calls of byte.
pub mod Buffer
pub mod Patching
pub mod Tests
use Prim.Native.Nat.{bit_or}
use sysrust.Common.{
  ℕ, ◌+◌, ◌*◌, ◌/◌, ◌%◌, ◌^◌, Bool, true, false, List, [], ◌∷◌, ◌++◌, ◌==◌, ltb, leb, ◌&&◌,
  if◌then◌else◌, Table, store,
}

abbrev cc_load_base : ℕ
cc_load_base = 0x00a0_0000

abbrev cc_load_base2 : ℕ
cc_load_base2 = 0x00b0_0000

abbrev pub cc_code_max : ℕ
cc_code_max = 65536

abbrev reg_eax : ℕ
reg_eax = 0

abbrev reg_ecx : ℕ
reg_ecx = 1

abbrev reg_edx : ℕ
reg_edx = 2

abbrev reg_ebx : ℕ
reg_ebx = 3

abbrev reg_esp : ℕ
reg_esp = 4

abbrev reg_ebp : ℕ
reg_ebp = 5

abbrev reg_esi : ℕ
reg_esi = 6

abbrev reg_edi : ℕ
reg_edi = 7

abbrev cc_e : ℕ
cc_e = 0x04

abbrev cc_ne : ℕ
cc_ne = 0x05

abbrev cc_l : ℕ
cc_l = 0x0c

abbrev cc_ge : ℕ
cc_ge = 0x0d

abbrev cc_le : ℕ
cc_le = 0x0e

abbrev cc_g : ℕ
cc_g = 0x0f

-- CODE_BUF, CODE_POS, LOAD_BASE and EMIT_OVERFLOW_FLAG.
pub record Emitter : Type 0 where
  pub code_buf : Table ℕ
  pub code_pos : ℕ
  pub load_base : ℕ
  pub emit_overflow_flag : Bool

abbrev set_base : (base : ℕ) → Emitter → Emitter
set_base base s = record s { load_base = base }

abbrev get_base : Emitter → ℕ
get_base s = s.load_base

abbrev pub init : Emitter → Emitter
init s = record s { code_buf = λ i. 0; code_pos = 0; emit_overflow_flag = false }

abbrev pub byte : (b : ℕ) → Emitter → Emitter
byte b s =
    if ltb s.code_pos cc_code_max
    then record s { code_buf = store s.code_buf s.code_pos b; code_pos = s.code_pos + 1 }
    else record s { emit_overflow_flag = true }

-- Calls of byte, one after the other.
unfoldable pub bytes : List ℕ → Emitter → Emitter
bytes [] s = s
bytes (b ∷ bs) s = bytes bs (byte b s)

abbrev pub dword_bytes : (d : ℕ) → List ℕ
dword_bytes d = d % 2 ^ 8 ∷ d / 2 ^ 8 % 2 ^ 8 ∷ d / 2 ^ 16 % 2 ^ 8 ∷ d / 2 ^ 24 % 2 ^ 8 ∷ []

abbrev pub dword : (d : ℕ) → Emitter → Emitter
dword d s = bytes (dword_bytes d) s

abbrev size : Emitter → ℕ
size s = s.code_pos

abbrev had_overflow : Emitter → Bool
had_overflow s = s.emit_overflow_flag

-- With the addition on u32.
unfoldable pub patch_dword : (p val : ℕ) → Emitter → Emitter
patch_dword p val s =
    let b0 = store s.code_buf p (val % 2 ^ 8) in
    let b1 = store b0 (p + 1) (val / 2 ^ 8 % 2 ^ 8) in
    let b2 = store b1 (p + 2) (val / 2 ^ 16 % 2 ^ 8) in
    let b3 = store b2 (p + 3) (val / 2 ^ 24 % 2 ^ 8) in
    if leb ((p + 4) % 2 ^ 32) cc_code_max then record s { code_buf = b3 } else s

-- base | (reg << 3) | rm, as a u8.
abbrev mod_rm : (base reg rm : ℕ) → ℕ
mod_rm base reg rm = bit_or (bit_or base (reg * 2 ^ 3)) rm % 2 ^ 8

-- The bytes that address memory through `rm`.
abbrev indirect : (reg rm : ℕ) → List ℕ
indirect reg rm =
    if rm == reg_ebp
    then mod_rm 0x45 reg 0 ∷ 0x00 ∷ []
    else if rm == reg_esp
    then mod_rm 0x04 reg 0 ∷ 0x24 ∷ []
    else mod_rm 0 reg rm ∷ []

abbrev push_imm : (val : ℕ) → Emitter → Emitter
push_imm val s = bytes (0x68 ∷ dword_bytes val) s

abbrev push_reg : (reg : ℕ) → Emitter → Emitter
push_reg reg s = bytes ((0x50 + reg) % 2 ^ 8 ∷ []) s

abbrev pop_reg : (reg : ℕ) → Emitter → Emitter
pop_reg reg s = bytes ((0x58 + reg) % 2 ^ 8 ∷ []) s

abbrev pub mov_reg_imm : (reg val : ℕ) → Emitter → Emitter
mov_reg_imm reg val s = bytes ((0xb8 + reg) % 2 ^ 8 ∷ dword_bytes val) s

abbrev mov_reg_reg : (dst src : ℕ) → Emitter → Emitter
mov_reg_reg dst src s = bytes (0x89 ∷ mod_rm 0xc0 src dst ∷ []) s

abbrev load_local : (reg offset : ℕ) → Emitter → Emitter
load_local reg offset s = bytes (0x8b ∷ mod_rm 0x85 reg 0 ∷ dword_bytes offset) s

abbrev store_local : (offset reg : ℕ) → Emitter → Emitter
store_local offset reg s = bytes (0x89 ∷ mod_rm 0x85 reg 0 ∷ dword_bytes offset) s

abbrev load_global : (reg addr : ℕ) → Emitter → Emitter
load_global reg addr s = bytes (0x8b ∷ mod_rm 0x05 reg 0 ∷ dword_bytes addr) s

abbrev store_global : (addr reg : ℕ) → Emitter → Emitter
store_global addr reg s = bytes (0x89 ∷ mod_rm 0x05 reg 0 ∷ dword_bytes addr) s

abbrev pub load_indirect : (dst src : ℕ) → Emitter → Emitter
load_indirect dst src s = bytes (0x8b ∷ indirect dst src) s

abbrev load_indirect_byte : (dst src : ℕ) → Emitter → Emitter
load_indirect_byte dst src s = bytes (0x0f ∷ 0xb6 ∷ indirect dst src) s

abbrev store_indirect_byte : (dst src : ℕ) → Emitter → Emitter
store_indirect_byte dst src s = bytes (0x88 ∷ indirect src dst) s

abbrev store_indirect : (dst src : ℕ) → Emitter → Emitter
store_indirect dst src s = bytes (0x89 ∷ indirect src dst) s

abbrev pub add : (dst src : ℕ) → Emitter → Emitter
add dst src s = bytes (0x01 ∷ mod_rm 0xc0 src dst ∷ []) s

abbrev sub : (dst src : ℕ) → Emitter → Emitter
sub dst src s = bytes (0x29 ∷ mod_rm 0xc0 src dst ∷ []) s

abbrev imul : (dst src : ℕ) → Emitter → Emitter
imul dst src s = bytes (0x0f ∷ 0xaf ∷ mod_rm 0xc0 dst src ∷ []) s

abbrev idiv_ecx : Emitter → Emitter
idiv_ecx s = bytes (0x99 ∷ 0xf7 ∷ 0xf9 ∷ []) s

abbrev neg : (reg : ℕ) → Emitter → Emitter
neg reg s = bytes (0xf7 ∷ mod_rm 0xd8 0 reg ∷ []) s

abbrev not : (reg : ℕ) → Emitter → Emitter
not reg s = bytes (0xf7 ∷ mod_rm 0xd0 0 reg ∷ []) s

abbrev and : (dst src : ℕ) → Emitter → Emitter
and dst src s = bytes (0x21 ∷ mod_rm 0xc0 src dst ∷ []) s

abbrev or : (dst src : ℕ) → Emitter → Emitter
or dst src s = bytes (0x09 ∷ mod_rm 0xc0 src dst ∷ []) s

abbrev xor : (dst src : ℕ) → Emitter → Emitter
xor dst src s = bytes (0x31 ∷ mod_rm 0xc0 src dst ∷ []) s

abbrev shl : (dst : ℕ) → Emitter → Emitter
shl dst s = bytes (0xd3 ∷ mod_rm 0xe0 0 dst ∷ []) s

abbrev shr : (dst : ℕ) → Emitter → Emitter
shr dst s = bytes (0xd3 ∷ mod_rm 0xe8 0 dst ∷ []) s

abbrev cmp : (a b : ℕ) → Emitter → Emitter
cmp a b s = bytes (0x39 ∷ mod_rm 0xc0 b a ∷ []) s

abbrev pub setcc : (cc reg : ℕ) → Emitter → Emitter
setcc cc reg s = bytes (0x0f ∷ (0x90 + cc) % 2 ^ 8 ∷ mod_rm 0xc0 0 reg ∷ []) s

abbrev call_abs : (addr : ℕ) → Emitter → Emitter
call_abs addr s = bytes (0xff ∷ 0xd0 ∷ []) (mov_reg_imm reg_eax addr s)

abbrev call_rel : (offset : ℕ) → Emitter → Emitter
call_rel offset s = bytes (0xe8 ∷ dword_bytes offset) s

abbrev ret : Emitter → Emitter
ret s = bytes (0xc3 ∷ []) s

abbrev pub jmp_rel : (offset : ℕ) → Emitter → Emitter
jmp_rel offset s = bytes (0xe9 ∷ dword_bytes offset) s

-- The position of the displacement to patch, and the code.
abbrev pub jmp_placeholder : Emitter → ℕ × Emitter
jmp_placeholder s = let s' = bytes (0xe9 ∷ []) s in (s'.code_pos, dword 0 s')

abbrev pub jcc_placeholder : (cc : ℕ) → Emitter → ℕ × Emitter
jcc_placeholder cc s =
    let s' = bytes (0x0f ∷ (0x80 + cc) % 2 ^ 8 ∷ []) s in (s'.code_pos, dword 0 s')

-- `local_size` > 0 on an i32.
abbrev pub prologue : (local_size : ℕ) → Emitter → Emitter
prologue local_size s =
    let s' = bytes (0x55 ∷ 0x89 ∷ 0xe5 ∷ []) s in
    if ltb 0 local_size && ltb local_size (2 ^ 31)
    then bytes (0x81 ∷ 0xec ∷ dword_bytes local_size) s'
    else s'

abbrev epilogue : Emitter → Emitter
epilogue s = bytes (0x89 ∷ 0xec ∷ 0x5d ∷ 0xc3 ∷ []) s

abbrev add_esp : (n : ℕ) → Emitter → Emitter
add_esp n s = bytes (0x81 ∷ 0xc4 ∷ dword_bytes n) s

abbrev cmp_eax_imm : (val : ℕ) → Emitter → Emitter
cmp_eax_imm val s = bytes (0x3d ∷ dword_bytes val) s

abbrev movzx_eax_al : Emitter → Emitter
movzx_eax_al s = bytes (0x0f ∷ 0xb6 ∷ 0xc0 ∷ []) s
