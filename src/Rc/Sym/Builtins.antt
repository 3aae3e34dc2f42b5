-- ===== src/Rc/Sym/Builtins.antt =====
-- The start of the symbol table of src/rc/sym.rs, with the functions of the kernel.
use sysrust.Common.{ℕ, List, [], ◌∷◌}
use sysrust.Rc.Sym.{Symbol, StructField, StructDef, Symbols, add, sym_kern_func, type_int}

abbrev pub empty_symbol : Symbol
empty_symbol = record {
  name = [];
  kind = 0;
  sym_type = 0;
  is_ptr = 0;
  offset = 0;
  addr = 0;
  scope_depth = 0;
  struct_name = [];
  is_mutable = 0;
}

abbrev empty_field : StructField
empty_field = record { name = []; field_type = 0; is_ptr = 0; offset = 0; elem_size = 0 }

abbrev pub empty_def : StructDef
empty_def = record { name = []; fields = λ i. empty_field; field_count = 0; size = 0 }

abbrev add_builtin : (name : List ℕ) (addr : ℕ) → Symbols → Symbols
add_builtin name addr s = (add name sym_kern_func type_int 0 0 addr s).1

unfoldable pub add_builtins : List (List ℕ) → (addr_of : List ℕ → ℕ) → Symbols → Symbols
add_builtins [] addr_of s = s
add_builtins (name ∷ names) addr_of s =
    add_builtins names addr_of (add_builtin name (addr_of name) s)

-- puts, putchar, getchar, sleep, malloc, free, strlen, strcmp, strcpy, memset, memcpy, serial_puts,
-- serial_putchar, compile, run_program, run_protected, clear, set_color, open, read, fwrite, close, create_file, get_ticks,
-- heap_free, free_pages, ip_to_string, tcp_connect, tcp_send, tcp_recv, tcp_close.
abbrev pub builtins : List (List ℕ)
builtins =
    (112 ∷ 117 ∷ 116 ∷ 115 ∷ [])
    ∷ (112 ∷ 117 ∷ 116 ∷ 99 ∷ 104 ∷ 97 ∷ 114 ∷ [])
    ∷ (103 ∷ 101 ∷ 116 ∷ 99 ∷ 104 ∷ 97 ∷ 114 ∷ [])
    ∷ (115 ∷ 108 ∷ 101 ∷ 101 ∷ 112 ∷ [])
    ∷ (109 ∷ 97 ∷ 108 ∷ 108 ∷ 111 ∷ 99 ∷ [])
    ∷ (102 ∷ 114 ∷ 101 ∷ 101 ∷ [])
    ∷ (115 ∷ 116 ∷ 114 ∷ 108 ∷ 101 ∷ 110 ∷ [])
    ∷ (115 ∷ 116 ∷ 114 ∷ 99 ∷ 109 ∷ 112 ∷ [])
    ∷ (115 ∷ 116 ∷ 114 ∷ 99 ∷ 112 ∷ 121 ∷ [])
    ∷ (109 ∷ 101 ∷ 109 ∷ 115 ∷ 101 ∷ 116 ∷ [])
    ∷ (109 ∷ 101 ∷ 109 ∷ 99 ∷ 112 ∷ 121 ∷ [])
    ∷ (115 ∷ 101 ∷ 114 ∷ 105 ∷ 97 ∷ 108 ∷ 95 ∷ 112 ∷ 117 ∷ 116 ∷ 115 ∷ [])
    ∷ (115 ∷ 101 ∷ 114 ∷ 105 ∷ 97 ∷ 108 ∷ 95 ∷ 112 ∷ 117 ∷ 116 ∷ 99 ∷ 104 ∷ 97 ∷ 114 ∷ [])
    ∷ (99 ∷ 111 ∷ 109 ∷ 112 ∷ 105 ∷ 108 ∷ 101 ∷ [])
    ∷ (114 ∷ 117 ∷ 110 ∷ 95 ∷ 112 ∷ 114 ∷ 111 ∷ 103 ∷ 114 ∷ 97 ∷ 109 ∷ [])
    ∷ (114 ∷ 117 ∷ 110 ∷ 95 ∷ 112 ∷ 114 ∷ 111 ∷ 116 ∷ 101 ∷ 99 ∷ 116 ∷ 101 ∷ 100 ∷ [])
    ∷ (99 ∷ 108 ∷ 101 ∷ 97 ∷ 114 ∷ [])
    ∷ (115 ∷ 101 ∷ 116 ∷ 95 ∷ 99 ∷ 111 ∷ 108 ∷ 111 ∷ 114 ∷ [])
    ∷ (111 ∷ 112 ∷ 101 ∷ 110 ∷ [])
    ∷ (114 ∷ 101 ∷ 97 ∷ 100 ∷ [])
    ∷ (102 ∷ 119 ∷ 114 ∷ 105 ∷ 116 ∷ 101 ∷ [])
    ∷ (99 ∷ 108 ∷ 111 ∷ 115 ∷ 101 ∷ [])
    ∷ (99 ∷ 114 ∷ 101 ∷ 97 ∷ 116 ∷ 101 ∷ 95 ∷ 102 ∷ 105 ∷ 108 ∷ 101 ∷ [])
    ∷ (103 ∷ 101 ∷ 116 ∷ 95 ∷ 116 ∷ 105 ∷ 99 ∷ 107 ∷ 115 ∷ [])
    ∷ (104 ∷ 101 ∷ 97 ∷ 112 ∷ 95 ∷ 102 ∷ 114 ∷ 101 ∷ 101 ∷ [])
    ∷ (102 ∷ 114 ∷ 101 ∷ 101 ∷ 95 ∷ 112 ∷ 97 ∷ 103 ∷ 101 ∷ 115 ∷ [])
    ∷ (105 ∷ 112 ∷ 95 ∷ 116 ∷ 111 ∷ 95 ∷ 115 ∷ 116 ∷ 114 ∷ 105 ∷ 110 ∷ 103 ∷ [])
    ∷ (116 ∷ 99 ∷ 112 ∷ 95 ∷ 99 ∷ 111 ∷ 110 ∷ 110 ∷ 101 ∷ 99 ∷ 116 ∷ [])
    ∷ (116 ∷ 99 ∷ 112 ∷ 95 ∷ 115 ∷ 101 ∷ 110 ∷ 100 ∷ [])
    ∷ (116 ∷ 99 ∷ 112 ∷ 95 ∷ 114 ∷ 101 ∷ 99 ∷ 118 ∷ [])
    ∷ (116 ∷ 99 ∷ 112 ∷ 95 ∷ 99 ∷ 108 ∷ 111 ∷ 115 ∷ 101 ∷ [])
    ∷ []

-- `addr_of` gives the address of each built-in function.
abbrev pub init : (addr_of : List ℕ → ℕ) → Symbols
init addr_of = add_builtins builtins addr_of (record {
  symbols = λ i. empty_symbol;
  sym_count = 0;
  cur_scope = 0;
  struct_defs = λ i. empty_def;
  struct_def_count = 0;
})
