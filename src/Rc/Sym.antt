-- ===== src/Rc/Sym.antt =====
-- The symbol table of src/rc/sym.rs. A name is its bytes up to the terminator; an i32 is its bits;
-- a pointer into a table is an index.
pub mod Builtins
pub mod Lookup
pub mod Scopes
pub mod Tests
use sysrust.Common.{
  ℕ, zero, suc, ◌+◌, ◌-◌, ◌^◌, Bool, true, false, List, [], ◌∷◌, Option, some, none, ◌==◌, ltb, leb,
  if◌then◌else◌, Table, store,
}
use sysrust.Vfs.{same_name}

abbrev pub sym_local : ℕ
sym_local = 0

abbrev sym_global : ℕ
sym_global = 1

abbrev sym_func : ℕ
sym_func = 2

abbrev pub sym_kern_func : ℕ
sym_kern_func = 3

abbrev sym_param : ℕ
sym_param = 4

abbrev sym_const : ℕ
sym_const = 5

abbrev pub type_int : ℕ
type_int = 0

abbrev type_char : ℕ
type_char = 1

abbrev type_void : ℕ
type_void = 2

abbrev type_ptr : ℕ
type_ptr = 3

abbrev pub max_symbols : ℕ
max_symbols = 256

abbrev max_struct_fields : ℕ
max_struct_fields = 16

abbrev max_struct_defs : ℕ
max_struct_defs = 16

pub record Symbol : Type 0 where
  pub name : List ℕ
  pub kind : ℕ
  pub sym_type : ℕ
  pub is_ptr : ℕ
  pub offset : ℕ
  pub addr : ℕ
  pub scope_depth : ℕ
  pub struct_name : List ℕ
  pub is_mutable : ℕ

pub record StructField : Type 0 where
  pub name : List ℕ
  pub field_type : ℕ
  pub is_ptr : ℕ
  pub offset : ℕ
  pub elem_size : ℕ

pub record StructDef : Type 0 where
  pub name : List ℕ
  pub fields : Table StructField
  pub field_count : ℕ
  pub size : ℕ

-- SYMBOLS, SYM_COUNT, CUR_SCOPE, STRUCT_DEFS and STRUCT_DEF_COUNT.
pub record Symbols : Type 0 where
  pub symbols : Table Symbol
  pub sym_count : ℕ
  pub cur_scope : ℕ
  pub struct_defs : Table StructDef
  pub struct_def_count : ℕ

-- strncpy of 31 bytes, and the terminator.
unfoldable pub first : (n : ℕ) → List ℕ → List ℕ
first zero name = []
first (suc n) [] = []
first (suc n) (c ∷ cs) = c ∷ first n cs

-- What add writes; is_mutable stays as it was.
abbrev pub written : (name : List ℕ) (kind sym_type is_ptr offset addr scope : ℕ) → Symbol → Symbol
written name kind sym_type is_ptr offset addr scope old = record old {
  name = first 31 name;
  kind = kind;
  sym_type = sym_type;
  is_ptr = is_ptr;
  offset = offset;
  addr = addr;
  scope_depth = scope;
  struct_name = [];
}

-- 0 for success; 2 ^ 32 - 1 is -1.
abbrev pub add : (name : List ℕ) (kind sym_type is_ptr offset addr : ℕ) → Symbols → ℕ × Symbols
add name kind sym_type is_ptr offset addr s =
    let i = s.sym_count in
    if leb max_symbols i then (2 ^ 32 - 1, s) else (
      0,
      record s {
        symbols =
            store s.symbols i
              (written name kind sym_type is_ptr offset addr s.cur_scope (s.symbols i));
        sym_count = i + 1;
      },
    )

-- The loop of lookup, below `i`.
unfoldable pub search_down : (name : List ℕ) → Table Symbol → (i : ℕ) → Option ℕ
search_down name t zero = none
search_down name t (suc i) =
    let rest = search_down name t i in if same_name (t i).name name then some i else rest

abbrev pub lookup : (name : List ℕ) → Symbols → Option ℕ
lookup name s = search_down name s.symbols s.sym_count

abbrev pub enter_scope : Symbols → Symbols
enter_scope s = record s { cur_scope = s.cur_scope + 1 }

-- The loop of leave_scope: the count that it ends with.
unfoldable pub unwind : (scope : ℕ) → Table Symbol → (i : ℕ) → ℕ
unwind scope t zero = zero
unwind scope t (suc i) =
    let rest = unwind scope t i in if (t i).scope_depth == scope then rest else suc i

-- The subtraction stops at 0, as the guard in the code does.
abbrev pub leave_scope : Symbols → Symbols
leave_scope s = record s {
  sym_count = unwind s.cur_scope s.symbols s.sym_count;
  cur_scope = s.cur_scope - 1;
}

abbrev pub struct_def_add : (name : List ℕ) → Symbols → Option ℕ × Symbols
struct_def_add name s =
    let i = s.struct_def_count in
    if leb max_struct_defs i then (none, s) else (
      some i,
      record s {
        struct_defs =
            store s.struct_defs i
              (record (s.struct_defs i) { name = first 31 name; field_count = 0; size = 0 });
        struct_def_count = i + 1;
      },
    )

-- The first index from `i` whose name is `name`; `n` are left.
unfoldable pub search_up : (name : List ℕ) → Table (List ℕ) → (n i : ℕ) → Option ℕ
search_up name t zero i = none
search_up name t (suc n) i =
    let rest = search_up name t n (i + 1) in if same_name (t i) name then some i else rest

abbrev pub struct_def_lookup : (name : List ℕ) → Symbols → Option ℕ
struct_def_lookup name s = search_up name (λ i. (s.struct_defs i).name) s.struct_def_count 0

-- `none` is a null definition.
abbrev pub struct_field_lookup : (def : Option StructDef) (fieldname : List ℕ) → Option ℕ
struct_field_lookup none fieldname = none
struct_field_lookup (some d) fieldname =
    search_up fieldname (λ i. (d.fields i).name) d.field_count 0
