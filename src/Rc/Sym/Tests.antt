-- ===== src/Rc/Sym/Tests.antt =====
-- Runs of the symbol table of src/rc/sym.rs.
use sysrust.Common.{ℕ, ◌≡◌, ◌<◌, false, List, [], ◌∷◌, some, none, arith, refl}
use sysrust.Vfs.{same_name}
use sysrust.Rc.Sym.{
  Symbols, add, enter_scope, lookup, search_down, search_up, unwind, struct_def_add,
  struct_def_lookup, first, sym_local,
}
use sysrust.Rc.Sym.Builtins.{init, add_builtins, empty_symbol, empty_def}
use sysrust.Rc.Sym.Lookup.{lookup-add}
use sysrust.Rc.Sym.Scopes.{Program, done, declare, block, run, IsScoped, block_restores}

-- "x" and "y"
abbrev x : List ℕ
x = 120 ∷ []

abbrev y : List ℕ
y = 121 ∷ []

abbrev start : Symbols
start = init (λ name. 0)

abbrev bare : Symbols
bare = record {
  symbols = λ i. empty_symbol;
  sym_count = 0;
  cur_scope = 0;
  struct_defs = λ i. empty_def;
  struct_def_count = 0;
}

-- the table with x in the outermost scope
abbrev with_x : Symbols
with_x = (add x sym_local 0 0 4 0 bare).1

-- { let x; { let y } let y }
abbrev body : Program
body =
    declare x sym_local 0 0 8 0
      (block (declare y sym_local 0 0 12 0 done) (declare y sym_local 0 0 16 0 done))

all_builtins : start.sym_count ≡ 31
unfolding add_builtins
all_builtins = refl

shadowed : lookup x (run body (enter_scope with_x)) ≡ some 1
unfolding search_down unwind first
shadowed = refl

-- a name of 32 bytes is stored without its last one, and not found
abbrev long : List ℕ
long =
    97 ∷ 97 ∷ 97 ∷ 97 ∷ 97 ∷ 97 ∷ 97 ∷ 97 ∷ 97 ∷ 97 ∷ 97 ∷ 97 ∷ 97 ∷ 97 ∷ 97 ∷ 97 ∷ 97 ∷ 97 ∷ 97
    ∷ 97 ∷ 97 ∷ 97 ∷ 97 ∷ 97 ∷ 97 ∷ 97 ∷ 97 ∷ 97 ∷ 97 ∷ 97 ∷ 97 ∷ 97 ∷ []

long_name_lost : lookup long (add long sym_local 0 0 4 0 with_x).1 ≡ none
unfolding search_down first
long_name_lost = refl

struct_found : struct_def_lookup y (struct_def_add y (struct_def_add x with_x).1).1 ≡ some 1
unfolding search_up first
struct_found = refl

with_x-IsScoped : IsScoped with_x
with_x-IsScoped = record {
  bounded = omega arith;
  depths = λ i lt. (let e : i ≡ 0 = omega arith in rw e (omega arith));
}

block_restores_example :
    IsScoped (run (block body done) with_x)
    × ((run (block body done) with_x).sym_count ≡ with_x.sym_count)
    × ((run (block body done) with_x).cur_scope ≡ with_x.cur_scope)
    × ((i : ℕ) → i < with_x.sym_count → (run (block body done) with_x).symbols i ≡ with_x.symbols i)
    × ((name : List ℕ) → lookup name (run (block body done) with_x) ≡ lookup name with_x)
block_restores_example = block_restores body with_x with_x-IsScoped

lookup-add_example :
    (lookup (first 31 y) (add y sym_local 0 0 8 0 with_x).1 ≡ some with_x.sym_count)
    × ((other : List ℕ)
        → same_name (first 31 y) other ≡ false
        → lookup other (add y sym_local 0 0 8 0 with_x).1 ≡ lookup other with_x)
lookup-add_example = lookup-add y sym_local 0 0 8 0 with_x (omega arith)
