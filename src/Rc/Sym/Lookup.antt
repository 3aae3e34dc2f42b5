-- ===== src/Rc/Sym/Lookup.antt =====
-- What lookup finds in the symbol table of src/rc/sym.rs.
use sysrust.Common.{
  ℕ, zero, suc, ◌+◌, ◌≡◌, ◌<◌, Bool, true, false, List, some, leb, if◌then◌else◌, Table, store,
  store-hit, store-miss, arith, refl, ap, ◌∙◌,
}
use sysrust.Vfs.{same_name}
use sysrust.Vfs.Lookup.{same_name_refl}
use sysrust.Rc.Sym.{Symbols, Symbol, add, written, lookup, search_down, max_symbols, first}

pub search_down_same :
    (name : List ℕ) (t t' : Table Symbol) (n : ℕ)
    → ((i : ℕ) → i < n → t' i ≡ t i)
    → search_down name t' n ≡ search_down name t n
unfolding search_down
search_down_same name t t' zero same = refl
search_down_same name t t' (suc n) same =
    let e = same n (omega arith) in
    let r = search_down_same name t t' n (λ i lt. same i (omega arith)) in rw (e, r) refl

search_down_next :
    (name : List ℕ) (t : Table Symbol) (n : ℕ) (found : Bool)
    → same_name (t n).name name ≡ found
    → search_down name t (n + 1) ≡ (if found then some n else search_down name t n)
unfolding search_down
search_down_next name t n found e =
    let next : n + 1 ≡ suc n = omega arith in
    ap (search_down name t) next ∙ ap (λ b. if b then some n else search_down name t n) e

-- While the table is not full, lookup of the first 31 bytes of an added name gives the new symbol,
-- and lookup of any other name gives what it gave before.
pub lookup-add :
    (name : List ℕ) (kind sym_type is_ptr offset addr : ℕ) (s : Symbols)
    → s.sym_count < max_symbols
    → (lookup (first 31 name) (add name kind sym_type is_ptr offset addr s).1 ≡ some s.sym_count)
      × ((other : List ℕ)
          → same_name (first 31 name) other ≡ false
          → lookup other (add name kind sym_type is_ptr offset addr s).1 ≡ lookup other s)
lookup-add name kind sym_type is_ptr offset addr s lt =
    let room : leb max_symbols s.sym_count ≡ false = ground (arith, lt) in
    let new = written name kind sym_type is_ptr offset addr s.cur_scope (s.symbols s.sym_count) in
    let t = store s.symbols s.sym_count new in
    let hit = ap (λ x. x.name) (store-hit s.symbols s.sym_count new) in
    rw room (
      search_down_next (first 31 name) t s.sym_count true
          (ap (λ x. same_name x (first 31 name)) hit ∙ same_name_refl (first 31 name)),
      λ other apart.
          search_down_next other t s.sym_count false (ap (λ x. same_name x other) hit ∙ apart)
          ∙ search_down_same other s.symbols t s.sym_count
              (λ i lo. store-miss s.symbols s.sym_count i new (omega (arith, lo))),
    )
