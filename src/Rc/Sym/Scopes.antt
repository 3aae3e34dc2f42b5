-- ===== src/Rc/Sym/Scopes.antt =====
-- The scopes of src/rc/sym.rs: declarations in nested blocks, and what a block leaves behind.
use sysrust.Common.{
  ℕ, zero, suc, ◌+◌, ◌-◌, ◌≡◌, ◌≢◌, ◌≤◌, ◌<◌, true, false, List, ◌==◌, ltb, leb, Table, store-hit,
  store-miss, arith, refl, ap, ◌∙◌, sym, Bool-cases, inl, inr, ◌⊎◌,
}
use sysrust.Rc.Sym.Lookup.{search_down_same}
use sysrust.Rc.Sym.{
  Symbols, Symbol, add, written, enter_scope, leave_scope, lookup, search_down, unwind, max_symbols,
}

-- The calls that a program with nested blocks gives rise to.
pub data Program : Type 0 where
  done : Program
  declare : (name : List ℕ) (kind sym_type is_ptr offset addr : ℕ) → Program → Program
  block : (body rest : Program) → Program

abbrev pub run : Program → Symbols → Symbols
run done s = s
run (declare name kind sym_type is_ptr offset addr rest) s =
    run rest (add name kind sym_type is_ptr offset addr s).1
run (block body rest) s = run rest (leave_scope (run body (enter_scope s)))

-- The table is within its size, and no symbol is of a deeper scope than the current one.
pub record IsScoped (s : Symbols) : Type 0 where
  pub bounded : s.sym_count ≤ max_symbols
  pub depths : (i : ℕ) → i < s.sym_count → (s.symbols i).scope_depth ≤ s.cur_scope

-- The symbols of `s` are kept, and those behind them are of its scope.
record Kept (s s' : Symbols) : Type 0 where
  scope : s'.cur_scope ≡ s.cur_scope
  bounded : s'.sym_count ≤ max_symbols
  grows : s.sym_count ≤ s'.sym_count
  same : (i : ℕ) → i < s.sym_count → s'.symbols i ≡ s.symbols i
  added : (i : ℕ) → s.sym_count ≤ i → i < s'.sym_count → (s'.symbols i).scope_depth ≡ s.cur_scope

below : (n i : ℕ) → (i < n) ⊎ (n ≤ i)
below n i = elim (Bool-cases (ltb i n)) [
  | inl lt ↦ inl (ground arith)
  | inr ge ↦ inr (ground arith)
]

Kept-IsScoped : (s s' : Symbols) → IsScoped s → Kept s s' → IsScoped s'
Kept-IsScoped s s' h k = record {
  bounded = k.bounded;
  depths = λ i lt. elim (below s.sym_count i) [
    | inl old ↦ let e = k.same i old in rw e (let d = h.depths i old in omega (arith, d, k.scope))
    | inr new ↦ omega (arith, k.added i new lt, k.scope)
  ];
}

Kept-trans : (s s1 s2 : Symbols) → Kept s s1 → Kept s1 s2 → Kept s s2
Kept-trans s s1 s2 a b = record {
  scope = b.scope ∙ a.scope;
  bounded = b.bounded;
  grows = omega (arith, a.grows, b.grows);
  same = λ i lt. b.same i (omega (arith, lt, a.grows)) ∙ a.same i lt;
  added = λ i lo hi. elim (below s1.sym_count i) [
    | inl old ↦ ap (λ x. x.scope_depth) (b.same i old) ∙ a.added i lo old
    | inr new ↦ b.added i new hi ∙ a.scope
  ];
}

add-Kept :
    (name : List ℕ) (kind sym_type is_ptr offset addr : ℕ) (s : Symbols)
    → s.sym_count ≤ max_symbols
    → Kept s (add name kind sym_type is_ptr offset addr s).1
add-Kept name kind sym_type is_ptr offset addr s bound =
    elim (Bool-cases (leb max_symbols s.sym_count)) [
      | inl full ↦ rw full (record {
        scope = refl;
        bounded = bound;
        grows = omega arith;
        same = λ i lt. refl;
        added = λ i lo hi. absurd (omega arith);
      })
      | inr room ↦
          let lt : s.sym_count < max_symbols = ground arith in
          rw room (record {
            scope = refl;
            bounded = omega arith;
            grows = omega arith;
            same = λ i lt.
                store-miss s.symbols s.sym_count i
                  (written name kind sym_type is_ptr offset addr s.cur_scope
                    (s.symbols s.sym_count))
                  (omega arith);
            added = λ i lo hi.
                (let e : i ≡ s.sym_count = omega arith in
                  rw e (
                    ap (λ x. x.scope_depth)
                      (store-hit s.symbols s.sym_count (
                        written name kind sym_type is_ptr offset addr s.cur_scope
                          (s.symbols s.sym_count)))));
          })
    ]

unwind-below :
    (scope : ℕ) (t : Table Symbol) (n : ℕ)
    → ((i : ℕ) → i < n → (t i).scope_depth ≢ scope)
    → unwind scope t n ≡ n
unfolding unwind
unwind-below scope t zero other = refl
unwind-below scope t (suc n) other =
    let e : ((t n).scope_depth == scope) ≡ false = ground (arith, other n) in rw (unwind, e) refl

-- The symbols of the scope that is left are behind those of `s`.
unwind_stops :
    (scope : ℕ) (t : Table Symbol) (k n m : ℕ)
    → n + k ≡ m
    → ((i : ℕ) → i < n → (t i).scope_depth ≢ scope)
    → ((i : ℕ) → n ≤ i → i < m → (t i).scope_depth ≡ scope)
    → unwind scope t m ≡ n
unfolding unwind
unwind_stops scope t zero n m at other of_it =
    let e : m ≡ n = omega (arith, at) in rw e (unwind-below scope t n other)
unwind_stops scope t (suc k) n zero at other of_it = absurd (omega (arith, at))
unwind_stops scope t (suc k) n (suc m) at other of_it =
    let e : ((t m).scope_depth == scope) ≡ true = ground (arith, of_it m, at) in
    rw (unwind, e)
      (unwind_stops scope t k n m (omega (arith, at)) other
        (λ i lo hi. of_it i lo (omega (arith, hi))))

leave_scope-Kept :
    (s s' : Symbols)
    → IsScoped s
    → Kept (enter_scope s) s'
    → Kept s (leave_scope s') × ((leave_scope s').sym_count ≡ s.sym_count)
leave_scope-Kept s s' h k =
    let extra = s'.sym_count - s.sym_count in
    let e : s.sym_count + extra ≡ s'.sym_count = omega (arith, k.grows) in
    let stops =
      unwind_stops s'.cur_scope s'.symbols extra s.sym_count s'.sym_count e
        (λ i lt.
          let d = h.depths i lt in
          let e1 = ap (λ x. x.scope_depth) (k.same i lt) in omega (arith, d, e1, k.scope))
        (λ i lo hi. k.added i lo hi ∙ sym k.scope) in
    let count : (leave_scope s').sym_count ≡ s.sym_count = stops in
    (
      record {
        scope = omega (arith, k.scope);
        bounded = omega (arith, count, h.bounded);
        grows = omega (arith, count);
        same = k.same;
        added = λ i lo hi. absurd (omega (arith, lo, hi, count));
      },
      count,
    )

enter_scope-IsScoped : (s : Symbols) → IsScoped s → IsScoped (enter_scope s)
enter_scope-IsScoped s h = record {
  bounded = h.bounded;
  depths = λ i lt. let d = h.depths i lt in omega (arith, d);
}

run-Kept : (p : Program) (s : Symbols) → IsScoped s → Kept s (run p s)
run-Kept done s h = record {
  scope = refl;
  bounded = h.bounded;
  grows = omega arith;
  same = λ i lt. refl;
  added = λ i lo hi. absurd (omega arith);
}
run-Kept (declare name kind sym_type is_ptr offset addr rest) s h =
    let s1 = (add name kind sym_type is_ptr offset addr s).1 in
    let k = add-Kept name kind sym_type is_ptr offset addr s h.bounded in
    Kept-trans s s1 (run rest s1) k (run-Kept rest s1 (Kept-IsScoped s s1 h k))
run-Kept (block body rest) s h =
    let s1 = run body (enter_scope s) in
    let k =
      (leave_scope-Kept s s1 h (run-Kept body (enter_scope s) (enter_scope-IsScoped s h))).0 in
    Kept-trans s (leave_scope s1) (run rest (leave_scope s1)) k
      (run-Kept rest (leave_scope s1) (Kept-IsScoped s (leave_scope s1) h k))

-- From a table within its size whose symbols are of no deeper scope than the current one,
-- enter_scope, any calls of add and any nested blocks, and then leave_scope give a table with the
-- same property, the same number of symbols, the same scope, the same symbols below that number,
-- and the same answer of lookup for every name, also when the table is full on the way.
pub block_restores :
    (body : Program) (s : Symbols)
    → IsScoped s
    → IsScoped (run (block body done) s)
      × ((run (block body done) s).sym_count ≡ s.sym_count)
      × ((run (block body done) s).cur_scope ≡ s.cur_scope)
      × ((i : ℕ) → i < s.sym_count → (run (block body done) s).symbols i ≡ s.symbols i)
      × ((name : List ℕ) → lookup name (run (block body done) s) ≡ lookup name s)
block_restores body s h =
    let s1 = run body (enter_scope s) in
    let (k, count) =
      leave_scope-Kept s s1 h (run-Kept body (enter_scope s) (enter_scope-IsScoped s h)) in
    (
      Kept-IsScoped s (leave_scope s1) h k,
      count,
      k.scope,
      k.same,
      λ name.
          ap (search_down name s1.symbols) count
          ∙ search_down_same name s.symbols s1.symbols s.sym_count k.same,
    )
