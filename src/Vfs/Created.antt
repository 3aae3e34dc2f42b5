-- ===== src/Vfs/Created.antt =====
-- mkdir_p of src/vfs.rs: what it returns is what resolve_path finds afterwards.
use sysrust.Common.{
  ℕ, zero, suc, ◌≡◌, ◌<◌, Bool, true, false, Option, some, List, [], ◌∷◌, ◌==◌, length, arith, refl,
  ap, ◌∙◌, sym, inl, inr, Table, ◌⊎◌,
}
use sysrust.Vfs.{Vfs, NodeHeap, finddir}
use sysrust.Vfs.Lookup.{live-nonzero}
use sysrust.Vfs.Trees.{Allocator, Keeps, Keeps-refl, Keeps-trans}
use sysrust.Vfs.Paths.{
  slash, skip_slashes, next_component, enter, mkdir_loop, mkdir_p, resolve_path,
}
use sysrust.Vfs.Components.{
  components, descend, components-skip_slashes, components-next_component, StartsAtName,
  skip_slashes-StartsAtName, skip_slashes-shorter, shortened-next_component, next_component-shorter,
  next_component-StartsAtName, resolve_path-descend,
}
use sysrust.Vfs.Entering.{IsReady, Entered, enter-Entered}

module _ (disk : List ℕ → ℕ) (heap : NodeHeap) (allocator : Allocator heap) where
  open heap use {State}

  mkdir_loop-null :
      (fuel : ℕ) (p : List ℕ) (s : Vfs) (st : State)
      → length p < fuel
      → mkdir_loop disk heap fuel p 0 s st ≡ some (0, s, st)
  unfolding mkdir_loop
  mkdir_loop-null zero p s st enough = absurd (omega (arith, enough))
  mkdir_loop-null (suc fuel) [] s st enough = refl
  mkdir_loop-null (suc fuel) (c ∷ cs) s st enough = refl

  -- The walk ended: at the node that the components lead to afterwards, or at null.
  record Walked (p : List ℕ) (cur : ℕ) (live : Table Bool) (s : Vfs) (o : Option (ℕ × Vfs × State))
      : Type 0 where
    dir : ℕ
    s1 : Vfs
    st1 : State
    live1 : Table Bool
    ends : o ≡ some (dir, s1, st1)
    ready : IsReady disk heap allocator live1 s1 st1
    keeps : Keeps disk live s live1 s1
    result : (dir ≡ 0) ⊎ ((live1 dir ≡ true) × (descend disk (components p) cur s1 ≡ dir))

  -- One component further.
  further :
      (c : ℕ) (cs : List ℕ) (cur : ℕ) (live : Table Bool) (s : Vfs) (r : ℕ × Vfs × State)
      (e : Entered disk heap allocator cur (next_component (c ∷ cs)).0 live s r)
      (o : Option (ℕ × Vfs × State))
      → (c == slash) ≡ false
      → live cur ≡ true
      → e.live1 r.0 ≡ true
      → finddir disk cur (next_component (c ∷ cs)).0 r.1 ≡ r.0
      → Walked (next_component (c ∷ cs)).1 r.0 e.live1 r.1 o
      → Walked (c ∷ cs) cur live s o
  further c cs cur live s r e o ok at there found w =
      let name = (next_component (c ∷ cs)).0 in
      let rest = (next_component (c ∷ cs)).1 in
      let nz : (finddir disk cur name r.1 == 0) ≡ false =
        ap (λ k. k == 0) found ∙ live-nonzero e.live1 e.ready.tree.null r.0 there in
      let still = w.keeps.finds cur name (e.keeps.lives cur at) nz ∙ found in
      record {
        dir = w.dir;
        s1 = w.s1;
        st1 = w.st1;
        live1 = w.live1;
        ends = w.ends;
        ready = w.ready;
        keeps = Keeps-trans disk live s e.live1 r.1 w.live1 w.s1 e.keeps w.keeps;
        result = elim w.result [
          | inl z ↦ inl z
          | inr (here, led) ↦ inr (
            here,
            ap (λ l. descend disk l cur w.s1) (components-next_component c cs ok)
                ∙ ap (λ d. descend disk (components rest) d w.s1) still
                ∙ led,
          )
        ];
      }

  mkdir_loop-Walked :
      (fuel : ℕ) (p : List ℕ) (cur : ℕ) (live : Table Bool) (s : Vfs) (st : State)
      → IsReady disk heap allocator live s st
      → live cur ≡ true
      → StartsAtName p
      → length p < fuel
      → Walked p cur live s (mkdir_loop disk heap fuel p cur s st)
  unfolding mkdir_loop
  mkdir_loop-Walked zero p cur live s st v at ok enough = absurd (omega (arith, enough))
  mkdir_loop-Walked (suc fuel) [] cur live s st v at ok enough = record {
    dir = cur;
    s1 = s;
    st1 = st;
    live1 = live;
    ends = refl;
    ready = v;
    keeps = Keeps-refl disk live s;
    result = inr (at, refl);
  }
  mkdir_loop-Walked (suc fuel) (c ∷ cs) cur live s st v at ok enough =
      let (name, rest) = next_component (c ∷ cs) in
      let r = enter disk heap cur name s st in
      let e =
        enter-Entered disk heap allocator cur name live s st v at
          (shortened-next_component (c ∷ cs)) in
      let nz = live-nonzero live v.tree.null cur at in
      let shorter = next_component-shorter c cs ok in
      let enough' : length rest < fuel = omega (arith, shorter, enough) in
      elim e.result [
        | inl z ↦
            rw (mkdir_loop, nz, z, mkdir_loop-null fuel rest r.1 r.2 enough')
              (record {
                dir = 0;
                s1 = r.1;
                st1 = r.2;
                live1 = e.live1;
                ends = refl;
                ready = e.ready;
                keeps = e.keeps;
                result = inl refl;
              })
        | inr (there, found) ↦
            let w =
              mkdir_loop-Walked fuel rest r.0 e.live1 r.1 r.2 e.ready there
                (next_component-StartsAtName c cs) enough' in
            rw (mkdir_loop, nz)
              (further c cs cur live s r e (mkdir_loop disk heap fuel rest r.0 r.1 r.2) ok at there
                found w)
      ]

  -- What mkdir_p did.
  pub record Created (fuel : ℕ) (path : List ℕ) (live : Table Bool) (s : Vfs)
      (o : Option (ℕ × Vfs × State)) : Type 0 where
    pub dir : ℕ
    pub vfs : Vfs
    pub state : State
    pub tree : Table Bool
    pub ends : o ≡ some (dir, vfs, state)
    pub ready : IsReady disk heap allocator tree vfs state
    pub keeps : Keeps disk live s tree vfs
    pub result : (dir ≡ 0) ⊎ ((tree dir ≡ true) × (resolve_path disk fuel path vfs ≡ some dir))

  -- On a tree of nodes without the directory of the disk, with at most 128 children each, a heap
  -- that keeps to its contract and fuel above the length of the path, mkdir_p ends and leaves such
  -- a tree and heap; every name that a directory of the old tree had still leads to the same node;
  -- and the result is null, or a node of the new tree to which resolve_path of the same path then
  -- leads.
  pub mkdir_p-Created :
      (fuel : ℕ) (path : List ℕ) (live : Table Bool) (s : Vfs) (st : State)
      → IsReady disk heap allocator live s st
      → length path < fuel
      → Created fuel path live s (mkdir_p disk heap fuel path s st)
  unfolding mkdir_p
  mkdir_p-Created fuel path live s st v enough =
      let p = skip_slashes path in
      let w =
        mkdir_loop-Walked fuel p s.root live s st v v.tree.at_root (skip_slashes-StartsAtName path)
          (omega (arith, skip_slashes-shorter path, enough)) in
      record {
        dir = w.dir;
        vfs = w.s1;
        state = w.st1;
        tree = w.live1;
        ends = w.ends;
        ready = w.ready;
        keeps = w.keeps;
        result = elim w.result [
          | inl z ↦ inl z
          | inr (here, led) ↦ inr (
            here,
            resolve_path-descend disk fuel path w.s1 enough
                ∙ ap some (
                    ap (λ d. descend disk (components path) d w.s1) w.keeps.same_root
                    ∙ ap (λ l. descend disk l s.root w.s1) (sym (components-skip_slashes path))
                    ∙ led),
          )
        ];
      }
