-- ===== src/Vfs/Unlinking.antt =====
-- unlink and unlink_path of src/vfs.rs.
use sysrust.Common.{
  ℕ, zero, suc, ◌+◌, ◌≡◌, ◌≢◌, ◌↔◌, Bool, true, false, ◌||◌, not, Option, none, some, List, [], ◌∷◌,
  ◌==◌, leb, if◌then◌else◌, length, arith, refl, ap, ◌∙◌, sym, Bool-cases, inl, inr, ==→eq, Table,
  store, store-hit, store-miss,
}
use native.Mathlib.Decide.{ℕ_discrete}
use sysrust.Heap.{Heap}
use sysrust.Heap.Contents.{Live}
use sysrust.Heap.Expand.{IsHeap}
use sysrust.Vfs.Removing.{index_of, removed, AreUnique, index_of-none, index_of-Indexed}
use sysrust.Vfs.Freeing.{free_node, IsBlockOf, OwnsBlocks, free_node-Freed}
use sysrust.Vfs.{Vfs, VfsNode, finddir, scan, same_name, shortened, is_directory, child_at}
use sysrust.Vfs.Lookup.{looks-directory, finddir-scan, live-nonzero}
use sysrust.Vfs.Trees.{IsVfs}
use sysrust.Vfs.Paths.{slash, resolve_path}

-- The index of the last slash.
abbrev pub last_slash : (i : ℕ) → List ℕ → Option ℕ
last_slash i [] = none
last_slash i (c ∷ cs) = elim (last_slash (i + 1) cs) [
  | some j ↦ some j
  | none ↦ if c == slash then some i else none
]

-- The path from an index on.
abbrev pub path_from : (i : ℕ) → List ℕ → List ℕ
path_from zero cs = cs
path_from (suc i) [] = []
path_from (suc i) (c ∷ cs) = path_from i cs

-- `first_word` is the word of memory at an address.
module _ (first_word : Table ℕ) where
  unfoldable pub unlink : (parent : ℕ) → (name : List ℕ) → Vfs → Heap → Option (Bool × Vfs × Heap)
  unlink parent name s h =
      let p = s.nodes parent in
      let found : Option (Bool × Vfs × Heap) = elim (index_of s.nodes name 0 p.children) [
        | none ↦ some (false, s, h)
        | some idx ↦ elim (free_node first_word (child_at idx p.children) s h) [
          | none ↦ none
          | some h' ↦ some (
            true,
            record s {
              nodes = store s.nodes parent (record p { children = removed idx p.children });
            },
            h',
          )
        ]
      ] in
      if parent == 0
      then some (false, s, h)
      else if not (is_directory p.flags)
      then some (false, s, h)
      else found

module _ (disk : List ℕ → ℕ) (first_word : Table ℕ) where
  -- The directory and the name that the path splits into; null for a path that is too long.
  unfoldable pub split_path : (fuel : ℕ) → (path : List ℕ) → Vfs → Option (ℕ × List ℕ)
  split_path fuel path s = elim (last_slash 0 path) [
    | none ↦ some (s.root, path)
    | some zero ↦ some (s.root, path_from 1 path)
    | some (suc k) ↦
        let parent : Option (ℕ × List ℕ) =
          elim (resolve_path disk fuel (shortened (suc k) path) s) [
            | none ↦ none
            | some dir ↦ some (dir, path_from (suc k + 1) path)
          ] in
        if leb 255 (suc k) then some (0, []) else parent
  ]

  -- On the fuel of the walk to the directory; the inner result is that of `unlink`.
  unfoldable pub unlink_path :
      (fuel : ℕ) → (path : List ℕ) → Vfs → Heap → Option (Option (Bool × Vfs × Heap))
  unlink_path fuel path s h =
      let split : Option (Option (Bool × Vfs × Heap)) = elim (split_path fuel path s) [
        | none ↦ none
        | some (parent, name) ↦
            if (parent == 0) || (length name == 0)
            then some (some (false, s, h))
            else some (unlink first_word parent name s h)
      ] in
      if length path == 0 then some (some (false, s, h)) else split

scan-names :
    (nodes nodes' : Table VfsNode) (name : List ℕ) (cs : List ℕ)
    → ((c : ℕ) → (nodes' c).name ≡ (nodes c).name)
    → scan nodes' name cs ≡ scan nodes name cs
scan-names nodes nodes' name [] same = refl
scan-names nodes nodes' name (c ∷ cs) same = rw (same c, scan-names nodes nodes' name cs same) refl

-- What unlink did to the directory, on the nodes of a tree.
pub record Unlinked (disk : List ℕ → ℕ) (parent : ℕ) (name : List ℕ) (s : Vfs) (found : Bool)
    (s' : Vfs) : Type 0 where
  pub fails : found ≡ false → (s' ≡ s) × (finddir disk parent name s ≡ 0)
  pub fewer :
      found ≡ true → length (s'.nodes parent).children + 1 ≡ length (s.nodes parent).children
  pub others :
      (n : List ℕ) → same_name name n ≡ false → finddir disk parent n s' ≡ finddir disk parent n s
  pub gone :
      found ≡ true → AreUnique s.nodes (s.nodes parent).children → finddir disk parent name s' ≡ 0
  pub elsewhere : (d : ℕ) → d ≢ parent → s'.nodes d ≡ s.nodes d

module _ (disk : List ℕ → ℕ) (live : Table Bool) (parent : ℕ) (s : Vfs) (v : IsVfs live s)
    (h : live parent ≡ true) (directory : is_directory (s.nodes parent).flags ≡ true) where
  finddir-children :
      (n : List ℕ) → finddir disk parent n s ≡ scan s.nodes n (s.nodes parent).children
  finddir-children n =
      finddir-scan disk parent n s (live-nonzero live v.null parent h) (v.plain parent h)
      ∙ ap (λ b. if b then scan s.nodes n (s.nodes parent).children else 0)
          (looks-directory (s.nodes parent) (v.plain parent h) directory)

  abbrev with_children : List ℕ → VfsNode
  with_children cs = record (s.nodes parent) { children = cs }

  abbrev shrunk : List ℕ → Vfs
  shrunk cs = record s { nodes = store s.nodes parent (with_children cs) }

  shrunk-parent : (cs : List ℕ) → (shrunk cs).nodes parent ≡ with_children cs
  shrunk-parent cs = store-hit s.nodes parent (with_children cs)

  shrunk-names : (cs : List ℕ) (c : ℕ) → ((shrunk cs).nodes c).name ≡ (s.nodes c).name
  shrunk-names cs c = elim (ℕ_discrete c parent) [
    | yes e ↦ rw (e, shrunk-parent cs) refl
    | no ne ↦ ap (λ (n : VfsNode). n.name) (store-miss s.nodes parent c (with_children cs) ne)
  ]

  finddir-shrunk :
      (cs : List ℕ) (n : List ℕ) → finddir disk parent n (shrunk cs) ≡ scan s.nodes n cs
  finddir-shrunk cs n =
      finddir-scan disk parent n (shrunk cs) (live-nonzero live v.null parent h)
        (rw (shrunk-parent cs) (v.plain parent h))
      ∙ rw (shrunk-parent cs) (
          ap (λ b. if b then scan (shrunk cs).nodes n cs else 0)
            (looks-directory (s.nodes parent) (v.plain parent h) directory))
      ∙ scan-names s.nodes (shrunk cs).nodes n cs (shrunk-names cs)

  module _ (first_word : Table ℕ) (name : List ℕ) (heap : Heap) (w : IsHeap heap)
      (owns : let c = scan s.nodes name (s.nodes parent).children in
        c ≢ 0 → OwnsBlocks first_word c (s.nodes c).private_data heap) where
    -- In a directory of a tree of nodes, on a well-formed heap of heap.rs, for a name that is not
    -- found or leads to a node that is an allocation, with private data that are null or an
    -- allocation, which begin with null or the address of an allocation, all different, unlink
    -- ends and leaves the heap well formed. It returns -1 only where the name is not found, and
    -- changes nothing then; otherwise exactly these allocations are gone, and the directory has
    -- one child fewer, and no child of the name any more if its children had different names.
    -- Every other name in the directory leads where it led, and no other node changes.
    pub unlink-Unlinked :
        (r : Bool × Vfs × Heap) × (unlink first_word parent name s heap ≡ some r)
        × Unlinked disk parent name s r.0 r.1
        × IsHeap r.2
        × (let c = scan s.nodes name (s.nodes parent).children in
            (q n : ℕ)
            → Live q n r.2.blocks ↔ (
                Live q n heap.blocks
                × (r.0 ≡ true → ¬ IsBlockOf first_word c (s.nodes c).private_data q)))
    unfolding unlink
    unlink-Unlinked =
        let cs = (s.nodes parent).children in
        let c = scan s.nodes name cs in
        let nz = live-nonzero live v.null parent h in
        elim (Bool-cases (scan s.nodes name cs == 0)) [
          | inl z ↦
              let e = ==→eq _ 0 z in
              (
                (false, s, heap),
                rw
                    (
                      unlink,
                      nz,
                      directory,
                      index_of-none live v.null s.nodes name 0 cs (v.below parent h) e,
                    )
                    refl,
                record {
                  fails = λ f. (refl, finddir-children name ∙ e);
                  fewer = λ t. absurd (cc t);
                  others = λ n other. refl;
                  gone = λ t. absurd (cc t);
                  elsewhere = λ d ne. refl;
                },
                w,
                λ q n. (λ l. (l, λ t. absurd (cc t)), λ l. l.0),
              )
          | inr f ↦
              let r = index_of-Indexed live v.null s.nodes name 0 cs (v.below parent h) f in
              let at : index_of s.nodes name 0 cs ≡ some r.k = r.index ∙ ap some (omega arith) in
              let (heap', freed, w', left) =
                free_node-Freed first_word c s heap w (owns (ground arith)) in
              (
                (true, shrunk (removed r.k cs), heap'),
                rw (unlink, nz, directory, at, r.child, freed) refl,
                record {
                  fails = λ f. absurd (cc f);
                  fewer = λ t. rw (shrunk-parent (removed r.k cs)) r.fewer;
                  others = λ n other.
                      finddir-shrunk (removed r.k cs) n
                      ∙ r.others n other
                      ∙ sym (finddir-children n);
                  gone = λ t u. finddir-shrunk (removed r.k cs) name ∙ r.unique u;
                  elsewhere =
                      λ d ne. store-miss s.nodes parent d (with_children (removed r.k cs)) ne;
                },
                w',
                λ q n. (
                  λ l. let (old, out) = (left q n).0 l in (old, λ t. out),
                  λ l. (left q n).1 (l.0, l.1 refl),
                ),
              )
        ]
