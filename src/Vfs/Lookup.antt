-- ===== src/Vfs/Lookup.antt =====
-- The lookup of a name in a directory of src/vfs.rs.
use sysrust.Common.{
  ℕ, ◌≡◌, Bool, true, false, not, Option, none, some, List, [], ◌∷◌, ◌++◌, ◌==◌, if◌then◌else◌,
  arith, refl, ap, Bool-cases, inl, inr, ==→eq, Table,
}
use sysrust.Vfs.{
  Vfs, VfsNode, DirFn, finddir, default_finddir, chosen, scan, same_name, is_directory,
}

-- finddir goes through the children of the node.
abbrev pub looks_fn : (flags : ℕ) → Option DirFn → Bool
looks_fn flags none = false
looks_fn flags (some DirFn.default_dir) = is_directory flags
looks_fn flags (some DirFn.ramfs_dir) = is_directory flags
looks_fn flags (some DirFn.devfs_dir) = true
looks_fn flags (some DirFn.disk_dir) = false

abbrev pub looks : VfsNode → Bool
looks node = looks_fn node.flags node.finddir_fn

-- Not the directory of the disk, and a directory has a lookup.
abbrev pub plain_fn : (flags : ℕ) → Option DirFn → Bool
plain_fn flags none = not (is_directory flags)
plain_fn flags (some DirFn.default_dir) = true
plain_fn flags (some DirFn.ramfs_dir) = true
plain_fn flags (some DirFn.devfs_dir) = true
plain_fn flags (some DirFn.disk_dir) = false

abbrev pub is_plain : VfsNode → Bool
is_plain node = plain_fn node.flags node.finddir_fn

looks_fn-directory :
    (flags : ℕ) (f : Option DirFn)
    → plain_fn flags f ≡ true
    → is_directory flags ≡ true
    → looks_fn flags f ≡ true
looks_fn-directory flags none p d = absurd (cc (rw d at p))
looks_fn-directory flags (some DirFn.default_dir) p d = d
looks_fn-directory flags (some DirFn.ramfs_dir) p d = d
looks_fn-directory flags (some DirFn.devfs_dir) p d = refl
looks_fn-directory flags (some DirFn.disk_dir) p d = absurd (cc p)

pub looks-directory :
    (node : VfsNode) → is_plain node ≡ true → is_directory node.flags ≡ true → looks node ≡ true
looks-directory node p d = looks_fn-directory node.flags node.finddir_fn p d

chosen-plain_fn :
    (f : Option DirFn) (flags scanned on_disk : ℕ)
    → plain_fn flags f ≡ true
    → chosen f (if is_directory flags then scanned else 0) scanned on_disk
      ≡ (if looks_fn flags f then scanned else 0)
chosen-plain_fn none flags scanned on_disk p = refl
chosen-plain_fn (some DirFn.default_dir) flags scanned on_disk p = refl
chosen-plain_fn (some DirFn.ramfs_dir) flags scanned on_disk p = refl
chosen-plain_fn (some DirFn.devfs_dir) flags scanned on_disk p = refl
chosen-plain_fn (some DirFn.disk_dir) flags scanned on_disk p = absurd (cc p)

pub finddir-scan :
    (disk : List ℕ → ℕ) (dir : ℕ) (name : List ℕ) (s : Vfs)
    → (dir == 0) ≡ false
    → is_plain (s.nodes dir) ≡ true
    → finddir disk dir name s
      ≡ (if looks (s.nodes dir) then scan s.nodes name (s.nodes dir).children else 0)
unfolding finddir default_finddir
finddir-scan disk dir name s nz plain = rw nz (
    chosen-plain_fn (s.nodes dir).finddir_fn (s.nodes dir).flags
      (scan s.nodes name (s.nodes dir).children) (disk name) plain)

-- Every node of the list is in the tree.
abbrev pub AllLive : Table Bool → List ℕ → Type 0
AllLive live [] = Unit {0}
AllLive live (c ∷ cs) = (live c ≡ true) × AllLive live cs

module _ (live : Table Bool) (null : live 0 ≡ false) where
  pub live-nonzero : (d : ℕ) → live d ≡ true → (d == 0) ≡ false
  live-nonzero d h = elim (Bool-cases (d == 0)) [
    | inr f ↦ f
    | inl t ↦ absurd (cc (h, ap live (==→eq d 0 t), null))
  ]

  pub scan-live :
      (nodes : Table VfsNode) (name : List ℕ) (cs : List ℕ)
      → AllLive live cs
      → (scan nodes name cs == 0) ≡ false
      → live (scan nodes name cs) ≡ true
  scan-live nodes name [] all nz = absurd (cc nz)
  scan-live nodes name (c ∷ cs) all nz = elim (Bool-cases (same_name (nodes c).name name)) [
    | inl t ↦ rw t (all.0)
    | inr f ↦ rw f (scan-live nodes name cs (all.1) (rw f at nz))
  ]

  -- The lookup reads the names of the children only.
  pub scan-same :
      (nodes nodes' : Table VfsNode) (name : List ℕ) (cs : List ℕ)
      → AllLive live cs
      → ((c : ℕ) → live c ≡ true → (nodes' c).name ≡ (nodes c).name)
      → scan nodes' name cs ≡ scan nodes name cs
  scan-same nodes nodes' name [] all same = refl
  scan-same nodes nodes' name (c ∷ cs) all same =
      rw (same c (all.0), scan-same nodes nodes' name cs (all.1) same) refl

  pub scan-append :
      (nodes : Table VfsNode) (name : List ℕ) (cs : List ℕ) (d : ℕ)
      → AllLive live cs
      → scan nodes name (cs ++ (d ∷ [])) ≡ (
          if scan nodes name cs == 0
          then (if same_name (nodes d).name name then d else 0)
          else scan nodes name cs)
  scan-append nodes name [] d all = refl
  scan-append nodes name (c ∷ cs) d all = elim (Bool-cases (same_name (nodes c).name name)) [
    | inl t ↦ rw (t, live-nonzero c (all.0)) refl
    | inr f ↦ rw f (scan-append nodes name cs d (all.1))
  ]

  pub AllLive-append :
      (cs : List ℕ) (d : ℕ) → AllLive live cs → live d ≡ true → AllLive live (cs ++ (d ∷ []))
  AllLive-append [] d all h = (h, tt)
  AllLive-append (c ∷ cs) d all h = (all.0, AllLive-append cs d (all.1) h)

pub AllLive-kept :
    (live live' : Table Bool) (cs : List ℕ)
    → ((c : ℕ) → live c ≡ true → live' c ≡ true)
    → AllLive live cs
    → AllLive live' cs
AllLive-kept live live' [] kept all = tt
AllLive-kept live live' (c ∷ cs) kept all =
    (kept c (all.0), AllLive-kept live live' cs kept (all.1))

pub same_name_refl : (xs : List ℕ) → same_name xs xs ≡ true
same_name_refl [] = refl
same_name_refl (x ∷ xs) = let e : (x == x) ≡ true = ground arith in rw e (same_name_refl xs)
