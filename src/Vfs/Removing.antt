-- ===== src/Vfs/Removing.antt =====
-- The child list of a directory of src/vfs.rs without one child.
use sysrust.Common.{
  ℕ, zero, suc, ◌+◌, ◌≡◌, Bool, true, false, ◌&&◌, not, Option, none, some, List, [], ◌∷◌, ◌==◌,
  if◌then◌else◌, length, arith, refl, ap, ◌∙◌, sym, Bool-cases, inl, inr, ==→eq, Table, &&-false,
}
use sysrust.Vfs.{VfsNode, scan, same_name, child_at}
use sysrust.Vfs.Lookup.{AllLive, live-nonzero}

-- The first loop of `unlink`: `i` is the index of the first child of the list.
abbrev pub index_of : Table VfsNode → (name : List ℕ) → (i : ℕ) → List ℕ → Option ℕ
index_of nodes name i [] = none
index_of nodes name i (c ∷ cs) =
    if not (c == 0) && same_name (nodes c).name name then some i else index_of nodes name (i + 1) cs

-- The children after it, shifted down.
abbrev pub removed : (index : ℕ) → List ℕ → List ℕ
removed index [] = []
removed zero (c ∷ cs) = cs
removed (suc index) (c ∷ cs) = c ∷ removed index cs

-- No two of the children have one name.
abbrev pub AreUnique : Table VfsNode → List ℕ → Type 0
AreUnique nodes [] = Unit {0}
AreUnique nodes (c ∷ cs) = (scan nodes (nodes c).name cs ≡ 0) × AreUnique nodes cs

same_name-eq : (xs ys : List ℕ) → same_name xs ys ≡ true → xs ≡ ys
same_name-eq [] [] h = refl
same_name-eq [] (y ∷ ys) h = absurd (cc h)
same_name-eq (x ∷ xs) [] h = absurd (cc h)
same_name-eq (x ∷ xs) (y ∷ ys) h = elim (Bool-cases (x == y)) [
  | inr f ↦ absurd (cc (rw f at h))
  | inl t ↦ let e = ==→eq x y t in let rest = same_name-eq xs ys (rw t at h) in cc (e, rest)
]

-- The index of a name that is found, counted from `i`.
pub record Indexed (nodes : Table VfsNode) (name : List ℕ) (i : ℕ) (cs : List ℕ) : Type 0 where
  pub k : ℕ
  pub index : index_of nodes name i cs ≡ some (i + k)
  pub fewer : length (removed k cs) + 1 ≡ length cs
  pub child : child_at k cs ≡ scan nodes name cs
  pub others :
      (n : List ℕ) → same_name name n ≡ false → scan nodes n (removed k cs) ≡ scan nodes n cs
  pub unique : AreUnique nodes cs → scan nodes name (removed k cs) ≡ 0

module _ (live : Table Bool) (null : live 0 ≡ false) (nodes : Table VfsNode) (name : List ℕ) where
  pub index_of-none :
      (i : ℕ) (cs : List ℕ)
      → AllLive live cs
      → scan nodes name cs ≡ 0
      → index_of nodes name i cs ≡ none
  index_of-none i [] all h = refl
  index_of-none i (c ∷ cs) all h = elim (Bool-cases (same_name (nodes c).name name)) [
    | inr f ↦ rw (f, &&-false (not (c == 0))) (index_of-none (i + 1) cs (all.1) (rw f at h))
    | inl t ↦ absurd (cc (ap (λ k. k == 0) (rw t at h), live-nonzero live null c (all.0)))
  ]

  pub index_of-Indexed :
      (i : ℕ) (cs : List ℕ)
      → AllLive live cs
      → (scan nodes name cs == 0) ≡ false
      → Indexed nodes name i cs
  index_of-Indexed i [] all h = absurd (cc h)
  index_of-Indexed i (c ∷ cs) all h = elim (Bool-cases (same_name (nodes c).name name)) [
    | inl t ↦
        let e = same_name-eq (nodes c).name name t in
        record {
          k = 0;
          index = rw (live-nonzero live null c (all.0), t) (ap some (omega arith));
          fewer = omega arith;
          child = rw t refl;
          others = λ n other. rw (e, other) refl;
          unique = λ u. ap (λ x. scan nodes x cs) (sym e) ∙ u.0;
        }
    | inr f ↦
        let r = index_of-Indexed (i + 1) cs (all.1) (rw f at h) in
        let next : i + 1 + r.k ≡ i + suc r.k = omega arith in
        record {
          k = suc r.k;
          index = rw (f, &&-false (not (c == 0))) (r.index ∙ ap some next);
          fewer = omega (arith, r.fewer);
          child = rw f r.child;
          others =
              λ n other. ap (λ k. if same_name (nodes c).name n then c else k) (r.others n other);
          unique = λ u. rw f (r.unique (u.1));
        }
  ]
