-- ===== src/Vfs/Components.antt =====
-- The loop of resolve_path in src/vfs.rs against the list of the components of the path.
use sysrust.Common.{
  ℕ, zero, suc, ◌≡◌, ◌≤◌, ◌<◌, false, some, List, [], ◌∷◌, ◌++◌, ◌==◌, if◌then◌else◌, length, arith,
  refl, ap, ◌∙◌, sym, Bool-cases, inl, inr, ==→eq,
}
use sysrust.Vfs.{Vfs, finddir, shortened}
use sysrust.Vfs.Paths.{
  slash, skip_slashes, take_component, skip_component, next_component, resolve_loop, resolve_path,
}

-- A component that ends, without its bytes past 63; nothing between two slashes.
abbrev pub emit : (component : List ℕ) → List (List ℕ) → List (List ℕ)
emit [] rest = rest
emit (c ∷ cs) rest = shortened 63 (c ∷ cs) ∷ rest

-- The path is split at its slashes; `before` is the part of a component already read.
abbrev pub split : (before path : List ℕ) → List (List ℕ)
split before [] = emit before []
split before (c ∷ cs) =
    if c == slash then emit before (split [] cs) else split (before ++ (c ∷ [])) cs

abbrev pub components : List ℕ → List (List ℕ)
components path = split [] path

-- Each name is looked up in the directory before it; a missing one is null, in which nothing is found.
abbrev pub descend : (disk : List ℕ → ℕ) → (names : List (List ℕ)) → (dir : ℕ) → Vfs → ℕ
descend disk [] dir s = dir
descend disk (name ∷ names) dir s = descend disk names (finddir disk dir name s) s

finddir-null : (disk : List ℕ → ℕ) (name : List ℕ) (s : Vfs) → finddir disk 0 name s ≡ 0
unfolding finddir
finddir-null disk name s = refl

pub descend-null :
    (disk : List ℕ → ℕ) (names : List (List ℕ)) (s : Vfs) → descend disk names 0 s ≡ 0
descend-null disk [] s = refl
descend-null disk (name ∷ names) s = rw (finddir-null disk name s) (descend-null disk names s)

-- Slashes at the front name nothing.
pub components-skip_slashes : (path : List ℕ) → components (skip_slashes path) ≡ components path
components-skip_slashes [] = refl
components-skip_slashes (c ∷ cs) = elim (Bool-cases (c == slash)) [
  | inl t ↦ rw t (components-skip_slashes cs)
  | inr f ↦ rw f (rw f refl)
]

-- The bytes before the first slash.
abbrev pub word : List ℕ → List ℕ
word [] = []
word (c ∷ cs) = if c == slash then [] else c ∷ word cs

pub take_component-word : (n : ℕ) (p : List ℕ) → (take_component n p).0 ≡ shortened n (word p)
take_component-word zero p = refl
take_component-word (suc n) [] = refl
take_component-word (suc n) (c ∷ cs) = elim (Bool-cases (c == slash)) [
  | inl t ↦ rw t refl
  | inr f ↦ rw f (ap (λ l. c ∷ l) (take_component-word n cs))
]

skip_component-take_component :
    (n : ℕ) (p : List ℕ) → skip_component (take_component n p).1 ≡ skip_component p
skip_component-take_component zero p = refl
skip_component-take_component (suc n) [] = refl
skip_component-take_component (suc n) (c ∷ cs) = elim (Bool-cases (c == slash)) [
  | inl t ↦ rw t (rw t refl)
  | inr f ↦ rw f (skip_component-take_component n cs)
]

append_one : (xs ys : List ℕ) (y : ℕ) → (xs ++ (y ∷ [])) ++ ys ≡ xs ++ (y ∷ ys)
append_one [] ys y = refl
append_one (x ∷ xs) ys y = ap (λ l. x ∷ l) (append_one xs ys y)

append_nil : (xs : List ℕ) → xs ++ [] ≡ xs
append_nil [] = refl
append_nil (x ∷ xs) = ap (λ l. x ∷ l) (append_nil xs)

split-emit :
    (before p : List ℕ) → split before p ≡ emit (before ++ word p) (components (skip_component p))
split-emit before [] = ap (λ b. emit b []) (sym (append_nil before))
split-emit before (c ∷ cs) = elim (Bool-cases (c == slash)) [
  | inl t ↦ rw t (rw t (ap (λ b. emit b (components cs)) (sym (append_nil before))))
  | inr f ↦ rw f (
      split-emit (before ++ (c ∷ [])) cs
      ∙ ap (λ b. emit b (components (skip_component cs))) (append_one before (word cs) c))
]

shortened_twice : (n : ℕ) (xs : List ℕ) → shortened n (shortened n xs) ≡ shortened n xs
shortened_twice zero xs = refl
shortened_twice (suc n) [] = refl
shortened_twice (suc n) (x ∷ xs) = ap (λ l. x ∷ l) (shortened_twice n xs)

-- A component fits the name of a node.
pub shortened-next_component :
    (p : List ℕ) → shortened 63 (next_component p).0 ≡ (next_component p).0
shortened-next_component p =
    let e = take_component-word 63 p in
    ap (λ n. shortened 63 n) e ∙ shortened_twice 63 (word p) ∙ sym e

-- The next component is the first of the path, and the others are those of what is left.
pub components-next_component :
    (c : ℕ) (cs : List ℕ)
    → (c == slash) ≡ false
    → components (c ∷ cs) ≡ (next_component (c ∷ cs)).0 ∷ components (next_component (c ∷ cs)).1
components-next_component c cs f =
    let name = take_component-word 63 (c ∷ cs) in
    let after = skip_component-take_component 63 (c ∷ cs) in
    let whole : word (c ∷ cs) ≡ c ∷ word cs = rw f refl in
    let left = (take_component 63 (c ∷ cs)).1 in
    let tail = components-skip_slashes (skip_component left) ∙ ap (λ l. components l) after in
    split-emit [] (c ∷ cs)
    ∙ ap (λ w. emit w (components (skip_component (c ∷ cs)))) whole
    ∙ ap (λ n. n ∷ components (skip_component (c ∷ cs)))
        (sym (name ∙ ap (λ w. shortened 63 w) whole))
    ∙ ap (λ t. (take_component 63 (c ∷ cs)).0 ∷ t) (sym tail)

-- Every round reads a byte, and the path that is left begins with no slash.
abbrev pub StartsAtName : List ℕ → Type 0
StartsAtName [] = Unit {0}
StartsAtName (c ∷ cs) = (c == slash) ≡ false

pub skip_slashes-StartsAtName : (p : List ℕ) → StartsAtName (skip_slashes p)
skip_slashes-StartsAtName [] = tt
skip_slashes-StartsAtName (c ∷ cs) = elim (Bool-cases (c == slash)) [
  | inl t ↦ rw t (skip_slashes-StartsAtName cs)
  | inr f ↦ rw f f
]

pub skip_slashes-shorter : (p : List ℕ) → length (skip_slashes p) ≤ length p
skip_slashes-shorter [] = omega arith
skip_slashes-shorter (c ∷ cs) = elim (Bool-cases (c == slash)) [
  | inl t ↦ rw t (omega (arith, skip_slashes-shorter cs))
  | inr f ↦ rw f (omega arith)
]

skip_component-shorter : (p : List ℕ) → length (skip_component p) ≤ length p
skip_component-shorter [] = omega arith
skip_component-shorter (c ∷ cs) = elim (Bool-cases (c == slash)) [
  | inl t ↦ rw t (omega arith)
  | inr f ↦ rw f (omega (arith, skip_component-shorter cs))
]

pub next_component-shorter :
    (c : ℕ) (cs : List ℕ) → (c == slash) ≡ false → length (next_component (c ∷ cs)).1 ≤ length cs
next_component-shorter c cs f =
    let left = (take_component 63 (c ∷ cs)).1 in
    let past : skip_component (c ∷ cs) ≡ skip_component cs = rw f refl in
    let rest = ap (λ l. length l) (skip_component-take_component 63 (c ∷ cs) ∙ past) in
    omega (arith, skip_slashes-shorter (skip_component left), rest, skip_component-shorter cs)

pub next_component-StartsAtName : (c : ℕ) (cs : List ℕ) → StartsAtName (next_component (c ∷ cs)).1
next_component-StartsAtName c cs =
    skip_slashes-StartsAtName (skip_component (take_component 63 (c ∷ cs)).1)

resolve_loop-descend :
    (disk : List ℕ → ℕ) (fuel : ℕ) (p : List ℕ) (cur : ℕ) (s : Vfs)
    → StartsAtName p
    → length p < fuel
    → resolve_loop disk fuel p cur s ≡ some (descend disk (components p) cur s)
unfolding resolve_loop
resolve_loop-descend disk zero p cur s ok enough = absurd (omega (arith, enough))
resolve_loop-descend disk (suc fuel) [] cur s ok enough = refl
resolve_loop-descend disk (suc fuel) (c ∷ cs) cur s ok enough =
    let (name, rest) = next_component (c ∷ cs) in
    let shorter = next_component-shorter c cs ok in
    let further =
      resolve_loop-descend disk fuel rest (finddir disk cur name s) s
        (next_component-StartsAtName c cs) (omega (arith, shorter, enough)) in
    elim (Bool-cases (cur == 0)) [
      | inl z ↦
          rw (resolve_loop, z)
            (ap some (
              ==→eq cur 0 z
              ∙ sym (descend-null disk (components (c ∷ cs)) s)
              ∙ ap (λ d. descend disk (components (c ∷ cs)) d s) (sym (==→eq cur 0 z))))
      | inr nz ↦
          ap (λ b. if b then some cur else resolve_loop disk fuel rest (finddir disk cur name s) s)
            nz
          ∙ (further
              ∙ ap (λ l. some (descend disk l cur s)) (sym (components-next_component c cs ok)))
    ]

-- With fuel above the length of the path, resolve_path ends, with the node that looking up the
-- components of the path one after the other from the root gives: the components are the non-empty
-- parts between slashes, each cut to 63 bytes, and in null nothing is found.
pub resolve_path-descend :
    (disk : List ℕ → ℕ) (fuel : ℕ) (path : List ℕ) (s : Vfs)
    → length path < fuel
    → resolve_path disk fuel path s ≡ some (descend disk (components path) s.root s)
unfolding resolve_path
resolve_path-descend disk fuel path s enough =
    resolve_loop-descend disk fuel (skip_slashes path) s.root s (skip_slashes-StartsAtName path)
      (omega (arith, skip_slashes-shorter path, enough))
    ∙ ap (λ l. some (descend disk l s.root s)) (components-skip_slashes path)
