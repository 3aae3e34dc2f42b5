-- ===== src/Vfs/Paths.antt =====
-- Paths in src/vfs.rs: the walks of resolve_path and mkdir_p. Their loops run on fuel; `none` is out of
-- fuel.
use sysrust.Common.{ℕ, zero, suc, Option, none, some, List, [], ◌∷◌, ◌==◌, if◌then◌else◌}
use sysrust.Vfs.{Vfs, NodeHeap, finddir, mkdir}

abbrev pub slash : ℕ
slash = 47

abbrev pub skip_slashes : List ℕ → List ℕ
skip_slashes [] = []
skip_slashes (c ∷ cs) = if c == slash then skip_slashes cs else c ∷ cs

-- The bytes before the next slash, at most `room` of them, and what is left of the path.
abbrev pub take_component : (room : ℕ) → List ℕ → List ℕ × List ℕ
take_component zero cs = ([], cs)
take_component (suc room) [] = ([], [])
take_component (suc room) (c ∷ cs) =
    let (component, rest) = take_component room cs in
    if c == slash then ([], c ∷ cs) else (c ∷ component, rest)

-- The rest of a component that is too long.
abbrev pub skip_component : List ℕ → List ℕ
skip_component [] = []
skip_component (c ∷ cs) = if c == slash then c ∷ cs else skip_component cs

-- One round of the loops up to the lookup: the component, and the path after the slashes behind it.
abbrev pub next_component : List ℕ → List ℕ × List ℕ
next_component p =
    let (component, rest) = take_component 63 p in (component, skip_slashes (skip_component rest))

module _ (disk : List ℕ → ℕ) where
  -- The main loop of `resolve_path`.
  unfoldable pub resolve_loop : (fuel : ℕ) → (path : List ℕ) → (cur : ℕ) → Vfs → Option ℕ
  resolve_loop zero path cur s = none
  resolve_loop (suc fuel) [] cur s = some cur
  resolve_loop (suc fuel) (c ∷ cs) cur s =
      let (component, rest) = next_component (c ∷ cs) in
      let further = resolve_loop fuel rest (finddir disk cur component s) s in
      if cur == 0 then some cur else further

  unfoldable pub resolve_path : (fuel : ℕ) → (path : List ℕ) → Vfs → Option ℕ
  resolve_path fuel path s = resolve_loop fuel (skip_slashes path) s.root s

  module _ (heap : NodeHeap) where
    open heap use {State}

    -- The lookup or the new directory, in a round of `mkdir_p`.
    unfoldable pub enter : (cur : ℕ) → (component : List ℕ) → Vfs → State → ℕ × Vfs × State
    enter cur component s st =
        let child = finddir disk cur component s in
        let made = mkdir disk heap cur component s st in if child == 0 then made else (child, s, st)

    unfoldable pub mkdir_loop :
        (fuel : ℕ) → (path : List ℕ) → (cur : ℕ) → Vfs → State → Option (ℕ × Vfs × State)
    mkdir_loop zero path cur s st = none
    mkdir_loop (suc fuel) [] cur s st = some (cur, s, st)
    mkdir_loop (suc fuel) (c ∷ cs) cur s st =
        let (component, rest) = next_component (c ∷ cs) in
        let (cur', s', st') = enter cur component s st in
        let further = mkdir_loop fuel rest cur' s' st' in
        if cur == 0 then some (cur, s, st) else further

    unfoldable pub mkdir_p : (fuel : ℕ) → (path : List ℕ) → Vfs → State → Option (ℕ × Vfs × State)
    mkdir_p fuel path s st = mkdir_loop fuel (skip_slashes path) s.root s st
