-- ===== src/Vfs/Descriptors.antt =====
-- The table of open files of src/vfs.rs. An i32 or i64 is its bits; -1 has all bits set.
use sysrust.Common.{
  ℕ, ◌+◌, ◌-◌, ◌%◌, ◌^◌, ◌≡◌, ◌≢◌, ◌<◌, ◌⊎◌, inl, inr, Bool, true, false, ◌&&◌, ◌||◌, not, Option,
  none, some, List, ◌==◌, ltb, leb, if◌then◌else◌, Table, store, store-hit, store-miss, find_from,
  find_from-some, find_from-none, Option-cases, Bool-cases, arith, refl, ==→eq,
}
use sysrust.Vfs.{Vfs, FileFn}
use sysrust.Vfs.Paths.{resolve_path}

abbrev pub max_open_files : ℕ
max_open_files = 32

pub record FdEntry : Type 0 where
  pub node : ℕ
  pub offset : ℕ
  pub in_use : Bool

abbrev pub empty_entry : FdEntry
empty_entry = record { node = 0; offset = 0; in_use = false }

abbrev pub minus_one_32 : ℕ
minus_one_32 = 2 ^ 32 - 1

abbrev pub minus_one_64 : ℕ
minus_one_64 = 2 ^ 64 - 1

-- fd < 0 || fd >= MAX_OPEN_FILES || !FD_TABLE[fd].in_use
abbrev pub is_closed : (fd : ℕ) → Table FdEntry → Bool
is_closed fd fds = leb max_open_files fd || not (fds fd).in_use

-- The entry of `vfs_open`.
unfoldable pub claim_fd : (node : ℕ) → Table FdEntry → ℕ × Table FdEntry
unfolding find_from
claim_fd node fds = elim (find_from (λ i. not (fds i).in_use) max_open_files 0) [
  | none ↦ (minus_one_32, fds)
  | some i ↦ (i, store fds i (record { node = node; offset = 0; in_use = true }))
]

-- On the fuel of the path's walk.
unfoldable pub vfs_open :
    (disk : List ℕ → ℕ) (fuel : ℕ) (path : List ℕ)
    → Vfs
    → Table FdEntry
    → Option (ℕ × Table FdEntry)
unfolding claim_fd
vfs_open disk fuel path s fds = elim (resolve_path disk fuel path s) [
  | none ↦ none
  | some node ↦ if node == 0 then some (minus_one_32, fds) else some (claim_fd node fds)
]

unfoldable pub vfs_close : (fd : ℕ) → Table FdEntry → Table FdEntry
vfs_close fd fds = if leb max_open_files fd then fds else store fds fd empty_entry

-- The offset that `vfs_lseek` computes, or nothing for another whence.
abbrev pub sought : (whence offset at size : ℕ) → Option ℕ
sought whence offset at size =
    if whence == 0
    then some offset
    else if whence == 1
    then some ((at + offset) % 2 ^ 64)
    else if whence == 2
    then some ((size + offset) % 2 ^ 64)
    else none

unfoldable pub vfs_lseek : (fd offset whence : ℕ) → Vfs → Table FdEntry → ℕ × Table FdEntry
vfs_lseek fd offset whence s fds =
    let entry = fds fd in
    let moved : ℕ × Table FdEntry =
      elim (sought whence offset entry.offset (s.nodes entry.node).size) [
        | none ↦ (minus_one_64, fds)
        | some new_off ↦
            if leb (2 ^ 63) new_off
            then (minus_one_64, fds)
            else (new_off, store fds fd (record entry { offset = new_off % 2 ^ 32 }))
      ] in
    if is_closed fd fds
    then (minus_one_64, fds)
    else if entry.node == 0
    then (minus_one_64, fds)
    else moved

-- The functions that read and write files: the result, and the file, the buffer and the devices after.
pub record Drivers : Type 1 where
  pub World : Type 0
  pub run_read : FileFn → (node offset size : ℕ) → World → ℕ × World
  pub run_write : FileFn → (node offset size : ℕ) → World → ℕ × World

-- bytes > 0, and the entry after.
abbrev pub advanced : (bytes fd : ℕ) → Table FdEntry → Table FdEntry
advanced bytes fd fds =
    if ltb 0 bytes && ltb bytes (2 ^ 31)
    then store fds fd (record (fds fd) { offset = ((fds fd).offset + bytes) % 2 ^ 32 })
    else fds

module _ (drivers : Drivers) where
  open drivers use {World, run_read, run_write}

  unfoldable pub read : (node offset size : ℕ) → Vfs → World → ℕ × World
  read node offset size s w =
      let called : ℕ × World = elim (s.nodes node).read_fn [
        | none ↦ (minus_one_32, w)
        | some f ↦ run_read f node offset size w
      ] in
      if node == 0 then (minus_one_32, w) else called

  unfoldable pub write : (node offset size : ℕ) → Vfs → World → ℕ × World
  write node offset size s w =
      let called : ℕ × World = elim (s.nodes node).write_fn [
        | none ↦ (minus_one_32, w)
        | some f ↦ run_write f node offset size w
      ] in
      if node == 0 then (minus_one_32, w) else called

  unfoldable pub vfs_fd_read :
      (fd size : ℕ) → Vfs → Table FdEntry → World → ℕ × Table FdEntry × World
  vfs_fd_read fd size s fds w =
      let (bytes, w') = read (fds fd).node (fds fd).offset size s w in
      if is_closed fd fds then (minus_one_32, fds, w) else (bytes, advanced bytes fd fds, w')

  unfoldable pub vfs_fd_write :
      (fd size : ℕ) → Vfs → Table FdEntry → World → ℕ × Table FdEntry × World
  vfs_fd_write fd size s fds w =
      let (bytes, w') = write (fds fd).node (fds fd).offset size s w in
      if is_closed fd fds then (minus_one_32, fds, w) else (bytes, advanced bytes fd fds, w')

-- A descriptor for the node that the path leads to, or -1.
pub record Opened (node : ℕ) (fds : Table FdEntry) (r : ℕ × Table FdEntry) : Type 0 where
  pub fails :
      r.0 ≡ minus_one_32 → (r.1 ≡ fds) × ((node ≡ 0) ⊎ ((i : ℕ) → i < 32 → (fds i).in_use ≡ true))
  pub gives :
      r.0 ≢ minus_one_32
      → (node ≢ 0)
        × (r.0 < 32)
        × ((fds r.0).in_use ≡ false)
        × ((i : ℕ) → i < r.0 → (fds i).in_use ≡ true)
        × (r.1 r.0 ≡ record { node = node; offset = 0; in_use = true })
        × ((i : ℕ) → i ≢ r.0 → r.1 i ≡ fds i)

claim_fd-Opened : (node : ℕ) (fds : Table FdEntry) → node ≢ 0 → Opened node fds (claim_fd node fds)
unfolding claim_fd
claim_fd-Opened node fds ne = elim (Option-cases (find_from (λ i. not (fds i).in_use) 32 0)) [
  | inl e ↦
      let full = find_from-none (λ i. not (fds i).in_use) 32 0 e in
      rw (claim_fd, e)
        (record {
          fails = λ h. (refl, inr (λ i small. ground (arith, full i)));
          gives = λ h. absurd (h refl);
        })
  | inr (i, e) ↦
      let f = find_from-some (λ i. not (fds i).in_use) 32 0 i e in
      rw (claim_fd, e)
        (record {
          fails = λ h. absurd (omega (arith, f.1, h));
          gives = λ h. (
            ne,
            omega (arith, f.1),
            ground (arith, f.2),
            λ k small. ground (arith, f.3 k),
            store-hit fds i (record { node = node; offset = 0; in_use = true }),
            λ k other. store-miss fds i k (record { node = node; offset = 0; in_use = true }) other,
          );
        })
]

-- For a path that resolve_path leads to a node or to null, vfs_open either returns -1 and leaves
-- the table as it was, because the node is null or all 32 descriptors are in use; or the node is
-- not null and it returns the lowest descriptor not in use, which then is in use for the node at
-- offset 0, and leaves the others.
pub vfs_open-Opened :
    (disk : List ℕ → ℕ) (fuel : ℕ) (path : List ℕ) (s : Vfs) (fds : Table FdEntry) (node : ℕ)
    → resolve_path disk fuel path s ≡ some node
    → (r : ℕ × Table FdEntry) × (vfs_open disk fuel path s fds ≡ some r) × Opened node fds r
unfolding vfs_open
vfs_open-Opened disk fuel path s fds node e = elim (Bool-cases (node == 0)) [
  | inl z ↦ (
    (minus_one_32, fds),
    rw (vfs_open, e, z) refl,
    record { fails = λ h. (refl, inl (==→eq node 0 z)); gives = λ h. absurd (h refl) },
  )
  | inr nz ↦ (claim_fd node fds, rw (vfs_open, e, nz) refl, claim_fd-Opened node fds (ground arith))
]

-- A seek failed, or moved the offset of the descriptor alone.
pub record Sought (fd : ℕ) (fds : Table FdEntry) (r : ℕ × Table FdEntry) : Type 0 where
  pub fails : r.0 ≡ minus_one_64 → r.1 ≡ fds
  pub moves :
      r.0 ≢ minus_one_64
      → (r.0 < 2 ^ 63)
        × (is_closed fd fds ≡ false)
        × (r.1 fd ≡ record (fds fd) { offset = r.0 % 2 ^ 32 })
        × ((i : ℕ) → i ≢ fd → r.1 i ≡ fds i)

-- vfs_lseek fails and changes nothing, or moves the offset of its descriptor alone, to the low 32
-- bits of the offset that it returns.
pub vfs_lseek-Sought :
    (fd offset whence : ℕ) (s : Vfs) (fds : Table FdEntry)
    → Sought fd fds (vfs_lseek fd offset whence s fds)
unfolding vfs_lseek
vfs_lseek-Sought fd offset whence s fds =
    let failed : Sought fd fds (minus_one_64, fds) = record {
      fails = λ h. refl;
      moves = λ h. absurd (h refl);
    } in
    let entry = fds fd in
    elim (Bool-cases (is_closed fd fds)) [
      | inl c ↦ rw (vfs_lseek, c) failed
      | inr o ↦ elim (Bool-cases (entry.node == 0)) [
        | inl z ↦ rw (vfs_lseek, o, z) failed
        | inr nz ↦
            elim (Option-cases (sought whence offset entry.offset (s.nodes entry.node).size)) [
              | inl e ↦ rw (vfs_lseek, o, nz, e) failed
              | inr (new_off, e) ↦ elim (Bool-cases (leb (2 ^ 63) new_off)) [
                | inl neg ↦ rw (vfs_lseek, o, nz, e, neg) failed
                | inr pos ↦
                    rw (vfs_lseek, o, nz, e, pos)
                      (record {
                        fails = λ h. absurd (ground (arith, h, pos));
                        moves = λ h. (
                          ground (arith, pos),
                          o,
                          store-hit fds fd (record entry { offset = new_off % 2 ^ 32 }),
                          λ i other.
                              store-miss fds fd i (record entry { offset = new_off % 2 ^ 32 })
                                other,
                        );
                      })
              ]
            ]
      ]
    ]
