-- ===== src/Fat16/Kept.antt =====
-- A chain of used clusters in src/fat16.rs, under the writes of another file.
use sysrust.Common.{ℕ, ◌+◌, ◌*◌, ◌/◌, ◌%◌, ◌≡◌, ◌≢◌, ◌≤◌, Table, arith, refl, ap, ◌∙◌, sym}
use sysrust.Fat16.{Bpb, cluster_lba}
use sysrust.Fat16.Files.{Writer}
use sysrust.Fat16.Reading.{Stored, ended, linked, piece}
use sysrust.Fat16.Writing.{Written, clusters_apart}
use sysrust.Fat16.Found.{Stored_at}

-- No cluster of the chain is free.
pub data IsReserved (b : Bpb) (size : ℕ) (fat : Table ℕ) : (c off : ℕ) → Type 0 where
  over : {c off : ℕ} → size ≡ off → IsReserved b size fat c off
  taken :
      {c off : ℕ}
      → fat c ≢ 0
      → IsReserved b size fat (fat c) (off + piece b size off)
      → IsReserved b size fat c off

pub Written-Stored :
    (b : Bpb) (fe size0 size : ℕ) (src0 src : Table ℕ) (w0 w : Writer) (c off : ℕ)
    → b.cluster_size ≡ b.sectors_per_cluster * 512
    → Written b fe size0 src0 w0 w
    → w0.prev_cluster ≡ 0
    → Stored b fe size src w0.fat w0.drive c off
    → IsReserved b size w0.fat c off
    → Stored b fe size src w.fat w.drive c off
Written-Stored b fe size0 size src0 src w0 w c off cs r start (ended e) reserved = ended e
Written-Stored b fe size0 size src0 src w0 w c off cs r start (linked lt two last here rest)
      (over e) =
    absurd (omega (arith, lt, e))
Written-Stored b fe size0 size src0 src w0 w c off cs r start (linked lt two last here rest)
      (taken nz more) =
    let next = r.kept_fat c nz (omega (arith, two, start)) in
    let n_le : piece b size off ≤ b.cluster_size = ground (arith, lt) in
    linked lt two last
      (λ j small.
        let l = cluster_lba b c + j / 512 in
        let still = r.kept_sectors l (λ c' two' _ free.
          clusters_apart b c c' l two two' (λ e. nz (rw e at free)) (omega arith)
            (omega (arith, small, n_le, cs))) in
        ap (λ (t : Table ℕ). t (j % 512)) still ∙ here j small)
      (Stored_at b fe size src w.fat w.drive (w0.fat c) (off + piece b size off) (w.fat c)
        (off + piece b size off) (sym next) refl
        (Written-Stored b fe size0 size src0 src w0 w (w0.fat c) (off + piece b size off) cs r start
          rest more))
