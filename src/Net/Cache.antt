-- ===== src/Net/Cache.antt =====
-- The table of src/arp.rs as a cache: what a lookup finds after an update.
use sysrust.Common.{
  ℕ, zero, suc, ◌+◌, ◌≡◌, ◌<◌, ◌≤◌, Bool, true, false, ◌&&◌, not, Option, some, none, ◌==◌,
  if◌then◌else◌, Table, store, &&-true, &&-false, find_from, find_from-some, find_from-none,
  find_from_first, find_from_ext, Option-cases, Bool-cases, arith, refl, ◌∙◌, sym, inl, inr,
  FirstIn, ==→eq,
}
use sysrust.Net.{Bytes}
use sysrust.Net.Arp.{
  ArpEntry, holds, update_loop, arp_table_update, arp_table_lookup, arp_table_size,
}

-- The first slot that holds no entry.
abbrev pub free_from : (n i : ℕ) → Table ArpEntry → Option ℕ
free_from n i t = find_from (λ k. not (t k).valid) n i

-- What `update_loop` does, with the two searches apart.
abbrev placed : Option ℕ → Option ℕ → ℕ → Bytes → Table ArpEntry → Table ArpEntry
placed (some k) free ip mac t = store t k (record (t k) { mac = mac })
placed none (some slot) ip mac t = store t slot (record { ip = ip; mac = mac; valid = true })
placed none none ip mac t = t

abbrev or_else : Option ℕ → Option ℕ → Option ℕ
or_else (some k) o = some k
or_else none o = o

update_loop-placed :
    (n i : ℕ) (free : Option ℕ) (ip : ℕ) (mac : Bytes) (t : Table ArpEntry)
    → update_loop n i free ip mac t
      ≡ placed (find_from (λ k. holds ip (t k)) n i) (or_else free (free_from n i t)) ip mac t
unfolding update_loop find_from
update_loop-placed zero i none ip mac t = refl
update_loop-placed zero i (some slot) ip mac t = refl
update_loop-placed (suc n) i none ip mac t = elim (Bool-cases (holds ip (t i))) [
  | inl h ↦ rw h refl
  | inr h ↦ elim (Bool-cases (t i).valid) [
    | inl v ↦ rw (h, v) (update_loop-placed n (i + 1) none ip mac t)
    | inr v ↦ rw (h, v) (update_loop-placed n (i + 1) (some i) ip mac t)
  ]
]
update_loop-placed (suc n) i (some slot) ip mac t = elim (Bool-cases (holds ip (t i))) [
  | inl h ↦ rw h refl
  | inr h ↦ rw h (update_loop-placed n (i + 1) (some slot) ip mac t)
]

-- Whether an update of `ip` finds a slot.
abbrev pub has_place : ℕ → Table ArpEntry → Bool
has_place ip t = elim (find_from (λ k. holds ip (t k)) arp_table_size 0) [
  | some k ↦ true
  | none ↦ elim (free_from arp_table_size 0 t) [ some slot ↦ true | none ↦ false ]
]

module _ (q k : ℕ) (e : ArpEntry) (t : Table ArpEntry) where
  -- An entry for another address, in a slot that did not hold `q`.
  lookup-store_other :
      holds q e ≡ false
      → holds q (t k) ≡ false
      → arp_table_lookup q (store t k e) ≡ arp_table_lookup q t
  unfolding arp_table_lookup
  lookup-store_other new old =
      let same =
        find_from_ext (λ i. holds q (store t k e i)) (λ i. holds q (t i)) arp_table_size 0
          (λ j a b. elim (Bool-cases (j == k)) [
            | inl h ↦ rw (h, ==→eq j k h) (new ∙ sym old)
            | inr h ↦ rw h refl
          ]) in
      rw (arp_table_lookup, same)
        (elim (Option-cases (find_from (λ i. holds q (t i)) arp_table_size 0)) [
          | inl none_found ↦ rw (arp_table_lookup, none_found) refl
          | inr (r, found) ↦
              let hit = find_from-some (λ i. holds q (t i)) arp_table_size 0 r found in
              elim (Bool-cases (r == k)) [
                | inl h ↦ absurd (ground (arith, ==→eq r k h, hit.2, old))
                | inr h ↦ rw (arp_table_lookup, found, h) refl
              ]
        ])

  -- An entry for `q` in the first slot that fits.
  lookup-store_same :
      holds q e ≡ true
      → k < arp_table_size
      → ((j : ℕ) → 0 ≤ j → j < k → holds q (t j) ≡ false)
      → arp_table_lookup q (store t k e) ≡ some e.mac
  unfolding arp_table_lookup
  lookup-store_same new bound before =
      let there : FirstIn (λ i. holds q (store t k e i)) arp_table_size 0 k =
        (omega arith, bound, ground (arith, new), λ j a b. ground (arith, before j)) in
      let found = find_from_first (λ i. holds q (store t k e i)) arp_table_size 0 k there in
      rw (arp_table_lookup, found) (ground arith)

holds-other : (q ip : ℕ) (e : ArpEntry) → (q == ip) ≡ false → holds ip e ≡ true → holds q e ≡ false
holds-other q ip e differ h = ground arith

-- An entry for `ip` in the first slot that fits.
lookup-stored :
    (q ip k : ℕ) (e : ArpEntry) (t : Table ArpEntry)
    → holds ip e ≡ true
    → k < arp_table_size
    → ((j : ℕ) → 0 ≤ j → j < k → holds ip (t j) ≡ false)
    → ((q == ip) ≡ false → holds q (t k) ≡ false)
    → arp_table_lookup q (store t k e) ≡ (if q == ip then some e.mac else arp_table_lookup q t)
lookup-stored q ip k e t new bound before other = elim (Bool-cases (q == ip)) [
  | inr h ↦ rw h (lookup-store_other q k e t (holds-other q ip e h new) (other h))
  | inl h ↦
      let same : holds q e ≡ true = rw (==→eq q ip h) new in
      rw h (lookup-store_same q k e t same bound (λ j a b. rw (==→eq q ip h) (before j a b)))
]

-- In any ARP table, after an update of an address the lookup of that address gives the new MAC
-- address if the address was in the table or a slot was free, and every other lookup gives what it
-- gave before.
pub arp_table_update-lookup :
    (q ip : ℕ) (mac : Bytes) (t : Table ArpEntry)
    → arp_table_lookup q (arp_table_update ip mac t)
      ≡ (if (q == ip) && has_place ip t then some mac else arp_table_lookup q t)
unfolding arp_table_update
arp_table_update-lookup q ip mac t =
    rw (update_loop-placed arp_table_size 0 none ip mac t)
      (elim (Option-cases (find_from (λ k. holds ip (t k)) arp_table_size 0)) [
        | inr (k, found) ↦
            let hit = find_from-some (λ j. holds ip (t j)) arp_table_size 0 k found in
            let place : has_place ip t ≡ true = rw (has_place, found) refl in
            rw (place, &&-true (q == ip), found)
              (lookup-stored q ip k (record (t k) { mac = mac }) t hit.2 hit.1 hit.3
                (λ h. holds-other q ip (t k) h hit.2))
        | inl unknown ↦
            let nowhere = find_from-none (λ j. holds ip (t j)) arp_table_size 0 unknown in
            elim (Option-cases (free_from arp_table_size 0 t)) [
              | inr (k, found) ↦
                  let hit = find_from-some (λ j. not (t j).valid) arp_table_size 0 k found in
                  let place : has_place ip t ≡ true = rw (has_place, unknown, found) refl in
                  rw (place, &&-true (q == ip), unknown, found)
                    (lookup-stored q ip k (record { ip = ip; mac = mac; valid = true }) t
                      (ground arith) hit.1 (λ j a b. nowhere j a (ground (arith, hit.1)))
                      (λ h. ground (arith, hit.2)))
              | inl full ↦
                  let no_place : has_place ip t ≡ false = rw (has_place, unknown, full) refl in
                  rw (no_place, &&-false (q == ip), unknown, full) refl
            ]
      ])
