-- ===== src/Net/Ports.antt =====
-- The port table of src/udp.rs: which handler a port has after `bind`.
use sysrust.Common.{
  ℕ, ◌+◌, ◌≡◌, ◌<◌, ◌≤◌, Bool, true, false, ◌&&◌, some, none, ◌==◌, leb, if◌then◌else◌, Table,
  store, arith, refl, ap, ◌∙◌, sym, Bool-cases, Option-cases, inl, inr, ==→eq, FirstIn, &&-true,
  &&-false, find_from, find_from-some, find_from-none, find_from_first, find_from_ext,
}
use sysrust.Net.Udp.{BindEntry, Udp, bind, serves, handler_of, udp_max_binds}

module _ (q : ℕ) where
  abbrev test : Table BindEntry → ℕ → Bool
  test t i = serves q (t i)

  -- Two states in which the same slots serve the port, with the same handlers.
  handler_of_same :
      (u v : Udp)
      → find_from (test u.bind_table) u.bind_count 0 ≡ find_from (test v.bind_table) v.bind_count 0
      → ((r : ℕ)
          → r < u.bind_count
          → test u.bind_table r ≡ true
          → (v.bind_table r).handler ≡ (u.bind_table r).handler)
      → handler_of q v ≡ handler_of q u
  unfolding handler_of
  handler_of_same u v same kept =
      elim (Option-cases (find_from (test u.bind_table) u.bind_count 0)) [
        | inl nowhere ↦ rw (handler_of, sym same ∙ nowhere, nowhere) refl
        | inr (r, found) ↦
            let hit = find_from-some (test u.bind_table) u.bind_count 0 r found in
            rw (handler_of, sym same ∙ found, found) (kept r (omega (arith, hit.1)) hit.2)
      ]

  handler_of_first :
      (u : Udp) (k h : ℕ)
      → FirstIn (test u.bind_table) u.bind_count 0 k
      → (u.bind_table k).handler ≡ some h
      → handler_of q u ≡ some h
  unfolding handler_of
  handler_of_first u k h first here =
      let found = find_from_first (test u.bind_table) u.bind_count 0 k first in
      rw (handler_of, found) here

-- A last index that does not pass can be left out.
find_from_last : (p : ℕ → Bool) (n : ℕ) → p n ≡ false → find_from p (n + 1) 0 ≡ find_from p n 0
find_from_last p n last = elim (Option-cases (find_from p n 0)) [
  | inr (r, found) ↦
      let hit = find_from-some p n 0 r found in
      find_from_first p (n + 1) 0 r (hit.0, omega (arith, hit.1), hit.2, hit.3) ∙ sym found
  | inl nowhere ↦ elim (Option-cases (find_from p (n + 1) 0)) [
    | inl still ↦ still ∙ sym nowhere
    | inr (r, found) ↦
        let hit = find_from-some p (n + 1) 0 r found in
        absurd (ground (arith, hit.1, hit.2, last, find_from-none p n 0 nowhere r))
  ]
]

==-refl : (i : ℕ) → (i == i) ≡ true
==-refl i = ground arith

==-less : (j k : ℕ) → j < k → (j == k) ≡ false
==-less j k h = ground arith

clash : (e : BindEntry) (q : ℕ) → serves q e ≡ true → serves q e ≡ false → ⊥
clash e q a b = cc

module _ (q port : ℕ) where
  serves-named :
      (h : ℕ) (e : BindEntry)
      → (q == port) ≡ true
      → (e.port == port) ≡ true
      → e.handler ≡ some h
      → serves q e ≡ true
  serves-named h e same here filled = rw filled (ground arith)

  serves-unnamed :
      (e : BindEntry) → (q == port) ≡ true → (e.port == port) ≡ false → serves q e ≡ false
  serves-unnamed e same apart = let test : (e.port == q) ≡ false = ground arith in rw test refl

  serves-other :
      (e : BindEntry) → (q == port) ≡ false → (e.port == port) ≡ true → serves q e ≡ false
  serves-other e other here = let test : (e.port == q) ≡ false = ground arith in rw test refl

module _ (port h : ℕ) (u : Udp) where
  abbrev named : ℕ → Bool
  named i = (u.bind_table i).port == port

  bind_known :
      (i : ℕ)
      → find_from named u.bind_count 0 ≡ some i
      → bind port h u ≡ (
        true,
        record u {
          bind_table = store u.bind_table i (record (u.bind_table i) { handler = some h });
        },
      )
  unfolding bind
  bind_known i found = rw (bind, found) refl

  bind_full :
      find_from named u.bind_count 0 ≡ none
      → leb udp_max_binds u.bind_count ≡ true
      → bind port h u ≡ (false, u)
  unfolding bind
  bind_full nowhere full = rw (bind, nowhere, full) refl

  bind_added :
      find_from named u.bind_count 0 ≡ none
      → leb udp_max_binds u.bind_count ≡ false
      → bind port h u ≡ (
        true,
        record {
          bind_table = store u.bind_table u.bind_count (record { port = port; handler = some h });
          bind_count = u.bind_count + 1;
        },
      )
  unfolding bind
  bind_added nowhere room = rw (bind, nowhere, room) refl

  abbrev bound : ℕ → ℕ → BindEntry → Udp
  bound k count e = record { bind_table = store u.bind_table k e; bind_count = count }

  module _ (q k count : ℕ) (e : BindEntry) (here : (e.port == port) ≡ true) where
    -- The port itself finds the entry, where no slot before it has the port.
    handler_of_bound :
        (q == port) ≡ true
        → e.handler ≡ some h
        → k < count
        → ((j : ℕ) → 0 ≤ j → j < k → named j ≡ false)
        → handler_of q (bound k count e) ≡ some h
    handler_of_bound same filled low before =
        let entry : store u.bind_table k e k ≡ e = rw (==-refl k) refl in
        let at_k : serves q (store u.bind_table k e k) ≡ true =
          rw entry (serves-named q port h e same here filled) in
        let early : (j : ℕ) → 0 ≤ j → j < k → serves q (store u.bind_table k e j) ≡ false = λ j a b.
          rw (==-less j k b) (serves-unnamed q port (u.bind_table j) same (before j a b)) in
        handler_of_first q (bound k count e) k h (omega arith, omega (arith, low), at_k, early)
          (ap (λ x. x.handler) entry ∙ filled)

    -- Another port sees no difference below the old count.
    other_test :
        (q == port) ≡ false
        → serves q (u.bind_table k) ≡ false
        → (j : ℕ) → serves q (store u.bind_table k e j) ≡ serves q (u.bind_table j)
    other_test other old j = elim (Bool-cases (j == k)) [
      | inl at_k ↦ rw (at_k, ==→eq j k at_k) (serves-other q port e other here ∙ sym old)
      | inr apart ↦ rw apart refl
    ]

    other_handler :
        serves q (u.bind_table k) ≡ false
        → (r : ℕ) → serves q (u.bind_table r) ≡ true
        → (store u.bind_table k e r).handler ≡ (u.bind_table r).handler
    other_handler old r hit = elim (Bool-cases (r == k)) [
      | inl at_k ↦ absurd (clash (u.bind_table r) q hit (rw (==→eq r k at_k) old))
      | inr apart ↦ rw apart refl
    ]

  -- The handler of a port after `bind`.
  abbrev pub BoundTo : (q : ℕ) → Bool × Udp → Type 0
  BoundTo q (done, v) = handler_of q v ≡ (if (q == port) && done then some h else handler_of q u)

  known-BoundTo :
      (q i : ℕ)
      → FirstIn named u.bind_count 0 i
      → BoundTo q (true, bound i u.bind_count (record (u.bind_table i) { handler = some h }))
  known-BoundTo q i first =
      let e : BindEntry = record (u.bind_table i) { handler = some h } in
      rw (&&-true (q == port)) (elim (Bool-cases (q == port)) [
        | inl same ↦
            rw same (
              handler_of_bound q i u.bind_count e first.2 same refl (omega (arith, first.1))
                first.3)
        | inr other ↦
            let old = serves-other q port (u.bind_table i) other first.2 in
            rw other (
              handler_of_same q u (bound i u.bind_count e)
                (find_from_ext (test q u.bind_table) (test q (store u.bind_table i e)) u.bind_count
                  0 (λ j a b. sym (other_test q i u.bind_count e first.2 other old j)))
                (λ r b. other_handler q i u.bind_count e first.2 old r))
      ])

  added-BoundTo :
      (q : ℕ)
      → ((j : ℕ) → 0 ≤ j → j < 0 + u.bind_count → named j ≡ false)
      → BoundTo q
          (true, bound u.bind_count (u.bind_count + 1) (record { port = port; handler = some h }))
  added-BoundTo q nowhere =
      let e : BindEntry = record { port = port; handler = some h } in
      let k = u.bind_count in
      let before : (j : ℕ) → 0 ≤ j → j < k → named j ≡ false =
        λ j a b. nowhere j a (omega (arith, b)) in
      rw (&&-true (q == port)) (elim (Bool-cases (q == port)) [
        | inl same ↦
            rw same (handler_of_bound q k (k + 1) e (==-refl port) same refl (omega arith) before)
        | inr other ↦ rw other (
            handler_of_same q u (bound k (k + 1) e)
              (sym (
                find_from_last (test q (store u.bind_table k e)) k
                  (rw (==-refl k) (serves-other q port e other (==-refl port)))
                ∙ find_from_ext (test q (store u.bind_table k e)) (test q u.bind_table) k 0
                    (λ j a b. rw (==-less j k (omega (arith, b))) refl)))
              (λ r b hit. rw (==-less r k b) refl))
      ])

  -- In any port table, after bind of a port that returns 1 the handler of that port is the new
  -- one; every other port, and every port when bind returns 0, has the handler that it had.
  pub bind-BoundTo : (q : ℕ) → BoundTo q (bind port h u)
  bind-BoundTo q = elim (Option-cases (find_from named u.bind_count 0)) [
    | inr (i, found) ↦
        rw (bind_known i found) (known-BoundTo q i (find_from-some named u.bind_count 0 i found))
    | inl nowhere ↦ elim (Bool-cases (leb udp_max_binds u.bind_count)) [
      | inl full ↦ rw (bind_full nowhere full, &&-false (q == port)) refl
      | inr room ↦
          rw (bind_added nowhere room)
            (added-BoundTo q (find_from-none named u.bind_count 0 nowhere))
    ]
  ]
