-- ===== src/Db/Purge.antt =====
-- `purge_expired_keys`: exactly the expired values go, and the next wake-up is in time.
use tokioconf_2026_workshop.Base.{
  ℕ, ◌≤◌, ◌<◌, ◌≡◌, refl, sym, ◌∙◌, inl, inr, true, false, Option, none, some, List, [], ◌∷◌, arith,
  Bytes, ltb, leb, ltb→lt, same, same_iff, same_refl, if◌then◌else◌, All, Bool-cases,
}
use tokioconf_2026_workshop.Collections.Dict
use tokioconf_2026_workshop.Collections.Schedule.{
  Deadline, less, less-le, has, has-head, same_deadline, same_deadline_iff,
}
use tokioconf_2026_workshop.Db.{Entry, Shared, purge_loop, purge_expired_keys}
use tokioconf_2026_workshop.Db.Invariant.{IsConsistent, IsWellFormed, expires_is}
use tokioconf_2026_workshop.Db.Set.{InTime}

-- What is left of a value at `now`.
abbrev pub survivor : ℕ → Option Entry → Option Entry
survivor now none = none
survivor now (some e) = elim e.expires_at [
  | none ↦ some e
  | some t ↦ if leb t now then none else some e
]

-- A deadline of the schedule satisfies what holds of all times in it.
has-All :
    (now t : ℕ) (k : Bytes) (ds : List Deadline)
    → All (λ d. now < d.0) ds
    → has (t, k) ds ≡ true
    → now < t
unfolding has
has-All now t k [] a h = cc
has-All now t k (d ∷ ds) (hd, a) h =
    ground (arith, has-All now t k ds a, same_deadline_iff d (t, k))

-- Nothing has expired where every deadline lies ahead.
survivor_ahead :
    (now : ℕ) (k : Bytes) (o : Option Entry) (ds : List Deadline)
    → ((t : ℕ) → has (t, k) ds ≡ expires_is t o)
    → All (λ d. now < d.0) ds
    → survivor now o ≡ o
survivor_ahead now k none ds tr a = refl
survivor_ahead now k (some e) ds tr a = by_time e.expires_at tr
  where
    by_time :
        (o : Option ℕ)
        → ((t : ℕ)
            → has (t, k) ds ≡ expires_is t (some (record { value = e.value; expires_at = o })))
        → survivor now (some (record { value = e.value; expires_at = o }))
          ≡ some (record { value = e.value; expires_at = o })
    by_time none tr = refl
    by_time (some t) tr = ground (arith, tr t, has-All now t k ds a)

All-less :
    (now : ℕ) (d : Deadline) (ds : List Deadline)
    → now < d.0
    → All (λ e. less d e ≡ true) ds
    → All (λ e. now < e.0) ds
All-less now d [] h a = tt
All-less now d (e ∷ ds) h (he, a) = (omega (arith, h, less-le d e he), All-less now d ds h a)

All-le : (w : ℕ) (ds : List Deadline) → All (λ e. w < e.0) ds → All (λ e. w ≤ e.0) ds
All-le w [] a = tt
All-le w (e ∷ ds) (he, a) = (omega arith, All-le w ds a)

expires_unique :
    (t u : ℕ) (o : Option Entry) → expires_is t o ≡ true → expires_is u o ≡ true → t ≡ u
expires_unique t u none h k = cc
expires_unique t u (some e) h k = by_time e.expires_at h k
  where
    by_time :
        (o : Option ℕ)
        → expires_is t (some (record { value = e.value; expires_at = o })) ≡ true
        → expires_is u (some (record { value = e.value; expires_at = o })) ≡ true
        → t ≡ u
    by_time none h k = cc
    by_time (some w) h k = ground arith

All-first :
    (when : ℕ) (key : Bytes) (ds : List Deadline)
    → All (λ e. less (when, key) e ≡ true) ds
    → All (λ e. when ≤ e.0) ds
All-first when key [] a = tt
All-first when key (e ∷ ds) (he, a) = (less-le (when, key) e he, All-first when key ds a)

-- The instant is that of a deadline, if there is one.
abbrev pub Attained : Option ℕ → List Deadline → Type 0
Attained none ds = Unit
Attained (some w) ds = (k : Bytes) × (has (w, k) ds ≡ true)

first-Attained :
    (when : ℕ) (key : Bytes) (ds : List Deadline) → Attained (some when) ((when, key) ∷ ds)
unfolding has same_deadline
first-Attained when key ds = (key, ground (arith, same_refl key))

-- Without its first deadline, and the value that expires there, the rest is consistent.
drop_first :
    (when : ℕ) (key : Bytes) (entries : List (Bytes × Entry)) (ds : List Deadline)
    → IsConsistent entries ((when, key) ∷ ds)
    → IsConsistent (Dict.remove key entries) ds
unfolding has same_deadline
drop_first when key entries ds h = record {
  ordered = h.ordered.1;
  tracked = λ t k. ground (
    arith,
    has-head (when, key) (t, k) ds h.ordered.0,
    expires_unique t when (Dict.get k entries),
    h.tracked t k,
    h.tracked when k,
    Dict.get-remove key k entries,
    same_iff key k,
  );
}

-- What the loop of the purge leaves behind.
record IsPurged (now : ℕ) (before entries : List (Bytes × Entry)) (next : Option ℕ)
    (ds : List Deadline) : Type 0 where
  consistent : IsConsistent entries ds
  in_time : InTime next ds
  attained : Attained next ds
  ahead : All (λ d. now < d.0) ds
  kept : (k : Bytes) → Dict.get k entries ≡ survivor now (Dict.get k before)

-- One round: the value of the first deadline is gone because it has expired.
survivor_first :
    (now when : ℕ) (key k : Bytes) (entries : List (Bytes × Entry))
    → leb when now ≡ true
    → expires_is when (Dict.get key entries) ≡ true
    → survivor now (Dict.get k (Dict.remove key entries)) ≡ survivor now (Dict.get k entries)
survivor_first now when key k entries past e = elim (Bool-cases (same key k)) [
  | inl p ↦
      rw (Dict.get-remove key k entries, p)
        (gone (Dict.get k entries) (rw ((same_iff key k).0 p) at e))
  | inr p ↦ rw (Dict.get-remove key k entries, p)
]
  where
    gone : (o : Option Entry) → expires_is when o ≡ true → none ≡ survivor now o
    gone none h = refl
    gone (some e) h = by_time e.expires_at h
      where
        by_time :
            (o : Option ℕ)
            → expires_is when (some (record { value = e.value; expires_at = o })) ≡ true
            → none ≡ survivor now (some (record { value = e.value; expires_at = o }))
        by_time none h = cc
        by_time (some t) h = ground arith

first_tracked :
    (when : ℕ) (key : Bytes) (entries : List (Bytes × Entry)) (ds : List Deadline)
    → IsConsistent entries ((when, key) ∷ ds)
    → expires_is when (Dict.get key entries) ≡ true
unfolding has same_deadline
first_tracked when key entries ds h = ground (arith, h.tracked when key, same_refl key)

purge_loop-IsPurged :
    (now : ℕ) (entries : List (Bytes × Entry)) (ds : List Deadline)
    → IsConsistent entries ds
    → let r = purge_loop now entries ds in IsPurged now entries r.1 r.0 r.2
unfolding purge_loop
purge_loop-IsPurged now entries [] h = record {
  consistent = h;
  in_time = refl;
  attained = tt;
  ahead = tt;
  kept = λ k. sym (survivor_ahead now k (Dict.get k entries) [] (λ t. h.tracked t k) tt);
}
purge_loop-IsPurged now entries ((when, key) ∷ ds) h =
    let rest =
      purge_loop-IsPurged now (Dict.remove key entries) ds (drop_first when key entries ds h) in
    elim (Bool-cases (ltb now when)) [
      | inl later ↦
          let ahead : All (λ d. now < d.0) ((when, key) ∷ ds) = (
            ltb→lt now when later,
            All-less now (when, key) ds (ltb→lt now when later) h.ordered.0,
          ) in
          let in_time : All (λ d. when ≤ d.0) ((when, key) ∷ ds) =
            (omega arith, All-first when key ds h.ordered.0) in
          rw later (record {
            consistent = h;
            in_time = in_time;
            attained = first-Attained when key ds;
            ahead = ahead;
            kept =
                λ k. sym (survivor_ahead now k (Dict.get k entries) _ (λ t. h.tracked t k) ahead);
          })
      | inr past ↦ rw past (record {
        consistent = rest.consistent;
        in_time = rest.in_time;
        attained = rest.attained;
        ahead = rest.ahead;
        kept = λ k.
            rest.kept k
            ∙ survivor_first now when key k entries (ground arith)
                (first_tracked when key entries ds h);
      })
    ]

module _ {S : Type 0} where
  -- On a well-formed database whose lock is not poisoned and which is not shutting down, a purge
  -- returns. Every key then has what it had, but for the values whose deadline is `now` or earlier,
  -- which are gone; every deadline that is left lies behind `now`; the database is well-formed; and
  -- the returned instant is that of a deadline that is left, and none of these is earlier; no
  -- instant is returned if and only if no deadline is left.
  pub purge_expired_keys_exact :
      (now : ℕ) (s : Shared S)
      → s.poisoned ≡ false
      → s.state.shutdown ≡ false
      → IsWellFormed s.state
      → (next : Option ℕ) × ((purge_expired_keys now s).0 ≡ some next)
        × InTime next (purge_expired_keys now s).1.state.expirations
        × Attained next (purge_expired_keys now s).1.state.expirations
        × All (λ d. now < d.0) (purge_expired_keys now s).1.state.expirations
        × ((k : Bytes)
            → Dict.get k (purge_expired_keys now s).1.state.entries
              ≡ survivor now (Dict.get k s.state.entries))
        × IsWellFormed (purge_expired_keys now s).1.state
  unfolding purge_expired_keys
  purge_expired_keys_exact now s live running h =
      let p = purge_loop-IsPurged now s.state.entries s.state.expirations h in
      rw (live, running)
        (
          (purge_loop now s.state.entries s.state.expirations).0,
          refl,
          p.in_time,
          p.attained,
          p.ahead,
          p.kept,
          p.consistent,
        )
