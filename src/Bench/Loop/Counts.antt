-- ===== src/Bench/Loop/Counts.antt =====
-- How many requests a connection of the benchmark sends, and how many responses it counts.
use tokioconf_2026_workshop.Base.{
  ℕ, zero, suc, ◌+◌, ◌-◌, ◌*◌, ◌≤◌, ◌<◌, ◌≡◌, refl, ◌∙◌, ◌⊎◌, subst, inl, inr, Bool, true, false,
  List, [], ◌∷◌, ◌++◌, arith, Bytes, leb, ◌==◌, if◌then◌else◌, ok, err, panic, out_of_fuel,
  and_then, length, length-append, Bool-cases, drop,
}
use mathlib.Core.Option
use tokioconf_2026_workshop.Bench.{Phase, Parsed, parse_responses, try_parse_response}
use tokioconf_2026_workshop.Bench.Loop.{
  Conn, Ready, batch_size_of, new_conn, flush, receive, is_done, on_writable, samples, next_batch,
  on_readable, then_readable, on_event, run_events,
}

-- A result satisfies `P`, if there is one.
abbrev pub Returns : {A : Type 0} → (A → Type 0) → Parsed A → Type 0
Returns P (ok a) = P a
Returns P (err _) = Unit
Returns P panic = Unit
Returns P out_of_fuel = Unit

pub then-Returns :
    {A B : Type 0} (P : A → Type 0) (Q : B → Type 0) (r : Parsed A) (f : A → Parsed B)
    → Returns P r
    → ((a : A) → P a → Returns Q (f a))
    → Returns Q (and_then r f)
then-Returns P Q (ok a) f h k = k a h
then-Returns P Q (err _) f h k = tt
then-Returns P Q panic f h k = tt
then-Returns P Q out_of_fuel f h k = tt

pub any-Returns : {A : Type 0} (r : Parsed A) → Returns (λ _. Unit) r
any-Returns (ok a) = tt
any-Returns (err _) = tt
any-Returns panic = tt
any-Returns out_of_fuel = tt

parse_responses-Returns : (n : ℕ) (buf : Bytes) → Returns (λ r. r.0 ≤ n) (parse_responses n buf)
unfolding parse_responses
parse_responses-Returns zero buf = omega arith
parse_responses-Returns (suc n) [] = omega arith
parse_responses-Returns (suc n) (b ∷ s) =
    by_first (λ used. parse_responses-Returns n (drop used (b ∷ s)))
      (try_parse_response (suc (length (b ∷ s))) (b ∷ s))
  where
    weaker : (r : Parsed (ℕ × Bytes)) → Returns (λ r. r.0 ≤ n) r → Returns (λ r. r.0 ≤ suc n) r
    weaker (ok (m, rest)) h = omega arith
    weaker (err _) h = tt
    weaker panic h = tt
    weaker out_of_fuel h = tt

    by_first :
        ((used : ℕ) → Returns (λ r. r.0 ≤ n) (parse_responses n (drop used (b ∷ s))))
        → (o : Parsed ℕ)
        → Returns
            (λ r. r.0 ≤ suc n)
            (elim o as (λ _. Parsed (ℕ × Bytes)) [
              | ok used ↦ parse_responses n (drop used (b ∷ s))
              | err _ ↦ ok (suc n, b ∷ s)
              | panic ↦ panic
              | out_of_fuel ↦ out_of_fuel
            ])
    by_first ih (ok used) = weaker _ (ih used)
    by_first ih (err _) = omega arith
    by_first ih panic = tt
    by_first ih out_of_fuel = tt

-- `n` responses are counted, of batches of `b` requests that are to be `t` at least.
pub record Inv (b t n : ℕ) (c : Conn) : Type 0 where
  pub size : c.batch_size ≡ b
  pub goal : c.total ≡ t
  pub balance : n + c.pending ≡ c.sent
  pub batches : (k : ℕ) × (c.sent ≡ k * b)
  pub below : c.sent < t + b

length-samples : (latency n : ℕ) → length (samples latency n) ≡ n
unfolding samples
length-samples latency zero = refl
length-samples latency (suc n) = ground (arith, length-samples latency n)

next_batch-Inv : (b t n : ℕ) (c : Conn) → Inv b t n c → Inv b t n (next_batch c).0
unfolding next_batch
next_batch-Inv b t n c v = elim (Bool-cases (c.pending == 0)) [
  | inr e ↦ rw e v
  | inl e ↦ elim (Bool-cases (leb c.total c.sent)) [
    | inl f ↦
        rw (e, f)
          (record {
            size = v.size;
            goal = v.goal;
            balance = ground (arith, v.balance);
            batches = v.batches;
            below = v.below;
          })
    | inr f ↦
        let (k, whole) = v.batches in
        rw (e, f)
          (record {
            size = v.size;
            goal = v.goal;
            balance = ground (arith, v.balance);
            batches = (suc k, rw (whole, v.size) (omega arith));
            below = ground (arith, v.size, v.goal);
          })
  ]
]

on_readable-Inv :
    (b t n : ℕ) (r : Ready) (c : Conn)
    → Inv b t n c
    → Returns (λ p. Inv b t (n + length p.1) p.0) (on_readable r c)
unfolding on_readable
on_readable-Inv b t n r c v =
    then-Returns (λ _. Unit) _ (receive r.reads c.recv) _ (any-Returns _)
      λ recv _.
        then-Returns (λ p. p.0 ≤ c.pending) _ (parse_responses c.pending recv) _
          (parse_responses-Returns c.pending recv)
          λ p fewer. next_batch-Inv b t _ _ (record {
            size = v.size;
            goal = v.goal;
            balance = omega (
              arith,
              length-samples (Option.get_or c.batch_latency (r.read_at - c.batch_start))
                  (c.pending - p.0),
              v.balance,
            );
            batches = v.batches;
            below = v.below;
          })

on_writable-Inv :
    (b t n : ℕ) (r : Ready) (c : Conn)
    → Inv b t n c
    → Returns (λ p. Inv b t n p.0) (on_writable r c)
unfolding on_writable
on_writable-Inv b t n r c v =
    then-Returns (λ _. Unit) _ (flush r.writes (length c.obuf) c.written) _ (any-Returns _)
      λ written _. elim (Bool-cases (written == length c.obuf)) [
        | inl e ↦ rw e (record {
          size = v.size;
          goal = v.goal;
          balance = v.balance;
          batches = v.batches;
          below = v.below;
        })
        | inr e ↦ rw e (record {
          size = v.size;
          goal = v.goal;
          balance = v.balance;
          batches = v.batches;
          below = v.below;
        })
      ]

-- Nothing counted.
none_more : (b t n : ℕ) (c : Conn) → Inv b t n c → Inv b t (n + 0) c
none_more b t n c v = let e : n + 0 ≡ n = omega arith in rw e v

then_readable-Inv :
    (b t n : ℕ) (r : Ready) (p : Conn × Bool)
    → Inv b t n p.0
    → Returns (λ p. Inv b t (n + length p.1) p.0) (then_readable r p)
unfolding then_readable
then_readable-Inv b t n r (c, true) v = none_more b t n c v
then_readable-Inv b t n r (c, false) v = elim (Bool-cases r.is_readable) [
  | inl e ↦ rw e (on_readable-Inv b t n r c v)
  | inr e ↦ rw e (none_more b t n c v)
]

pub on_event-Inv :
    (b t n : ℕ) (r : Ready) (c : Conn)
    → Inv b t n c
    → Returns (λ p. Inv b t (n + length p.1) p.0) (on_event r c)
unfolding on_event
on_event-Inv b t n r c v = elim (Bool-cases (is_done c)) [
  | inl e ↦ rw e (none_more b t n c v)
  | inr e ↦ rw e (
      then-Returns (λ p. Inv b t n p.0) _ _ (then_readable r) (first (Bool-cases r.is_writable))
        (λ p w. then_readable-Inv b t n r p w))
]
  where
    first :
        ((r.is_writable ≡ true) ⊎ (r.is_writable ≡ false))
        → Returns (λ p. Inv b t n p.0) (if r.is_writable then on_writable r c else ok (c, false))
    first (inl e) = rw e (on_writable-Inv b t n r c v)
    first (inr e) = rw e v

run_events-Inv :
    (b t n : ℕ) (rs : List Ready) (c : Conn)
    → Inv b t n c
    → Returns (λ p. Inv b t (n + length p.1) p.0) (run_events rs c)
unfolding run_events
run_events-Inv b t n [] c v = none_more b t n c v
run_events-Inv b t n (r ∷ rs) c v =
    then-Returns (λ p. Inv b t (n + length p.1) p.0) _ (on_event r c) _ (on_event-Inv b t n r c v)
      λ p w.
        then-Returns (λ q. Inv b t (n + length p.1 + length q.1) q.0) _ (run_events rs p.0) _
          (run_events-Inv b t (n + length p.1) rs p.0 w)
          λ q u.
            let e : n + length (p.1 ++ q.1) ≡ n + length p.1 + length q.1 =
              omega (arith, length-append p.1 q.1) in
            rw e u

pub new_conn-Inv :
    (phase : Phase) (i pipeline requests : ℕ) (value : Bytes) (now : ℕ)
    → 0 < requests
    → let c = new_conn phase i pipeline requests value now in Inv c.batch_size requests 0 c
unfolding new_conn batch_size_of
new_conn-Inv phase i pipeline requests value now k = record {
  size = refl;
  goal = refl;
  balance = omega arith;
  batches = (1, omega arith);
  below = omega arith;
}

-- A connection of the benchmark, with at least one request to make, runs through any events and is
-- done at the end. It has then counted at least as many responses as
-- requests were to be made, and a whole number of batches; fewer than a whole batch are too many.
pub run_events-is_done :
    (phase : Phase) (i pipeline requests : ℕ) (value : Bytes) (now : ℕ) (rs : List Ready) (c : Conn)
    (latencies : List ℕ)
    → 0 < requests
    → run_events rs (new_conn phase i pipeline requests value now) ≡ ok (c, latencies)
    → is_done c ≡ true
    → (requests ≤ length latencies)
      × (length latencies < requests + batch_size_of pipeline requests)
      × ((k : ℕ) × (length latencies ≡ k * batch_size_of pipeline requests))
unfolding is_done new_conn
run_events-is_done phase i pipeline requests value now rs c latencies k ran finished =
    let v =
      subst (Returns (λ p. Inv (batch_size_of pipeline requests) requests (0 + length p.1) p.0)) ran
        (run_events-Inv _ requests 0 rs _ (new_conn-Inv phase i pipeline requests value now k)) in
    let (m, whole) = v.batches in
    let counted : length latencies ≡ c.sent = ground (arith, v.balance) in
    (ground (arith, v.goal, counted), omega (arith, v.below, counted), (m, counted ∙ whole))
