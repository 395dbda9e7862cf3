-- ===== src/Workshop/Echo.antt =====
-- workshop/src/solutions/ex3.rs: `TcpStream::read`, `TcpStream::write_all` and `echo`, as a task that is
-- polled. What the socket answers to each call is an input.
use tokioconf_2026_workshop.Base.{
  ℕ, zero, suc, ◌+◌, ◌≡◌, ◌≢◌, refl, sym, ap, ◌∙◌, inl, inr, Bool, true, false, ◌||◌, List, [], ◌∷◌,
  ◌++◌, append_assoc, arith, Bytes, ltb, ◌==◌, if◌then◌else◌, length, take, drop, take-append-drop,
  Bool-cases,
}
use tokioconf_2026_workshop.Workshop.Reactor.{
  Reactor, set_waker, turn, contains, Occurs, notify_token, turn-wakes,
}

-- `Ok(n)`, an error that asks to wait, or another one.
pub data Answer : Type 0 where
  moved : ℕ → Answer
  would_block : Answer
  failed : Answer

-- Where `echo` is: in `read`, in `write_all` with what `buf` holds and `pos`, or returned.
pub data Place : Type 0 where
  reading : Place
  writing : Bytes → ℕ → Place
  returned_ok : Place
  returned_err : Place

-- `input` is what the client sends and `echo` has not read, `output` what it has written.
pub record Echo (W : Type 0) : Type 0 where
  pub place : Place
  pub input : Bytes
  pub output : Bytes
  pub reactor : Reactor W
  pub is_pending : Bool

-- `while pos < buf.len()`
unfoldable pub write_head : Bytes → ℕ → Place
write_head buf pos = if ltb pos (length buf) then writing buf pos else reading

unfoldable pub is_over : Place → Bool
is_over reading = false
is_over (writing buf pos) = false
is_over returned_ok = true
is_over returned_err = true

module _ {W : Type 0} (token : ℕ) where
  unfoldable pub wait : W → Echo W → Echo W
  unfolding set_waker
  wait w x = record x { reactor = set_waker token w x.reactor; is_pending = true }

  -- `n` bytes of the input are in the buffer.
  unfoldable pub on_read : W → Answer → Echo W → Echo W
  unfolding wait write_head
  on_read w (moved n) x =
      if n == 0
      then record x { place = returned_ok }
      else record x { place = write_head (take n x.input) 0; input = drop n x.input }
  on_read w would_block x = wait w x
  on_read w failed x = record x { place = returned_err }

  unfoldable pub on_write : W → Bytes → ℕ → Answer → Echo W → Echo W
  unfolding wait write_head
  on_write w buf pos (moved n) x = record x {
    place = write_head buf (pos + n);
    output = x.output ++ take n (drop pos buf);
  }
  on_write w buf pos would_block x = wait w x
  on_write w buf pos failed x = record x { place = returned_err }

  unfoldable pub attempt : W → Answer → Place → Echo W → Echo W
  unfolding on_read on_write
  attempt w a reading x = on_read w a x
  attempt w a (writing buf pos) x = on_write w buf pos a x
  attempt w a returned_ok x = x
  attempt w a returned_err x = x

  -- One poll of a task that has not returned, with its waker: calls of the socket until one would block or `echo` returns.
  unfoldable pub poll_echo : W → List Answer → Echo W → Echo W
  unfolding attempt is_over
  poll_echo w [] x = wait w x
  poll_echo w (a ∷ later) x =
      let y = attempt w a x.place x in
      let rest = poll_echo w later y in if y.is_pending || is_over y.place then y else rest

  unfoldable pub run_polls : List (W × List Answer) → Echo W → Echo W
  unfolding poll_echo is_over
  run_polls [] x = x
  run_polls ((w, answers) ∷ polls) x =
      let rest = run_polls polls (poll_echo w answers (record x { is_pending = false })) in
      if is_over x.place then x else rest

drop-drop : (n m : ℕ) (s : Bytes) → drop (n + m) s ≡ drop m (drop n s)
drop-drop zero m s = let e : 0 + m ≡ m = omega arith in rw e
drop-drop (suc n) zero [] = let e : suc n + 0 ≡ suc n = omega arith in rw e
drop-drop (suc n) (suc m) [] = let e : suc n + suc m ≡ suc (n + suc m) = omega arith in rw e
drop-drop (suc n) m (b ∷ s) =
    let e : suc n + m ≡ suc (n + m) = omega arith in rw e (drop-drop n m s)

-- What was read is written, but for the part that is still to be written, or was when an error came.
abbrev pub Balances : Bytes → Place → Bytes → Bytes → Type 0
Balances sent reading output input = output ++ input ≡ sent
Balances sent (writing buf pos) output input = output ++ (drop pos buf ++ input) ≡ sent
Balances sent returned_ok output input = output ++ input ≡ sent
Balances sent returned_err output input = (lost : Bytes) × (output ++ (lost ++ input) ≡ sent)

abbrev pub IsEcho : {W : Type 0} → Bytes → Echo W → Type 0
IsEcho sent x = Balances sent x.place x.output x.input

drop-none : (n : ℕ) (s : Bytes) → ltb n (length s) ≡ false → drop n s ≡ []
drop-none zero [] h = refl
drop-none zero (b ∷ s) h = absurd (ground arith)
drop-none (suc n) [] h = refl
drop-none (suc n) (b ∷ s) h = drop-none n s (ground arith)

true≢false : true ≡ false → ⊥
true≢false e = cc

module _ {W : Type 0} (token : ℕ) where
  head-IsEcho :
      (sent buf : Bytes) (pos : ℕ) (x : Echo W)
      → x.output ++ (drop pos buf ++ x.input) ≡ sent
      → Balances sent (write_head buf pos) x.output x.input
  unfolding write_head
  head-IsEcho sent buf pos x h = elim (Bool-cases (ltb pos (length buf))) [
    | inl e ↦ rw e h
    | inr e ↦ rw (e) (ap (λ r. x.output ++ (r ++ x.input)) (sym (drop-none pos buf e)) ∙ h)
  ]

  attempt-IsEcho :
      (sent : Bytes) (w : W) (a : Answer) (p : Place) (x : Echo W)
      → x.place ≡ p
      → Balances sent p x.output x.input
      → IsEcho sent (attempt token w a p x)
  unfolding attempt on_read on_write wait
  attempt-IsEcho sent w (moved n) reading x e h = elim (Bool-cases (n == 0)) [
    | inl z ↦ rw z h
    | inr z ↦ rw z (
        head-IsEcho sent (take n x.input) 0 (record x { input = drop n x.input })
          (ap (λ r. x.output ++ r) (take-append-drop n x.input) ∙ h))
  ]
  attempt-IsEcho sent w would_block reading x e h = rw e h
  attempt-IsEcho sent w failed reading x e h = ([], h)
  attempt-IsEcho sent w (moved n) (writing buf pos) x e h =
      head-IsEcho sent buf (pos + n) (record x { output = x.output ++ take n (drop pos buf) })
        (append_assoc x.output (take n (drop pos buf)) (drop (pos + n) buf ++ x.input)
          ∙ ap (λ r. x.output ++ r)
              (sym (append_assoc (take n (drop pos buf)) (drop (pos + n) buf) x.input)
                ∙ ap (λ r. r ++ x.input)
                    (ap (λ r. take n (drop pos buf) ++ r) (drop-drop pos n buf)
                      ∙ take-append-drop n (drop pos buf)))
          ∙ h)
  attempt-IsEcho sent w would_block (writing buf pos) x e h = rw e h
  attempt-IsEcho sent w failed (writing buf pos) x e h = (drop pos buf, h)
  attempt-IsEcho sent w a returned_ok x e h = rw e h
  attempt-IsEcho sent w a returned_err x e h = rw e h

  pub poll_echo-IsEcho :
      (sent : Bytes) (w : W) (answers : List Answer) (x : Echo W)
      → IsEcho sent x
      → IsEcho sent (poll_echo token w answers x)
  unfolding poll_echo wait
  poll_echo-IsEcho sent w [] x h = h
  poll_echo-IsEcho sent w (a ∷ later) x h =
      let y = attempt token w a x.place x in
      let now = attempt-IsEcho sent w a x.place x refl h in
      elim (Bool-cases (y.is_pending || is_over y.place)) [
        | inl e ↦ rw e now
        | inr e ↦ rw e (poll_echo-IsEcho sent w later y now)
      ]

  -- Whatever the socket answers, and however often the task is polled: what `echo` has written and
  -- what it has not read are, together with the part in its buffer that is still to be written, what
  -- the client sends, in order. If `echo` has returned without an error, nothing is in between; if it
  -- has returned with one, the part in its buffer is lost.
  pub run_polls-IsEcho :
      (sent : Bytes) (polls : List (W × List Answer)) (x : Echo W)
      → IsEcho sent x
      → IsEcho sent (run_polls token polls x)
  unfolding run_polls
  run_polls-IsEcho sent [] x h = h
  run_polls-IsEcho sent ((w, answers) ∷ polls) x h = elim (Bool-cases (is_over x.place)) [
    | inl e ↦ rw e h
    | inr e ↦ rw e (
        run_polls-IsEcho sent polls (poll_echo token w answers (record x { is_pending = false }))
          (poll_echo-IsEcho sent w answers (record x { is_pending = false }) h))
  ]

  -- Only an answer that asks to wait makes the task pending.
  attempt-wait :
      (w : W) (a : Answer) (p : Place) (x : Echo W)
      → x.is_pending ≡ false
      → (attempt token w a p x).is_pending ≡ true
      → (attempt token w a p x).reactor ≡ set_waker token w x.reactor
  unfolding attempt on_read on_write wait
  attempt-wait w (moved n) reading x h e = ground arith
  attempt-wait w would_block reading x h e = refl
  attempt-wait w failed reading x h e = cc
  attempt-wait w (moved n) (writing buf pos) x h e = cc
  attempt-wait w would_block (writing buf pos) x h e = refl
  attempt-wait w failed (writing buf pos) x h e = cc
  attempt-wait w a returned_ok x h e = cc
  attempt-wait w a returned_err x h e = cc

  wait-set_waker :
      (w : W) (answers : List Answer) (x : Echo W)
      → x.is_pending ≡ false
      → (poll_echo token w answers x).is_pending ≡ true
      → (r : Reactor W) × ((poll_echo token w answers x).reactor ≡ set_waker token w r)
  unfolding poll_echo wait
  wait-set_waker w [] x h e = (x.reactor, refl)
  wait-set_waker w (a ∷ later) x h e =
      let y = attempt token w a x.place x in
      elim (Bool-cases y.is_pending) [
        | inl p ↦ (x.reactor, rw p (attempt-wait w a x.place x h p))
        | inr p ↦ elim (Bool-cases (is_over y.place)) [
          | inl o ↦ absurd (true≢false (sym (rw (p, o) at e) ∙ p))
          | inr o ↦ rw (p, o) (wait-set_waker w later y p (rw (p, o) at e))
        ]
      ]

  -- If a poll ends with the task pending, then a turn of the reactor with an event of the socket's
  -- token wakes the waker of that poll. The token is not the one of the executor's own signal.
  pub poll_echo-wakes :
      (w : W) (answers : List Answer) (x : Echo W) (ts : List ℕ)
      → token ≢ notify_token
      → contains token ts ≡ true
      → x.is_pending ≡ false
      → (poll_echo token w answers x).is_pending ≡ true
      → Occurs w (turn ts (poll_echo token w answers x).reactor []).1
  poll_echo-wakes w answers x ts other told h e =
      let (r, stored) = wait-set_waker w answers x h e in
      rw stored ((turn-wakes ts r token w other told).0)
