-- ===== src/Client/Buffered/Queue.antt =====
-- The channel between the handles and the task of the buffered client: bounded, and first in first
-- out.
use tokioconf_2026_workshop.Base.{
  ℕ, ◌≤◌, ◌≡◌, refl, sym, ap, ◌∙◌, some, List, [], ◌∷◌, ◌++◌, append_assoc, arith, ok, err, panic,
  out_of_fuel, length, length-append, inl, inr, Bool-cases, ltb, ltb→lt,
}
use tokioconf_2026_workshop.Client.{returned}
use tokioconf_2026_workshop.Client.Buffered.{
  Message, Response, Ran, forward, run, respond, send, capacity,
}
use tokioconf_2026_workshop.Connection.{Connection, Arrival}
use tokioconf_2026_workshop.Std.Platform.{Platform}

-- All messages that were sent, those still in the channel, the connection of the task, what the
-- network brings it, and the responses that it has sent.
pub record Buffer : Type 0 where
  pub sent : List Message
  pub queue : List Message
  pub connection : Connection
  pub later : List Arrival
  pub responses : List (ℕ × Response)

-- The calls that leave the task its connection.
abbrev pub Answer : Response → Type 0
Answer (ok v) = Unit
Answer (err m) = Unit
Answer panic = ⊥
Answer out_of_fuel = ⊥

module _ (pf : Platform) where
  pub data Step (b : Buffer) : Buffer → Type 0 where
    sends :
        (m : Message) (queue : List Message)
        → send m b.queue ≡ some queue
        → Step b (record b { sent = b.sent ++ m ∷ []; queue = queue })
    serves :
        (m : Message) (rest : List Message) (r : Response) (c : Connection) (later : List Arrival)
        → b.queue ≡ m ∷ rest
        → forward pf m.command b.connection b.later ≡ returned r c later
        → Answer r
        → Step b (record b {
          queue = rest;
          connection = c;
          later = later;
          responses = b.responses ++ (m.tx, r) ∷ [];
        })

  -- From a connection on which `later` is still to come.
  pub data Reach (c : Connection) (later : List Arrival) : Buffer → Type 0 where
    here :
        Reach c later
          (record { sent = []; queue = []; connection = c; later = later; responses = [] })
    next : {b b' : Buffer} → Reach c later b → Step b b' → Reach c later b'

  abbrev pub behind : List (ℕ × Response) → Ran → Ran
  behind rs (more, end) = (rs ++ more, end)

  served :
      (m : Message) (rest : List Message) (r : Response) (c c' : Connection) (l l' : List Arrival)
      → forward pf m.command c l ≡ returned r c' l'
      → Answer r
      → run pf (m ∷ rest) c l ≡ behind ((m.tx, r) ∷ []) (run pf rest c' l')
  unfolding run respond
  served m rest (ok v) c c' l l' e h = rw e
  served m rest (err m') c c' l l' e h = rw e
  served m rest panic c c' l l' e h = absurd h
  served m rest out_of_fuel c c' l l' e h = absurd h

  -- The messages that were taken, and what any messages behind them get.
  record Inv (c : Connection) (later : List Arrival) (b : Buffer) : Type 0 where
    room : length b.queue ≤ capacity
    taken : List Message
    in_order : b.sent ≡ taken ++ b.queue
    future :
        (ms : List Message)
        → run pf (taken ++ ms) c later ≡ behind b.responses (run pf ms b.connection b.later)

  send-Inv :
      (m : Message) (queue queue' : List Message)
      → send m queue ≡ some queue'
      → (queue' ≡ queue ++ m ∷ []) × (length queue' ≤ capacity)
  unfolding send
  send-Inv m queue queue' e = elim (Bool-cases (ltb (length queue) capacity)) [
    | inl h ↦
        let e' : queue' ≡ queue ++ m ∷ [] = cc (rw h at e) in
        (e', rw e' (omega (arith, length-append queue (m ∷ []), ltb→lt _ _ h)))
    | inr h ↦ absurd (cc (rw h at e))
  ]

  sends-Inv :
      (c : Connection) (later : List Arrival) (b : Buffer) (m : Message) (queue : List Message)
      → Inv c later b
      → send m b.queue ≡ some queue
      → Inv c later (record b { sent = b.sent ++ m ∷ []; queue = queue })
  sends-Inv c later b m queue v e =
      let (queued, room) = send-Inv m b.queue queue e in
      record {
        room = room;
        taken = v.taken;
        in_order =
            ap (λ l. l ++ m ∷ []) v.in_order
            ∙ append_assoc v.taken b.queue (m ∷ [])
            ∙ ap (λ q. v.taken ++ q) (sym queued);
        future = v.future;
      }

  behind_twice :
      (rs : List (ℕ × Response)) (a : ℕ × Response) (r : Ran)
      → behind rs (behind (a ∷ []) r) ≡ behind (rs ++ a ∷ []) r
  behind_twice rs a (more, end) = ap (λ l. (l, end)) (sym (append_assoc rs (a ∷ []) more))

  serves-Inv :
      (c : Connection) (later : List Arrival) (b : Buffer) (m : Message) (rest : List Message)
      (r : Response) (c' : Connection) (l' : List Arrival)
      → Inv c later b
      → b.queue ≡ m ∷ rest
      → forward pf m.command b.connection b.later ≡ returned r c' l'
      → Answer r
      → Inv c later (record b {
        queue = rest;
        connection = c';
        later = l';
        responses = b.responses ++ (m.tx, r) ∷ [];
      })
  serves-Inv c later b m rest r c' l' v e found h = record {
    room = omega (arith, v.room, ap length e);
    taken = v.taken ++ m ∷ [];
    in_order = v.in_order ∙ ap (λ q. v.taken ++ q) e ∙ sym (append_assoc v.taken (m ∷ []) rest);
    future = λ ms.
        ap (λ l. run pf l c later) (append_assoc v.taken (m ∷ []) ms)
        ∙ v.future (m ∷ ms)
        ∙ ap (behind b.responses) (served m ms r b.connection c' b.later l' found h)
        ∙ behind_twice b.responses (m.tx, r) (run pf ms c' l');
  }

  Reach-Inv : {c : Connection} {later : List Arrival} {b : Buffer} → Reach c later b → Inv c later b
  Reach-Inv here = record { room = omega arith; taken = []; in_order = refl; future = λ ms. refl }
  Reach-Inv {c} {later} (next {b} reached (sends m queue e)) =
      sends-Inv c later b m queue (Reach-Inv reached) e
  Reach-Inv {c} {later} (next {b} reached (serves m rest r c' l' e found h)) =
      serves-Inv c later b m rest r c' l' (Reach-Inv reached) e found h

  -- However the sends of the handles and the rounds of the task come after one another: no more than
  -- 32 messages wait, and the task answers as if all messages had been there from the start, in the
  -- order in which they were sent. The responses that it has sent are the first of those that a
  -- run on all messages sends, and a run on the waiting messages sends the rest.
  pub Reach-in_order :
      (c : Connection) (later : List Arrival) (b : Buffer)
      → Reach c later b
      → (length b.queue ≤ capacity)
        × (run pf b.sent c later ≡ behind b.responses (run pf b.queue b.connection b.later))
  Reach-in_order c later b reached =
      let v = Reach-Inv reached in
      (v.room, ap (λ l. run pf l c later) v.in_order ∙ v.future b.queue)
