-- ===== src/Workshop/EchoServer/Echoes.antt =====
-- Every client of the echo server gets back what it has sent, whatever the others do.
use tokioconf_2026_workshop.Base.{
  ℕ, zero, suc, ◌≡◌, refl, sym, ap, subst, ◌∙◌, inl, inr, false, Option, none, some, List, [], ◌∷◌,
  ◌++◌, append_assoc, Bytes, drop, Bool-cases, All,
}
use tokioconf_2026_workshop.Workshop.Echo.{
  Place, reading, writing, returned_ok, returned_err, is_over, IsEcho, Balances, poll_echo-IsEcho,
}
use tokioconf_2026_workshop.Workshop.EchoServer.{
  Accepted, accepted, would_block, failed, Stream, System, Answers, stream, put, start, new_stream,
  spawn, wait, accept_each, bind, poll_server, polled, poll_stream, poll_task, send, Step, poll,
  turn, sends, Reach, here, next,
}

abbrev Served : Stream → Type 0
Served x = IsEcho x.sent x.echo

abbrev AllServed : System → Type 0
AllServed s = All Served s.streams

sent-Balances :
    (more sent output input : Bytes) (p : Place)
    → Balances sent p output input
    → Balances (sent ++ more) p output (input ++ more)
sent-Balances more sent output input reading h =
    sym (append_assoc output input more) ∙ ap (λ b. b ++ more) h
sent-Balances more sent output input (writing buf pos) h =
    ap (λ b. output ++ b) (sym (append_assoc (drop pos buf) input more))
    ∙ sym (append_assoc output (drop pos buf ++ input) more)
    ∙ ap (λ b. b ++ more) h
sent-Balances more sent output input returned_ok h =
    sym (append_assoc output input more) ∙ ap (λ b. b ++ more) h
sent-Balances more sent output input returned_err (lost, h) = (
  lost,
  ap (λ b. output ++ b) (sym (append_assoc lost input more))
      ∙ sym (append_assoc output (lost ++ input) more)
      ∙ ap (λ b. b ++ more) h,
)

All-put :
    (i : ℕ) (y : Stream) (xs : List Stream) → Served y → All Served xs → All Served (put xs i y)
All-put i y [] h hs = tt
All-put zero y (x ∷ xs) h (hx, hs) = (h, hs)
All-put (suc i) y (x ∷ xs) h (hx, hs) = (hx, All-put i y xs h hs)

All-stream :
    (i : ℕ) (x : Stream) (xs : List Stream) → All Served xs → stream xs i ≡ some x → Served x
All-stream i x [] hs e = absurd cc
All-stream zero x (y ∷ xs) (h, hs) e = subst Served (some_stream e) h
  where
    some_stream : {a b : Stream} → some a ≡ some b → a ≡ b
    some_stream p = cc
All-stream (suc i) x (y ∷ xs) (h, hs) e = All-stream i x xs hs e

All-end : (y : Stream) (xs : List Stream) → Served y → All Served xs → All Served (xs ++ y ∷ [])
All-end y [] h hs = (h, tt)
All-end y (x ∷ xs) h (hx, hs) = (hx, All-end y xs h hs)

some_system : {s t : System} → some s ≡ some t → s ≡ t
some_system e = cc

none≢some : {t : System} → none ≡ some t → ⊥
none≢some p = cc

accept_each-AllServed :
    (token : ℕ) (accepts : List Accepted) (s t : System)
    → AllServed s
    → accept_each token accepts s ≡ some t
    → AllServed t
unfolding accept_each spawn wait new_stream
accept_each-AllServed token [] s t h e = subst AllServed (some_system e) h
accept_each-AllServed token (accepted input ∷ later) s t h e =
    accept_each-AllServed token later (spawn input s) t (All-end _ s.streams refl h) e
accept_each-AllServed token (would_block ∷ later) s t h e = subst AllServed (some_system e) h
accept_each-AllServed token (failed ∷ later) s t h e = absurd (none≢some e)

server-AllServed :
    (a : Answers) (o : Option ℕ) (s t : System)
    → AllServed s
    → poll_server a o s ≡ some t
    → AllServed t
unfolding poll_server
server-AllServed a (some token) s t h e = accept_each-AllServed token a.accepts s t h e
server-AllServed a none s t h e = elim (Bool-cases a.binds) [
  | inl b ↦ accept_each-AllServed (bind s).0 a.accepts (bind s).1 t h (rw b at e)
  | inr b ↦ absurd (none≢some (rw b at e))
]

stream-AllServed :
    (a : Answers) (i : ℕ) (o : Option Stream) (s t : System)
    → stream s.streams i ≡ o
    → AllServed s
    → poll_stream a i o s ≡ some t
    → AllServed t
unfolding poll_stream polled
stream-AllServed a i none s t f h e = absurd (none≢some e)
stream-AllServed a i (some x) s t f h e = elim (Bool-cases (is_over x.echo.place)) [
  | inl b ↦ absurd (none≢some (rw b at e))
  | inr b ↦ subst AllServed (some_system (rw b at e)) (
      All-put i (polled (suc i) a.calls x s.reactor) s.streams
        (poll_echo-IsEcho x.token x.sent (suc i) a.calls
          (record x.echo { reactor = s.reactor; is_pending = false })
          (All-stream i x s.streams h f))
        h)
]

task-AllServed :
    (a : Answers) (i : ℕ) (s t : System) → AllServed s → poll_task a i s ≡ some t → AllServed t
unfolding poll_task
task-AllServed a zero s t h e = server-AllServed a s.listener s t h e
task-AllServed a (suc i) s t h e = stream-AllServed a i (stream s.streams i) s t refl h e

Step-AllServed : {s t : System} → AllServed s → Step s t → AllServed t
unfolding send
Step-AllServed {s} {t} h (poll i rest a _ e f) =
    task-AllServed a i (record s { queue = rest }) t h f
Step-AllServed h (turn events e) = h
Step-AllServed {s} h (sends i x input e) =
    All-put i (send input x) s.streams
      (sent-Balances input x.sent x.echo.output x.echo.input x.echo.place
        (All-stream i x s.streams h e))
      h

Reach-AllServed : {s : System} → Reach s → AllServed s
unfolding start
Reach-AllServed here = tt
Reach-AllServed (next r st) = Step-AllServed (Reach-AllServed r) st

-- However the clients, the operating system and the tasks take turns: what the server has written
-- to a client, the part in its task's buffer that is still to be written, and what it has not read
-- are together what this client has sent, in order. If the task has returned without an error, no part
-- is in between; if it has returned with one, that part is lost.
pub Reach-IsEcho :
    (s : System) (i : ℕ) (x : Stream) → Reach s → stream s.streams i ≡ some x → IsEcho x.sent x.echo
Reach-IsEcho s i x r e = All-stream i x s.streams (Reach-AllServed r) e
