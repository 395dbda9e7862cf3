-- ===== src/Client/Buffered.antt =====
-- mini-redis/src/clients/buffered_client.rs: handles that send their commands to the one task that
-- owns the client. A caller's oneshot channel is a number.
pub mod Served
pub mod Answered
pub mod Queue
use tokioconf_2026_workshop.Base.{
  ℕ, Option, none, some, List, [], ◌∷◌, ◌++◌, Bytes, codes, Outcome, ok, err, panic, out_of_fuel,
  length, ltb, if◌then◌else◌,
}
use tokioconf_2026_workshop.Client.{
  Call, returned, broken, pending, then_call, client_get, client_set,
}
use tokioconf_2026_workshop.Connection.{Connection, Arrival}
use tokioconf_2026_workshop.Frame
use tokioconf_2026_workshop.Frame.{text}
use tokioconf_2026_workshop.Std.Platform.{Platform}

pub data Command : Type 0 where
  get : Bytes → Command
  set : Bytes → Bytes → Command

pub record Message : Type 0 where
  pub command : Command
  pub tx : ℕ

-- What a task that has sent a command receives.
abbrev pub Response : Type 0
Response = Outcome Frame.Message (Option Bytes)

-- The responses that were sent, and how the call of the last command ended.
abbrev pub Ran : Type 0
Ran = List (ℕ × Response) × Call (Unit {0})

-- The response is sent back; behind a panic of the task nothing is. A failure to write ends
-- the model, not the task.
unfoldable pub respond : ℕ → Call (Option Bytes) → (Connection → List Arrival → Ran) → Ran
respond tx (returned (ok v) c later) k = let (rs, end) = k c later in ((tx, ok v) ∷ rs, end)
respond tx (returned (err m) c later) k = let (rs, end) = k c later in ((tx, err m) ∷ rs, end)
respond tx (returned panic c later) k = ([], broken panic)
respond tx (returned out_of_fuel c later) k = ([], broken out_of_fuel)
respond tx (broken (err m)) k = ((tx, err m) ∷ [], broken (err m))
respond tx (broken (ok _)) k = ([], broken (ok tt))
respond tx (broken panic) k = ([], broken panic)
respond tx (broken out_of_fuel) k = ([], broken out_of_fuel)
respond tx (pending c) k = ([], pending c)

module _ (pf : Platform) where
  -- The command is forwarded to the connection.
  unfoldable pub forward : Command → Connection → List Arrival → Call (Option Bytes)
  unfolding client_get client_set
  forward (get key) c later = client_get pf key c later
  forward (set key value) c later =
      then_call (client_set pf key value c later) λ _ c' later'. returned (ok none) c' later'

  -- The loop of the task, on the messages in the order in which the channel brings them.
  unfoldable pub run : List Message → Connection → List Arrival → Ran
  unfolding forward respond
  run [] c later = ([], returned (ok tt) c later)
  run (m ∷ ms) c later = respond m.tx (forward m.command c later) λ c' later'. run ms c' later'

abbrev pub capacity : ℕ
capacity = 32

-- `self.tx.send(...)`; `none` waits for room.
unfoldable pub send : Message → List Message → Option (List Message)
send m queue = if ltb (length queue) capacity then some (queue ++ m ∷ []) else none

-- `rx.await`; the sender may have been dropped.
unfoldable pub await_get : Option Response → Response
await_get (some res) = res
await_get none = err (text (codes "channel closed"))

unfoldable pub await_set : Option Response → Outcome Frame.Message (Unit {0})
await_set (some (ok v)) = ok tt
await_set (some (err m)) = err m
await_set (some panic) = panic
await_set (some out_of_fuel) = out_of_fuel
await_set none = err (text (codes "channel closed"))
