-- ===== src/Tests/Buffering.antt =====
-- The buffered client at concrete inputs: two tasks share a connection.
use tokioconf_2026_workshop.Base.{
  ◌+◌, ◌^◌, ◌≤◌, ◌<◌, ◌≡◌, refl, sym, ap, ◌∙◌, Option, none, some, List, [], ◌∷◌, map, append-nil,
  arith, Bytes, codes, ok, length, same,
}
use mathlib.Core.List.{flatten}
use tokioconf_2026_workshop.Client.{idle, returned}
use tokioconf_2026_workshop.Client.Buffered.{get, set, Message, run, capacity, send}
use tokioconf_2026_workshop.Client.Buffered.Answered.{run-answered}
use tokioconf_2026_workshop.Client.Buffered.Queue.{
  Buffer, Reach, here, next, sends, behind, Reach-in_order,
}
use tokioconf_2026_workshop.Client.Buffered.Served.{
  Order, IsOrder, IsShort, messages, requests, outcomes,
}
use tokioconf_2026_workshop.Collections.Dict
use tokioconf_2026_workshop.Connection.{received}
use tokioconf_2026_workshop.Frame.Wire.{encode}
use tokioconf_2026_workshop.Server.Session
use tokioconf_2026_workshop.Server.Session.Pipeline.{wires, answers, reads, at_work, run-answers}
use tokioconf_2026_workshop.Server.Session.Store.{view}
use tokioconf_2026_workshop.Std.Reference.{reference}
use tokioconf_2026_workshop.Tests.Database.{counting}
use tokioconf_2026_workshop.Tests.Sessions.{
  listed, first_set, then_get, first_set-IsRequest, then_get-IsRequest, no_entries,
  no_entries-IsBounded,
}

abbrev setting : Message
setting = record { command = set (codes "k") (codes "v"); tx = 1 }

abbrev getting : Message
getting = record { command = get (codes "k"); tx = 2 }

abbrev both : List Order
both =
    record { message = setting; request = first_set }
    ∷ record { message = getting; request = then_get }
    ∷ []

setting-IsOrder : IsOrder 100 (record { message = setting; request = first_set })
setting-IsOrder = record {
  request = first_set-IsRequest;
  forwarded = refl;
  short = λ key value e. same_value value cc;
}
  where
    same_value : (value : Bytes) → value ≡ codes "v" → length value + 2 < 2 ^ 64
    same_value value e = rw e (omega arith)

getting-IsOrder : IsOrder 100 (record { message = getting; request = then_get })
getting-IsOrder = record {
  request = then_get-IsRequest;
  forwarded = refl;
  short = λ key value e. absurd cc;
}

no_entries-IsShort : IsShort (view no_entries)
unfolding view Dict.get
no_entries-IsShort key value e = absurd (none≢some value e)
  where
    none≢some : (v : Bytes) → ◌≡◌ {A = Option Bytes} none (some v) → ⊥
    none≢some v p = cc

abbrev out : List Bytes
out = wires (requests both) ∷ []

abbrev back : List Bytes
back = answers (requests both) (view no_entries) ∷ []

some_out : 0 < length (wires (requests both))
unfolding encode
some_out = omega arith

some_back : 0 < length (answers (requests both) (view no_entries))
unfolding encode
some_back = omega arith

-- What the server writes.
written :
    (Session.run reference 100 counting listed
      (reads (requests both))
      (at_work reference 100 counting listed (idle []) out no_entries)).connection.stream
    ≡ flatten back
unfolding encode flatten
written =
    let (left, later, st', ran, rest, moved) =
      run-answers reference 100 counting listed (requests both) (idle []) out no_entries []
        (first_set-IsRequest, (then_get-IsRequest, tt)) no_entries-IsBounded (some_out, tt) refl in
    ap (λ x. x.connection.stream) ran ∙ sym (append-nil _)

run-answered_example :
    run reference (messages both) (idle []) (map received back)
    ≡ (outcomes both (view no_entries), returned (ok tt) (idle (flatten out)) [])
unfolding flatten encode
run-answered_example =
    run-answered reference 100 counting listed both [] [] out back no_entries
      (setting-IsOrder, (getting-IsOrder, tt)) no_entries-IsShort (some_out, tt) (some_back, tt)
      (append-nil _) written

-- The second caller reads what the first has set.
outcomes_lem : outcomes both (view no_entries) ≡ (1, ok none) ∷ (2, ok (some (codes "v"))) ∷ []
unfolding same
outcomes_lem = refl

-- Both messages wait.
abbrev waiting : Buffer
waiting = record {
  sent = setting ∷ getting ∷ [];
  queue = setting ∷ getting ∷ [];
  connection = idle [];
  later = map received back;
  responses = [];
}

waiting_reached : Reach reference (idle []) (map received back) waiting
unfolding send
waiting_reached =
    next (next here (sends setting (setting ∷ []) refl))
      (sends getting (setting ∷ getting ∷ []) refl)

Reach-in_order_example :
    (length waiting.queue ≤ capacity)
    × (run reference waiting.sent (idle []) (map received back)
        ≡ behind reference waiting.responses
            (run reference waiting.queue waiting.connection waiting.later))
Reach-in_order_example =
    Reach-in_order reference (idle []) (map received back) waiting waiting_reached
