-- ===== src/Command/Subscribe/Confirmed.antt =====
-- What the server does to the subscriptions for `SUBSCRIBE`, and what it writes.
use tokioconf_2026_workshop.Base.{
  ℕ, ◌+◌, ◌^◌, ◌<◌, ◌≤◌, ◌≡◌, refl, ap, ◌∙◌, ◌||◌, List, [], ◌∷◌, ◌++◌, append_assoc, append-nil,
  arith, Bytes, codes, ok, length, All,
}
use tokioconf_2026_workshop.Command.Subscribe.Acknowledged.{IsName}
use tokioconf_2026_workshop.Collections.Dict
use tokioconf_2026_workshop.Command.Replies.{sent}
use tokioconf_2026_workshop.Command.Subscribe.{subscribe_each, subscribe_to_channel}
use tokioconf_2026_workshop.Connection.{Connection}
use tokioconf_2026_workshop.Connection.Write.{write_frame-encode, IsSendable}
use tokioconf_2026_workshop.Db
use tokioconf_2026_workshop.Db.{Broadcast, State, Shared}
use tokioconf_2026_workshop.Frame.{Frame, bulk, integer, array, nil, cons, size}
use tokioconf_2026_workshop.Frame.Wire.{encode}
use tokioconf_2026_workshop.Server.Session.Store.{live}
use tokioconf_2026_workshop.Std.Platform.{Platform}
use tokioconf_2026_workshop.Std.StreamMap.{StreamMap, has}

-- The wire format's own description of a confirmation.
abbrev pub confirmation : Bytes → ℕ → Frame
confirmation channel count =
    array (cons (bulk (codes "subscribe")) (cons (bulk channel) (cons (integer count) nil)))

-- One confirmation for each channel, with a count that fits.
abbrev pub Confirms : List Bytes → Bytes → Type 0
Confirms [] b = b ≡ []
Confirms (k ∷ ks) b =
    (count : ℕ) × (rest : Bytes) × (count < 2 ^ 64)
    × (b ≡ encode (confirmation k count) ++ rest)
    × Confirms ks rest

confirmation-IsSendable :
    (channel : Bytes) (count : ℕ)
    → IsName channel
    → count < 2 ^ 64
    → IsSendable (confirmation channel count)
unfolding size
confirmation-IsSendable channel count h fits =
    (omega arith, (omega arith, (omega arith, (fits, tt))))

module _ (pf : Platform) (bc : Broadcast) (sm : StreamMap bc.Receiver) where
  open sm use {Streams, insert, keys, has-insert, length-insert}

  -- The server has subscribed to the channels, and confirmed each.
  pub record Subscribes (ks : List Bytes) (subs : Streams) (dst : Connection) (st : State bc.Sender)
      : Type 0 where
    pub streams : Streams
    pub bytes : Bytes
    pub after : State bc.Sender
    pub ran :
        subscribe_each pf bc sm ks subs dst (live st) ≡ (ok (streams, sent bytes dst), live after)
    pub confirmed : Confirms ks bytes
    pub has_keys : (j : Bytes) → has j (keys streams) ≡ has j ks || has j (keys subs)

  one_channel :
      (k : Bytes) (subs : Streams) (dst : Connection) (st : State bc.Sender)
      → IsName k
      → length (keys subs) + 1 < 2 ^ 64
      → (rx : bc.Receiver) × (st' : State bc.Sender) × (subscribe_to_channel pf bc sm k subs dst
            (live st)
          ≡ (
            ok (
              insert k rx subs,
              sent (encode (confirmation k (length (keys (insert k rx subs))))) dst,
            ),
            live st',
          ))
  unfolding subscribe_to_channel Db.subscribe
  one_channel k subs dst st name few =
      let (rx, st') = Db.attach bc k st (Dict.get k st.pub_sub) in
      let count = length (keys (insert k rx subs)) in
      let fits : count < 2 ^ 64 = ground (arith, length-insert k rx subs) in
      (
        rx,
        st',
        rw
            (write_frame-encode (confirmation k count) dst
              (confirmation-IsSendable k count name fits))
            refl,
      )

  pub subscribe_each-Subscribes :
      (ks : List Bytes) (subs : Streams) (dst : Connection) (st : State bc.Sender)
      → All IsName ks
      → length (keys subs) + length ks < 2 ^ 64
      → Subscribes ks subs dst st
  unfolding subscribe_each
  subscribe_each-Subscribes [] subs dst st names few = record {
    streams = subs;
    bytes = [];
    after = st;
    ran = rw (append-nil dst.stream) refl;
    confirmed = refl;
    has_keys = λ j. refl;
  }
  subscribe_each-Subscribes (k ∷ ks) subs dst st (name, names) few =
      let (rx, st', first) = one_channel k subs dst st name (omega arith) in
      let here = insert k rx subs in
      let grown : length (keys here) ≤ length (keys subs) + 1 =
        ground (arith, length-insert k rx subs) in
      let out = encode (confirmation k (length (keys here))) in
      let v = subscribe_each-Subscribes ks here (sent out dst) st' names (omega (arith, grown)) in
      record {
        streams = v.streams;
        bytes = out ++ v.bytes;
        after = v.after;
        ran = rw first (
            v.ran
            ∙ ap (λ b. (ok (v.streams, record { stream = b; buffer = dst.buffer }), live v.after))
                (append_assoc dst.stream out v.bytes));
        confirmed = (length (keys here), v.bytes, omega (arith, grown), refl, v.confirmed);
        has_keys = λ j. ground (arith, v.has_keys j, has-insert k j rx subs);
      }
