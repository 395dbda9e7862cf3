-- ===== src/Command/Subscribe/Acknowledged.antt =====
-- What the server does to the subscriptions for `UNSUBSCRIBE`, and what it writes.
use tokioconf_2026_workshop.Base.{
  ℕ, ◌+◌, ◌^◌, ◌<◌, ◌≡◌, refl, sym, ap, ◌∙◌, inl, inr, not, ◌&&◌, List, [], ◌∷◌, ◌++◌, append_assoc,
  append-nil, arith, Bytes, codes, ok, length, All, same, same→eq, same_refl, Bool-cases,
}
use tokioconf_2026_workshop.Command.{unsubscribe}
use tokioconf_2026_workshop.Command.Replies.{sent}
use tokioconf_2026_workshop.Command.Subscribe.{
  unsubscribe_each, make_unsubscribe_frame, write_built, handle, or_all,
}
use tokioconf_2026_workshop.Connection.{Connection}
use tokioconf_2026_workshop.Connection.Write.{write_frame-encode}
use tokioconf_2026_workshop.Db.{Broadcast}
use tokioconf_2026_workshop.Frame.{Frame, bulk, integer, array, nil, cons, push, size}
use tokioconf_2026_workshop.Frame.Wire.{encode}
use tokioconf_2026_workshop.Std.Platform.{Platform}
use tokioconf_2026_workshop.Std.StreamMap.{StreamMap, has, Distinct}

-- The wire format's own description of an acknowledgement.
abbrev pub unsubscribed : Bytes → ℕ → Frame
unsubscribed channel count =
    array (cons (bulk (codes "unsubscribe")) (cons (bulk channel) (cons (integer count) nil)))

-- One for each channel, with the number of those that are left.
abbrev pub countdown : List Bytes → Bytes
countdown [] = []
countdown (k ∷ ks) = encode (unsubscribed k (length ks)) ++ countdown ks

abbrev pub IsShort : Bytes → Type 0
IsShort s = length s < 2 ^ 64

-- A name that the other side can read in a frame.
abbrev pub IsName : Bytes → Type 0
IsName k = length k + 2 < 2 ^ 64

write_unsubscribe_frame :
    (channel : Bytes) (count : ℕ) (dst : Connection)
    → IsShort channel
    → count < 2 ^ 64
    → write_built (make_unsubscribe_frame channel count) dst
      ≡ ok (sent (encode (unsubscribed channel count)) dst)
unfolding write_built make_unsubscribe_frame size push
write_unsubscribe_frame channel count dst h fits =
    write_frame-encode (unsubscribed channel count) dst
      (unfold size in omega arith, (omega arith, (h, (fits, tt))))

pub keys-none : (ks : List Bytes) → length ks ≡ 0 → ks ≡ []
keys-none [] e = refl
keys-none (k ∷ ks) e = absurd (omega arith)

module _ (pf : Platform) (bc : Broadcast) (sm : StreamMap bc.Receiver) where
  open sm use {Streams, remove, keys, has-remove, length-remove}

  -- The subscriptions are those of the list.
  record Holds (ks : List Bytes) (subs : Streams) : Type 0 where
    pub same_keys : (j : Bytes) → has j (keys subs) ≡ has j ks
    pub as_many : length (keys subs) ≡ length ks

  remove-Holds :
      (k : Bytes) (ks : List Bytes) (subs : Streams)
      → Distinct (k ∷ ks)
      → Holds (k ∷ ks) subs
      → Holds ks (remove k subs)
  remove-Holds k ks subs (fresh, distinct) h = record {
    same_keys = λ j. has-remove k j subs ∙ keys_left j;
    as_many = ground (arith, length-remove k subs, h.same_keys k, h.as_many, same_refl k);
  }
    where
      keys_left : (j : Bytes) → (not (same k j) && has j (keys subs)) ≡ has j ks
      keys_left j = elim (Bool-cases (same k j)) [
        | inl own ↦ rw (own, ← same→eq k j own) (sym fresh)
        | inr another ↦ rw (another, h.same_keys j, another) refl
      ]

  unsubscribe_each-Holds :
      (ks : List Bytes) (subs : Streams) (dst : Connection)
      → Distinct ks
      → All IsShort ks
      → length ks < 2 ^ 64
      → Holds ks subs
      → (subs' : Streams) × (unsubscribe_each pf bc sm ks subs dst
          ≡ ok (subs', sent (countdown ks) dst))
        × Holds [] subs'
  unfolding unsubscribe_each
  unsubscribe_each-Holds [] subs dst distinct short few h =
      (subs, rw (append-nil dst.stream) refl, h)
  unsubscribe_each-Holds (k ∷ ks) subs dst (fresh, distinct) (short_k, short) few h =
      let h' = remove-Holds k ks subs (fresh, distinct) h in
      let (subs', ran, empty) =
        unsubscribe_each-Holds ks (remove k subs) (sent (encode (unsubscribed k (length ks))) dst)
          distinct short (omega arith) h' in
      (
        subs',
        rw (h'.as_many, write_unsubscribe_frame k (length ks) dst short_k (omega arith))
            (ran
              ∙ ap (λ out. ok (subs', record { stream = out; buffer = dst.buffer }))
                  (append_assoc dst.stream _ _)),
        empty,
      )

  -- `UNSUBSCRIBE` with no channel named, where the channels are shorter than 2 ^ 64 and fewer: every
  -- channel subscribed to is acknowledged once, with the number of those that are left, down to zero;
  -- no subscription is left, none is added, and the connection stays subscribed.
  pub handle-countdown :
      (subs : Streams) (dst : Connection)
      → All IsShort (keys subs)
      → length (keys subs) < 2 ^ 64
      → (subs' : Streams) × (handle pf bc sm (unsubscribe []) subs dst
          ≡ ok ([], (subs', sent (countdown (keys subs)) dst)))
        × (keys subs' ≡ [])
  unfolding handle or_all
  handle-countdown subs dst short few =
      let (subs', ran, empty) =
        unsubscribe_each-Holds (keys subs) subs dst (sm.keys_distinct subs) short few
          (record { same_keys = λ j. refl; as_many = refl }) in
      (subs', rw ran refl, keys-none (keys subs') empty.as_many)
