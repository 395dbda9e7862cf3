-- ===== src/Client/Subscriber/Unsubscribed.antt =====
-- What a subscriber makes of the acknowledgements of its `UNSUBSCRIBE`.
use tokioconf_2026_workshop.Base.{
  ℕ, ◌+◌, ◌^◌, ◌<◌, ◌≤◌, ◌≡◌, refl, sym, ap, ◌∙◌, inl, inr, true, false, not, ◌&&◌, List, [], ◌∷◌,
  ◌++◌, map, append_assoc, append-nil, arith, Bytes, codes, some, ok, err, length, All, same,
  same→eq, same_refl, same_iff, Bool-cases, ◌==◌,
}
use mathlib.Core.List.{flatten, append_cancel_left}
use tokioconf_2026_workshop.Client.{returned, read_response, write_request, idle}
use tokioconf_2026_workshop.Client.Subscriber.{
  expected, retain, shrunk, acknowledge, await_acknowledgements, client_unsubscribe,
}
use tokioconf_2026_workshop.Command.Subscribe.Acknowledged.{
  IsName, unsubscribed, countdown, IsShort, handle-countdown, keys-none,
}
use tokioconf_2026_workshop.Command.Replies.{sent}
use tokioconf_2026_workshop.Command.Subscribe.{handle}
use tokioconf_2026_workshop.Command.{unsubscribe, into_frame}
use tokioconf_2026_workshop.Db.{Broadcast}
use tokioconf_2026_workshop.Connection
use tokioconf_2026_workshop.Connection.{Connection, Arrival, received, read_frame}
use tokioconf_2026_workshop.Connection.Read.{read_frame-Delivers, nothing_left}
use tokioconf_2026_workshop.Connection.Write.{write_frame-encode}
use tokioconf_2026_workshop.Frame.{
  Frame, bulk, size, array, cons, nil, push, push_bulk, empty_array,
}
use tokioconf_2026_workshop.Frame.Display.{eq_text, to_error}
use tokioconf_2026_workshop.Frame.Wire.{encode}
use tokioconf_2026_workshop.Std.Platform.{Platform}
use tokioconf_2026_workshop.Std.StreamMap.{StreamMap, has, Distinct}

abbrev pub without : Bytes → List Bytes → List Bytes
without name = retain (λ c. not (eq_text (bulk name) c))

pub has-without :
    (k j : Bytes) (cs : List Bytes) → has j (without k cs) ≡ (not (same k j) && has j cs)
unfolding retain eq_text
has-without k j [] = ground arith
has-without k j (c ∷ cs) =
    ground (
      arith,
      same_iff k j,
      same_iff k c,
      same_iff c j,
      same_refl k,
      same_refl j,
      has-without k j cs,
    )

-- A name that is not there, and one that is.
pub length-without_absent :
    (k : Bytes) (cs : List Bytes) → has k cs ≡ false → length (without k cs) ≡ length cs
unfolding retain eq_text
length-without_absent k [] h = refl
length-without_absent k (c ∷ cs) h =
    ground (arith, same_iff k c, same_iff c k, length-without_absent k cs)

pub length-without :
    (k : Bytes) (cs : List Bytes)
    → Distinct cs
    → has k cs ≡ true
    → length (without k cs) + 1 ≡ length cs
unfolding retain eq_text
length-without k [] d h = absurd (cc)
length-without k (c ∷ cs) (fresh, d) h = elim (Bool-cases (same k c)) [
  | inl own ↦
      let e = same→eq k c own in rw own (omega (arith, length-without_absent k cs (rw e fresh)))
  | inr another ↦ rw another (ground (arith, same_iff k c, same_iff c k, length-without k cs d))
]

pub without-Distinct : (k : Bytes) (cs : List Bytes) → Distinct cs → Distinct (without k cs)
unfolding retain eq_text
without-Distinct k [] d = tt
without-Distinct k (c ∷ cs) (fresh, d) = elim (Bool-cases (same k c)) [
  | inl own ↦ rw own (without-Distinct k cs d)
  | inr another ↦
      let gone : has c (without k cs) ≡ false = has-without k c cs ∙ rw (another, fresh) refl in
      rw another (gone, without-Distinct k cs d)
]

-- The acknowledgement of a channel that is in the list once.
acknowledge-unsubscribed :
    (k : Bytes) (n : ℕ) (cs : List Bytes)
    → Distinct cs
    → has k cs ≡ true
    → acknowledge (unsubscribed k n) cs ≡ (ok tt, without k cs)
unfolding acknowledge shrunk same
acknowledge-unsubscribed k n cs d h =
    let shrinks = length-without k cs d h in
    let some_left : (length cs == 0) ≡ false = ground (arith, shrinks) in
    let one_less : (length (without k cs) + 1 == length cs) ≡ true = ground (arith, shrinks) in
    rw (some_left, one_less) refl

length-without_le : (k : Bytes) (cs : List Bytes) → length (without k cs) ≤ length cs
unfolding retain eq_text
length-without_le k [] = omega arith
length-without_le k (c ∷ cs) = ground (arith, length-without_le k cs)

length-without_lt :
    (k : Bytes) (cs : List Bytes) → has k cs ≡ true → length (without k cs) < length cs
unfolding retain eq_text
length-without_lt k [] h = absurd (cc)
length-without_lt k (c ∷ cs) h =
    ground (arith, same_iff k c, same_iff c k, length-without_le k cs, length-without_lt k cs)

length-without_doubled :
    (k : Bytes) (xs ys : List Bytes)
    → has k ys ≡ true
    → length (without k (xs ++ k ∷ ys)) + 2 ≤ length (xs ++ k ∷ ys)
unfolding retain eq_text
length-without_doubled k [] ys h = ground (arith, same_refl k, length-without_lt k ys h)
length-without_doubled k (x ∷ xs) ys h = ground (arith, length-without_doubled k xs ys h)

-- A subscriber whose list has a channel twice, as after subscribing to it twice, refuses the server's
-- acknowledgement of it, although the channel is then gone from its list.
pub acknowledge-doubled :
    (k : Bytes) (n : ℕ) (xs ys : List Bytes)
    → has k ys ≡ true
    → (acknowledge (unsubscribed k n) (xs ++ k ∷ ys)
        ≡ (err (to_error (unsubscribed k n)), without k (xs ++ k ∷ ys)))
      × (has k (without k (xs ++ k ∷ ys)) ≡ false)
unfolding acknowledge shrunk same
acknowledge-doubled k n xs ys h =
    let fewer = length-without_doubled k xs ys h in
    let some_left : (length (xs ++ k ∷ ys) == 0) ≡ false = ground (arith, fewer) in
    let too_few : (length (without k (xs ++ k ∷ ys)) + 1 == length (xs ++ k ∷ ys)) ≡ false =
      ground (arith, fewer) in
    (rw (some_left, too_few) refl, has-without k k (xs ++ k ∷ ys) ∙ rw (same_refl k) refl)

still_there :
    (k : Bytes) (ks cs : List Bytes)
    → has k ks ≡ false
    → All (λ j. has j cs ≡ true) ks
    → All (λ j. has j (without k cs) ≡ true) ks
still_there k [] cs fresh h = tt
still_there k (j ∷ ks) cs fresh (hj, h) = (
  has-without k j cs ∙ ground (arith, same_iff k j, same_iff j k),
  still_there k ks cs (ground arith) h,
)

module _ (pf : Platform) where
  -- The acknowledgements of `ks` were read, and their names are gone from the list.
  abbrev pub Reads : List Bytes → List Bytes → Connection → List Bytes → Bytes → Type 0
  Reads ks cs c chunks more =
      (left : Bytes) × (later cs' : List Bytes) × (await_acknowledgements pf (length ks) cs c
          (map received chunks)
        ≡ (
          returned (ok tt) (record { stream = c.stream; buffer = left }) (map received later),
          cs',
        ))
      × (left ++ flatten later ≡ more)
      × All (λ s. 0 < length s) later
      × (length cs' + length ks ≡ length cs)

  then-Reads :
      (k : Bytes) (n : ℕ) (ks cs : List Bytes) (c c' : Connection) (chunks chunks' : List Bytes)
      (more : Bytes)
      → read_frame pf c (map received chunks)
        ≡ Connection.done (ok (some (unsubscribed k n), c')) (map received chunks')
      → c'.stream ≡ c.stream
      → Distinct cs
      → has k cs ≡ true
      → Reads ks (without k cs) c' chunks' more
      → Reads (k ∷ ks) cs c chunks more
  unfolding await_acknowledgements read_response
  then-Reads k n ks cs c c' chunks chunks' more found same_stream d h
        (left, later, cs', ran, rest, full, fewer) =
      (
        left,
        later,
        cs',
        rw (await_acknowledgements, found, acknowledge-unsubscribed k n cs d h, ← same_stream) ran,
        rest,
        full,
        omega (arith, length-without k cs d h),
      )

  await-countdown :
      (ks cs : List Bytes) (c : Connection) (chunks : List Bytes) (more : Bytes)
      → Distinct ks
      → Distinct cs
      → All (λ k. has k cs ≡ true) ks
      → All IsName ks
      → length ks < 2 ^ 64
      → All (λ s. 0 < length s) chunks
      → c.buffer ++ flatten chunks ≡ countdown ks ++ more
      → Reads ks cs c chunks more
  unfolding await_acknowledgements
  await-countdown [] cs c chunks more dk dc there names few full e =
      (c.buffer, chunks, cs, refl, e, full, omega arith)
  await-countdown (k ∷ ks) cs c chunks more (fresh, dk) dc (hk, there) (name, names) few full e =
      let (left, later, found, rest, full') =
        read_frame-Delivers pf (unsubscribed k (length ks)) chunks c (countdown ks ++ more)
          (unfold size in omega arith, (omega arith, (name, (omega arith, tt)))) full
          (e ∙ append_assoc (encode (unsubscribed k (length ks))) (countdown ks) more) in
      then-Reads k (length ks) ks cs c _ chunks later more found refl dc hk (
        await-countdown ks (without k cs) (record { stream = c.stream; buffer = left }) later more
          dk (without-Distinct k cs dc) (still_there k ks cs fresh there) names (omega arith) full'
          rest)

-- The request that names no channel.
abbrev pub unsubscribe_all : Frame
unsubscribe_all = array (cons (bulk (codes "unsubscribe")) nil)

IsName-IsShort : (ks : List Bytes) → All IsName ks → All IsShort ks
IsName-IsShort [] h = tt
IsName-IsShort (k ∷ ks) (h, hs) = (omega arith, IsName-IsShort ks hs)

write_unsubscribe_all :
    (stream : Bytes) (later : List Arrival)
    → write_request (into_frame (unsubscribe [])) (idle stream) later
      ≡ returned (ok tt) (idle (stream ++ encode unsubscribe_all)) later
unfolding write_request into_frame push push_bulk empty_array
write_unsubscribe_all stream later =
    rw
      (write_frame-encode unsubscribe_all (idle stream)
        (unfold size in omega arith, (omega arith, tt)))
      refl

module _ (pf : Platform) (bc : Broadcast) (sm : StreamMap bc.Receiver) where
  open sm use {Streams, keys}

  -- A subscriber whose list has, once each, the channels that the server has for it, unsubscribes
  -- from all of them. Whatever the server handles that with, if the network brings what the server
  -- wrote, cut anywhere: the call succeeds, the subscriber's list is empty, and so are the
  -- subscriptions at the server.
  pub client_unsubscribe-handle :
      (subs subs' : Streams) (cs names back : List Bytes) (dst dst' : Connection) (stream : Bytes)
      → Distinct cs
      → length cs ≡ length (keys subs)
      → All (λ k. has k cs ≡ true) (keys subs)
      → All IsName (keys subs)
      → length (keys subs) < 2 ^ 64
      → All (λ s. 0 < length s) back
      → handle pf bc sm (unsubscribe []) subs dst ≡ ok (names, (subs', dst'))
      → dst'.stream ≡ dst.stream ++ flatten back
      → (client_unsubscribe pf [] cs (idle stream) (map received back)
          ≡ (returned (ok tt) (idle (stream ++ encode unsubscribe_all)) [], []))
        × (keys subs' ≡ [])
  unfolding client_unsubscribe expected
  client_unsubscribe-handle subs subs' cs names back dst dst' stream dc as_many there short few full
        handled brings =
      let (subs'', ran, none_left) =
        handle-countdown pf bc sm subs dst (IsName-IsShort (keys subs) short) few in
      let outcome = sym handled ∙ ran in
      let wrote : dst' ≡ sent (countdown (keys subs)) dst = cc in
      let same_subs : subs' ≡ subs'' = cc in
      let bytes : flatten back ≡ countdown (keys subs) =
        append_cancel_left dst.stream _ _ (sym brings ∙ ap (λ (c : Connection). c.stream) wrote) in
      let read_all =
        await-countdown pf (keys subs) cs (idle (stream ++ encode unsubscribe_all)) back []
          (sm.keys_distinct subs) dc there short few full (bytes ∙ sym (append-nil _)) in
      (finish read_all, rw same_subs none_left)
    where
      finish :
          Reads pf (keys subs) cs (idle (stream ++ encode unsubscribe_all)) back []
          → client_unsubscribe pf [] cs (idle stream) (map received back)
            ≡ (returned (ok tt) (idle (stream ++ encode unsubscribe_all)) [], [])
      finish (left, later, cs', ran, rest, full', fewer) =
          let (no_left, no_later) = nothing_left left later rest full' in
          let no_names = keys-none cs' (omega (arith)) in
          rw (client_unsubscribe, write_unsubscribe_all stream (map received back), as_many)
            (rw (no_left, no_later, no_names) at ran)
