-- ===== src/Command/RoundTrip.antt =====
-- A command that a client writes as a frame is the command that the server reads.
use tokioconf_2026_workshop.Base.{
  ◌^◌, ◌<◌, ◌≡◌, refl, sym, ap, ◌∙◌, true, Option, none, some, List, [], ◌∷◌, map, arith, Bytes,
  codes, ok, All, same,
}
use tokioconf_2026_workshop.Command.{
  Command, get, publish, set, subscribe, unsubscribe, ping, unknown, from_millis, as_millis,
  parse_get, parse_publish, parse_set, channels, parse_subscribe, parse_unsubscribe, parse_ping,
  dispatch, from_frame, push_each, parts, into_frame,
}
use tokioconf_2026_workshop.Frame.{
  Frame, Frames, bulk, array, nil, cons, push, push_bulk, empty_array,
}
use tokioconf_2026_workshop.Std.Platform.{Platform, ascii_lower, ascii_upper}
use tokioconf_2026_workshop.Std.Utf8.{is_utf8, IsAscii, is_utf8-ascii}

abbrev pub IsText : Bytes → Type 0
IsText s = is_utf8 s ≡ true

-- Keys and channels are texts, an expiration fits the wire, `SUBSCRIBE` names a channel.
abbrev pub IsValid : Command → Type 0
IsValid (get key) = IsText key
IsValid (publish channel message) = IsText channel
IsValid (set key value none) = IsText key
IsValid (set key value (some d)) = IsText key × (as_millis d < 2 ^ 64)
IsValid (subscribe []) = ⊥
IsValid (subscribe (name ∷ names)) = IsText name × All IsText names
IsValid (unsubscribe names) = All IsText names
IsValid (ping msg) = Unit
IsValid (unknown name) = ⊥

-- The wire carries whole milliseconds.
abbrev pub to_wire : Command → Command
to_wire (set key value (some d)) = set key value (some (from_millis (as_millis d)))
to_wire c = c

unfoldable pub bulks : List Bytes → Frames
bulks [] = nil
bulks (s ∷ ss) = cons (bulk s) (bulks ss)

snoc : Frames → List Bytes → Frames
snoc fs [] = fs
snoc fs (s ∷ ss) = snoc (push fs (bulk s)) ss

push_each-array :
    (ss : List Bytes) (fs : Frames) → push_each ss (array fs) ≡ ok (array (snoc fs ss))
unfolding push_each push_bulk snoc
push_each-array [] fs = refl
push_each-array (s ∷ ss) fs = push_each-array ss (push fs (bulk s))

join : Frames → Frames → Frames
join nil gs = gs
join (cons f fs) gs = cons f (join fs gs)

join-push : (fs gs : Frames) (f : Frame) → join (push fs f) gs ≡ join fs (cons f gs)
unfolding join push
join-push nil gs f = refl
join-push (cons g fs) gs f = ap (cons g) (join-push fs gs f)

join-nil : (fs : Frames) → join fs nil ≡ fs
unfolding join
join-nil nil = refl
join-nil (cons f fs) = ap (cons f) (join-nil fs)

snoc-bulks : (ss : List Bytes) (fs : Frames) → snoc fs ss ≡ join fs (bulks ss)
unfolding snoc bulks
snoc-bulks [] fs = sym (join-nil fs)
snoc-bulks (s ∷ ss) fs = snoc-bulks ss (push fs (bulk s)) ∙ join-push fs (bulks ss) (bulk s)

-- Pushing onto the empty array keeps the order.
pub push_each-bulks : (ss : List Bytes) → push_each ss empty_array ≡ ok (array (bulks ss))
unfolding empty_array
push_each-bulks ss =
    push_each-array ss nil ∙ ap (λ fs. ok (array fs)) (unfold join in snoc-bulks ss nil)

channels-bulks : (names : List Bytes) → All IsText names → channels (bulks names) ≡ ok names
unfolding channels bulks
channels-bulks [] h = refl
channels-bulks (name ∷ names) (h, hs) = rw (h, channels-bulks names hs)

module _ (pf : Platform) where
  -- An ASCII name in any case is looked up in lower case.
  pub from_frame-name :
      (word : Bytes) (rest : Frames)
      → All IsAscii word
      → from_frame pf (array (cons (bulk word) rest)) ≡ dispatch pf (map ascii_lower word) rest
  unfolding from_frame
  from_frame-name word rest h = rw (is_utf8-ascii word h, pf.lowercase-ascii word h)

  Reads : Command → Option (List Bytes) → Type 0
  Reads c none = ⊥
  Reads c (some ss) = from_frame pf (array (bulks ss)) ≡ ok (to_wire c)

  from_frame-parts : (c : Command) → IsValid c → Reads c (parts c)
  unfolding Reads parts dispatch same bulks parse_get parse_publish parse_set parse_subscribe
      parse_unsubscribe parse_ping ascii_lower
  from_frame-parts (get key) h = rw (from_frame-name (codes "get") _ (omega arith), h)
  from_frame-parts (publish channel message) h =
      rw (from_frame-name (codes "publish") _ (omega arith), h)
  from_frame-parts (set key value none) h = rw (from_frame-name (codes "set") _ (omega arith), h)
  from_frame-parts (set key value (some d)) (h, fits) =
      let px = is_utf8-ascii (codes "px") (omega arith) in
      let upper = pf.uppercase-ascii (codes "px") (omega arith) in
      rw (from_frame-name (codes "set") _ (omega arith), h, px, upper)
        (unfold ascii_upper in rw (pf.atoi-decimal (as_millis d) fits))
  from_frame-parts (subscribe []) h = absurd h
  from_frame-parts (subscribe (name ∷ names)) (h, hs) =
      rw (from_frame-name (codes "subscribe") _ (omega arith), h, channels-bulks names hs)
  from_frame-parts (unsubscribe names) h =
      rw (from_frame-name (codes "unsubscribe") _ (omega arith), channels-bulks names h)
  from_frame-parts (ping none) h = rw (from_frame-name (codes "ping") _ (omega arith))
  from_frame-parts (ping (some msg)) h = rw (from_frame-name (codes "ping") _ (omega arith))
  from_frame-parts (unknown name) h = absurd h

  -- What `Reads` says, over the frame that `into_frame` builds.
  into_frame-Reads :
      (c : Command) (o : Option (List Bytes))
      → parts c ≡ o
      → Reads c o
      → (f : Frame) × (into_frame c ≡ some (ok f)) × (from_frame pf f ≡ ok (to_wire c))
  unfolding Reads into_frame
  into_frame-Reads c none e r = absurd r
  into_frame-Reads c (some ss) e r = (array (bulks ss), rw (e, push_each-bulks ss), r)

  -- A command with texts for its keys and channels, at least one channel to subscribe to, and an
  -- expiration below 2 ^ 64 milliseconds: `into_frame` builds a frame without a panic, and
  -- `from_frame` reads the same command from it, its expiration cut to whole milliseconds.
  pub from_frame-into_frame :
      (c : Command)
      → IsValid c
      → (f : Frame) × (into_frame c ≡ some (ok f)) × (from_frame pf f ≡ ok (to_wire c))
  from_frame-into_frame c h = into_frame-Reads c (parts c) refl (from_frame-parts c h)
