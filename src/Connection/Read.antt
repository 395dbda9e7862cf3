-- ===== src/Connection/Read.antt =====
-- `read_frame` returns the frames that were sent, however the network cuts the bytes.
use tokioconf_2026_workshop.Base.{
  ◌+◌, ◌<◌, ◌≡◌, refl, subst, sym, ap, ◌∙◌, ◌⊎◌, inl, inr, none, some, List, [], ◌∷◌, ◌++◌, map,
  append_assoc, arith, Bytes, ok, length, length-append, drop, drop-length, All,
}
use mathlib.Core.List.{flatten}
use tokioconf_2026_workshop.Connection.{
  Connection, fuel, parse_frame, after_check, take_frame, start, read_frame, Arrival, received,
  io_failed, done,
}
use tokioconf_2026_workshop.Frame.{Frame}
use tokioconf_2026_workshop.Frame.Check.{check}
use tokioconf_2026_workshop.Frame.Decode.{decode}
use tokioconf_2026_workshop.Frame.Wire.{encode, IsCarried}
use tokioconf_2026_workshop.Frame.Reads.{cursor}
use tokioconf_2026_workshop.Frame.RoundTrip.{decode-Reads}
use tokioconf_2026_workshop.Frame.Complete.{check-Reads, check-prefix}
use tokioconf_2026_workshop.Std.Platform.{Platform}

-- Two ways to cut one list in two.
cuts {ℓ} :
    {A : Type ℓ} (a b c d : List A)
    → a ++ b ≡ c ++ d
    → ((e : List A) × (a ≡ c ++ e) × (e ++ b ≡ d)) ⊎ ((e : List A) × (c ≡ a ++ e) × (0 < length e))
cuts a b [] d h = inl (a, refl, h)
cuts [] b (y ∷ c) d h = inr (y ∷ c, refl, omega arith)
cuts (x ∷ a) b (y ∷ c) d h = elim (cuts a b c d (cc)) [
  | inl (e, p, q) ↦ inl (e, cc, q)
  | inr (e, p, q) ↦ inr (e, cc, q)
]

drop_all : (s more : Bytes) → drop (0 + length s) (s ++ more) ≡ more
drop_all s more = let z : 0 + length s ≡ length s = omega arith in rw (z, drop-length s more)

-- No byte is left, where no chunk is empty.
pub nothing_left :
    (left : Bytes) (later : List Bytes)
    → left ++ flatten later ≡ []
    → All (λ s. 0 < length s) later
    → (left ≡ []) × (later ≡ [])
unfolding flatten
nothing_left [] [] e full = (refl, refl)
nothing_left [] ([] ∷ later) e full = absurd (omega arith)
nothing_left [] ((b ∷ s) ∷ later) e full = absurd (cc)
nothing_left (b ∷ left) later e full = absurd (cc)

module _ (pf : Platform) where
  -- A buffer that begins with a frame.
  pub parse_frame-encode :
      (f : Frame) (c : Connection) (more : Bytes)
      → IsCarried f
      → c.buffer ≡ encode f ++ more
      → parse_frame pf c ≡ ok (some f, record { stream = c.stream; buffer = more })
  unfolding parse_frame after_check take_frame start
  parse_frame-encode f c more h e =
      let short : length (encode f) < fuel c =
        omega (arith, ap length e, length-append (encode f) more) in
      let n = 0 + length (encode f) in
      let checked : check pf (fuel c) (start c) ≡ ok (tt, cursor n more) =
        subst (λ b. check pf (fuel c) (cursor 0 b) ≡ ok (tt, cursor n more)) (sym e)
          (check-Reads pf f (fuel c) h short 0 more) in
      let decoded : decode pf (fuel c) (start c) ≡ ok (f, cursor n more) =
        subst (λ b. decode pf (fuel c) (cursor 0 b) ≡ ok (f, cursor n more)) (sym e)
          (decode-Reads pf f (fuel c) h short 0 more) in
      let left : drop n c.buffer ≡ more = rw e (drop_all (encode f) more) in
      rw (checked, decoded, left)

  -- A buffer that ends inside a frame.
  parse_frame-prefix :
      (f : Frame) (c : Connection) (post : Bytes)
      → IsCarried f
      → encode f ≡ c.buffer ++ post
      → 0 < length post
      → parse_frame pf c ≡ ok (none, c)
  unfolding parse_frame after_check start
  parse_frame-prefix f c post h e pos =
      rw (check-prefix pf f c.buffer post (fuel c) h e pos (omega arith))

  read_frame-found :
      (f : Frame) (c c' : Connection) (next : List Arrival)
      → parse_frame pf c ≡ ok (some f, c')
      → read_frame pf c next ≡ done (ok (some f, c')) next
  unfolding read_frame
  read_frame-found f c c' [] e = rw (e, read_frame)
  read_frame-found f c c' (io_failed m ∷ later) e = rw (e, read_frame)
  read_frame-found f c c' (received [] ∷ later) e = rw (e, read_frame)
  read_frame-found f c c' (received (b ∷ s) ∷ later) e = rw (e, read_frame)

  read_frame-more :
      (c : Connection) (s : Bytes) (later : List Arrival)
      → parse_frame pf c ≡ ok (none, c)
      → 0 < length s
      → read_frame pf c (received s ∷ later)
        ≡ read_frame pf (record { stream = c.stream; buffer = c.buffer ++ s }) later
  unfolding read_frame
  read_frame-more c [] later e pos = absurd (omega arith)
  read_frame-more c (b ∷ s) later e pos = rw (e, read_frame)

  -- What `read_frame` returns from a run of chunks, and what it leaves.
  abbrev pub Delivers : Frame → Connection → List Bytes → Bytes → Type 0
  Delivers f c chunks more =
      (left : Bytes) × (later : List Bytes) × (read_frame pf c (map received chunks)
        ≡ done (ok (some f, record { stream = c.stream; buffer = left })) (map received later))
      × (left ++ flatten later ≡ more)
      × All (λ s. 0 < length s) later

  now-Delivers :
      (f : Frame) (chunks : List Bytes) (c : Connection) (more left : Bytes)
      → IsCarried f
      → c.buffer ≡ encode f ++ left
      → left ++ flatten chunks ≡ more
      → All (λ s. 0 < length s) chunks
      → Delivers f c chunks more
  now-Delivers f chunks c more left h e rest full = (
    left,
    chunks,
    read_frame-found f c _ (map received chunks) (parse_frame-encode f c left h e),
    rest,
    full,
  )

  later-Delivers :
      (f : Frame) (s : Bytes) (chunks : List Bytes) (c : Connection) (more post : Bytes)
      → IsCarried f
      → encode f ≡ c.buffer ++ post
      → 0 < length post
      → 0 < length s
      → Delivers f (record { stream = c.stream; buffer = c.buffer ++ s }) chunks more
      → Delivers f c (s ∷ chunks) more
  later-Delivers f s chunks c more post h e pos some_byte (left, later, found, rest, full) = (
    left,
    later,
    read_frame-more c s (map received chunks) (parse_frame-prefix f c post h e pos) some_byte
        ∙ found,
    rest,
    full,
  )

  -- As below, and no chunk that is left is empty.
  pub read_frame-Delivers :
      (f : Frame) (chunks : List Bytes) (c : Connection) (more : Bytes)
      → IsCarried f
      → All (λ s. 0 < length s) chunks
      → c.buffer ++ flatten chunks ≡ encode f ++ more
      → Delivers f c chunks more
  unfolding flatten
  read_frame-Delivers f [] c more h full e = elim (cuts c.buffer [] (encode f) more e) [
    | inl (left, starts, rest) ↦ now-Delivers f [] c more left h starts rest tt
    | inr (post, starts, pos) ↦ absurd (
        omega (
          arith,
          ap length e,
          ap length starts,
          length-append c.buffer [],
          length-append c.buffer post,
          length-append (encode f) more,
        ))
  ]
  read_frame-Delivers f (s ∷ chunks) c more h (some_byte, full) e =
      elim (cuts c.buffer (s ++ flatten chunks) (encode f) more e) [
        | inl (left, starts, rest) ↦
            now-Delivers f (s ∷ chunks) c more left h starts rest (some_byte, full)
        | inr (post, starts, pos) ↦ later-Delivers f s chunks c more post h starts pos some_byte (
            read_frame-Delivers f chunks (record { stream = c.stream; buffer = c.buffer ++ s }) more
              h full (append_assoc c.buffer s (flatten chunks) ∙ e))
      ]

  -- The chunks arrive one by one, each with at least one byte, and their bytes behind those in
  -- the buffer begin with a frame's wire format, wherever the cuts are. `read_frame` returns that
  -- frame, and the buffer with the chunks not yet received holds exactly the bytes behind it.
  pub read_frame-chunks :
      (f : Frame) (chunks : List Bytes) (c : Connection) (more : Bytes)
      → IsCarried f
      → All (λ s. 0 < length s) chunks
      → c.buffer ++ flatten chunks ≡ encode f ++ more
      → (left : Bytes) × (later : List Bytes) × (read_frame pf c (map received chunks)
          ≡ done (ok (some f, record { stream = c.stream; buffer = left })) (map received later))
        × (left ++ flatten later ≡ more)
  read_frame-chunks f chunks c more h full e =
      let (left, later, found, rest, _) = read_frame-Delivers f chunks c more h full e in
      (left, later, found, rest)
