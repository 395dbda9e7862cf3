-- ===== src/Bench/Batch.antt =====
-- The bytes of a batch are requests of the protocol, which the server reads as commands.
use tokioconf_2026_workshop.Base.{
  ℕ, zero, suc, ◌+◌, ◌≡◌, true, refl, none, List, [], ◌∷◌, ◌++◌, map, append_assoc, arith, Bytes,
  codes, ok, All, same,
}
use tokioconf_2026_workshop.Bench.{Phase, key_of, command_bytes, batch_from, build_batch}
use tokioconf_2026_workshop.Bench.Responses.{stream, All-IsAscii}
use tokioconf_2026_workshop.Command.{Command, dispatch, from_frame, parse_get, parse_set}
use tokioconf_2026_workshop.Command.RoundTrip.{bulks, from_frame-name}
use tokioconf_2026_workshop.Frame.{Frame, array, size}
use tokioconf_2026_workshop.Frame.Wire.{encode}
use tokioconf_2026_workshop.Std.Decimal.{decimal, decimal-All}
use tokioconf_2026_workshop.Std.Platform.{Platform, ascii_lower}
use tokioconf_2026_workshop.Std.Utf8.{IsAscii, is_utf8, is_utf8-ascii}

abbrev pub words : Phase → Bytes → Bytes → List Bytes
words Phase.set key value = codes "SET" ∷ key ∷ value ∷ []
words Phase.get key value = codes "GET" ∷ key ∷ []

abbrev pub command : Phase → Bytes → Bytes → Command
command Phase.set key value = Command.set key value none
command Phase.get key value = Command.get key

-- The keys `i`, `i + 1` and so on.
abbrev pub keys : ℕ → ℕ → ℕ → List Bytes
keys conn_id i zero = []
keys conn_id i (suc n) = key_of conn_id i ∷ keys conn_id (i + 1) n

command_bytes-encode :
    (phase : Phase) (key value : Bytes)
    → command_bytes phase key value ≡ encode (array (bulks (words phase key value)))
unfolding command_bytes encode bulks size decimal
command_bytes-encode Phase.set key value = simp append_assoc
command_bytes-encode Phase.get key value = simp append_assoc

IsAscii-append : (s t : Bytes) → All IsAscii s → All IsAscii t → All IsAscii (s ++ t)
IsAscii-append [] t hs ht = ht
IsAscii-append (c ∷ s) t (hc, hs) ht = (hc, IsAscii-append s t hs ht)

key_is_text : (conn_id i : ℕ) → is_utf8 (key_of conn_id i) ≡ true
unfolding key_of
key_is_text conn_id i =
    let number = λ (n : ℕ). All-IsAscii (decimal n) (decimal-All n) in
    is_utf8-ascii (key_of conn_id i) (
      IsAscii-append (codes "k:") _ (omega arith) (
        IsAscii-append (decimal conn_id) _ (number conn_id)
          (IsAscii-append (codes ":") _ (omega arith) (number i))))

abbrev pub request : Phase → Bytes → Bytes → Frame
request phase value key = array (bulks (words phase key value))

batch_from-stream :
    (phase : Phase) (conn_id i n : ℕ) (value : Bytes)
    → batch_from phase conn_id i n value ≡ stream (map (request phase value) (keys conn_id i n))
unfolding batch_from
batch_from-stream phase conn_id i zero value = refl
batch_from-stream phase conn_id i (suc n) value = rw (
  command_bytes-encode phase (key_of conn_id i) value,
  batch_from-stream phase conn_id (i + 1) n value,
)

module _ (pf : Platform) where
  from_frame-request :
      (phase : Phase) (key value : Bytes)
      → is_utf8 key ≡ true
      → from_frame pf (request phase value key) ≡ ok (command phase key value)
  unfolding dispatch same bulks parse_get parse_set ascii_lower
  from_frame-request Phase.set key value h =
      rw (from_frame-name pf (codes "SET") _ (omega arith), h)
  from_frame-request Phase.get key value h =
      rw (from_frame-name pf (codes "GET") _ (omega arith), h)

  from_frame-requests :
      (phase : Phase) (conn_id i n : ℕ) (value : Bytes)
      → map (λ key. from_frame pf (request phase value key)) (keys conn_id i n)
        ≡ map (λ key. ok (command phase key value)) (keys conn_id i n)
  from_frame-requests phase conn_id i zero value = refl
  from_frame-requests phase conn_id i (suc n) value = rw (
    from_frame-request phase (key_of conn_id i) value (key_is_text conn_id i),
    from_frame-requests phase conn_id (i + 1) n value,
  )

  -- The bytes of a batch of `count` commands are the wire format of `count` requests, and the server
  -- reads these as the phase's command for the keys `k:conn_id:0`, `k:conn_id:1` and so on, in order.
  pub build_batch-from_frame :
      (phase : Phase) (conn_id count : ℕ) (value : Bytes)
      → let ks = keys conn_id 0 count in
        (build_batch phase conn_id count value ≡ stream (map (request phase value) ks))
        × (map (λ key. from_frame pf (request phase value key)) ks
            ≡ map (λ key. ok (command phase key value)) ks)
  unfolding build_batch
  build_batch-from_frame phase conn_id count value = (
    batch_from-stream phase conn_id 0 count value,
    from_frame-requests phase conn_id 0 count value,
  )
