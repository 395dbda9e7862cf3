-- ===== src/Std/StreamMap.antt =====
-- `tokio_stream::StreamMap` with text keys, as an interface: a map from channels to their streams of
-- messages, whose keys come in an order of its own.
use tokioconf_2026_workshop.Base.{
  ◌+◌, ◌-◌, ◌≡◌, Bool, false, not, ◌&&◌, ◌||◌, List, [], ◌∷◌, Bytes, same, if◌then◌else◌, length,
}

abbrev pub has : Bytes → List Bytes → Bool
has k [] = false
has k (j ∷ js) = same j k || has k js

abbrev pub Distinct : List Bytes → Type 0
Distinct [] = Unit
Distinct (k ∷ ks) = (has k ks ≡ false) × Distinct ks

pub record StreamMap (Stream : Type 0) : Type 1 where
  pub Streams : Type 0
  pub empty : Streams
  pub insert : Bytes → Stream → Streams → Streams
  pub remove : Bytes → Streams → Streams
  pub keys : Streams → List Bytes
  pub keys-empty : keys empty ≡ []
  -- A key is there once: a new stream takes the place of the old one.
  pub has-insert :
      (k j : Bytes) (r : Stream) (m : Streams)
      → has j (keys (insert k r m)) ≡ same k j || has j (keys m)
  pub length-insert :
      (k : Bytes) (r : Stream) (m : Streams)
      → length (keys (insert k r m))
        ≡ (if has k (keys m) then length (keys m) else length (keys m) + 1)
  pub has-remove :
      (k j : Bytes) (m : Streams) → has j (keys (remove k m)) ≡ not (same k j) && has j (keys m)
  pub length-remove :
      (k : Bytes) (m : Streams)
      → length (keys (remove k m))
        ≡ (if has k (keys m) then length (keys m) - 1 else length (keys m))
  -- No key comes twice.
  pub keys_distinct : (m : Streams) → Distinct (keys m)
