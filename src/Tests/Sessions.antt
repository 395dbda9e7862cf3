-- ===== src/Tests/Sessions.antt =====
-- Connections of the server at concrete inputs.
use tokioconf_2026_workshop.Base.{
  ◌≡◌, refl, false, true, ◌||◌, Option, none, some, List, [], ◌∷◌, arith, Bytes, codes, length,
  same, same→eq, if◌then◌else◌, ◌+◌, ◌<◌, Bool-cases, inl, inr,
}
use mathlib.Core.List.{flatten}
use tokioconf_2026_workshop.Client.Subscriber.Unsubscribed.{
  without, has-without, length-without_absent, length-without, without-Distinct,
}
use tokioconf_2026_workshop.Collections.Dict
use tokioconf_2026_workshop.Command.{set, get, into_frame}
use tokioconf_2026_workshop.Command.RoundTrip.{bulks}
use tokioconf_2026_workshop.Connection
use tokioconf_2026_workshop.Connection.{Connection}
use tokioconf_2026_workshop.Db.{State}
use tokioconf_2026_workshop.Frame.{array, size, push_bulk, empty_array}
use tokioconf_2026_workshop.Frame.Wire.{encode}
use tokioconf_2026_workshop.Server.Session.Pipeline.{Request, IsRequest, wires, Runs, run-answers}
use tokioconf_2026_workshop.Server.Session.Store.{view, IsBounded}
use tokioconf_2026_workshop.Std.Reference.{reference}
use tokioconf_2026_workshop.Std.StreamMap.{StreamMap, has, Distinct}
use tokioconf_2026_workshop.Std.Utf8.{is_utf8}
use tokioconf_2026_workshop.Tests.Database.{counting}

abbrev Listed : Type 0
Listed = (ks : List Bytes) × Distinct ks

abbrev added : Bytes → List Bytes → List Bytes
added k ks = if has k ks then ks else k ∷ ks

pub added-Distinct : (k : Bytes) (ks : List Bytes) → Distinct ks → Distinct (added k ks)
added-Distinct k ks d = elim (Bool-cases (has k ks)) [
  | inl there ↦ rw there d
  | inr absent ↦ rw absent (absent, d)
]

pub has-added : (k j : Bytes) (ks : List Bytes) → has j (added k ks) ≡ same k j || has j ks
has-added k j ks = elim (Bool-cases (has k ks)) [
  | inl there ↦ rw there (elim (Bool-cases (same k j)) [
    | inl own ↦ rw (own, ← same→eq k j own) there
    | inr another ↦ rw another refl
  ])
  | inr absent ↦ rw absent refl
]

pub length-added :
    (k : Bytes) (ks : List Bytes)
    → length (added k ks) ≡ (if has k ks then length ks else length ks + 1)
length-added k ks = ground arith

-- Keys without their streams.
abbrev pub listed : StreamMap (Unit {0})
listed = record {
  Streams = Listed;
  empty = ([], tt);
  insert = λ k r m. (added k m.0, added-Distinct k m.0 m.1);
  remove = λ k m. (without k m.0, without-Distinct k m.0 m.1);
  keys = λ m. m.0;
  keys-empty = refl;
  has-insert = λ k j r m. has-added k j m.0;
  length-insert = λ k r m. length-added k m.0;
  has-remove = λ k j m. has-without k j m.0;
  length-remove = λ k m. elim (Bool-cases (has k m.0)) [
    | inl there ↦ rw there (omega (arith, length-without k m.0 m.1 there))
    | inr absent ↦ rw absent (length-without_absent k m.0 absent)
  ];
  keys_distinct = λ m. m.1;
}

abbrev pub first_set : Request
first_set = record {
  now = 3;
  command = set (codes "k") (codes "v") none;
  frame = array (bulks (codes "set" ∷ codes "k" ∷ codes "v" ∷ []));
}

abbrev pub then_get : Request
then_get = record {
  now = 4;
  command = get (codes "k");
  frame = array (bulks (codes "get" ∷ codes "k" ∷ []));
}

k_is_text : is_utf8 (codes "k") ≡ true
unfolding is_utf8
k_is_text = refl

pub first_set-IsRequest : IsRequest 100 first_set
unfolding into_frame bulks size push_bulk empty_array
first_set-IsRequest = record {
  built = refl;
  carried = omega arith;
  valid = k_is_text;
  prompt = omega arith;
}

pub then_get-IsRequest : IsRequest 100 then_get
unfolding into_frame bulks size push_bulk empty_array
then_get-IsRequest = record { built = refl; carried = omega arith; valid = k_is_text; prompt = tt }

abbrev pub no_entries : State counting.Sender
no_entries = record { entries = []; pub_sub = []; expirations = []; shutdown = false }

pub no_entries-IsBounded : IsBounded (view no_entries)
unfolding view Dict.get
no_entries-IsBounded key value e = absurd (none≢some value e)
  where
    none≢some : (v : Bytes) → ◌≡◌ {A = Option Bytes} none (some v) → ⊥
    none≢some v p = cc

some_bytes : 0 < length (wires (first_set ∷ then_get ∷ []))
unfolding encode
some_bytes = omega arith

run-answers_example :
    Runs reference 100 counting listed
      (first_set ∷ then_get ∷ [])
      Connection.new
      (wires (first_set ∷ then_get ∷ []) ∷ [])
      no_entries
      []
unfolding encode Connection.new flatten
run-answers_example =
    run-answers reference 100 counting listed (first_set ∷ then_get ∷ []) Connection.new
      (wires (first_set ∷ then_get ∷ []) ∷ []) no_entries []
      (first_set-IsRequest, (then_get-IsRequest, tt)) no_entries-IsBounded (some_bytes, tt) refl

pub a_b_Distinct : Distinct (codes "a" ∷ codes "b" ∷ [])
unfolding same
a_b_Distinct = (refl, (refl, tt))

abbrev pub two_channels : Listed
two_channels = (codes "a" ∷ codes "b" ∷ [], a_b_Distinct)
