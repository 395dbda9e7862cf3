-- ===== src/Db/Invariant.antt =====
-- What holds of the database between two operations.
use tokioconf_2026_workshop.Base.{
  ℕ, ◌≡◌, refl, Bool, false, not, ◌&&◌, ◌||◌, Option, none, some, List, arith, Bytes, ◌==◌, same,
  same_iff,
}
use tokioconf_2026_workshop.Collections.Dict
use tokioconf_2026_workshop.Collections.Schedule.{
  Deadline, has, IsOrdered, has-insert, has-remove, same_deadline, insert-IsOrdered,
  remove-IsOrdered,
}
use tokioconf_2026_workshop.Db.{Entry, State, new, forget, track, store}

abbrev pub expires_is : ℕ → Option Entry → Bool
expires_is t none = false
expires_is t (some e) = elim e.expires_at [ none ↦ false | some u ↦ u == t ]

-- The schedule is in order, and holds exactly the expirations of the stored values.
pub record IsConsistent (entries : List (Bytes × Entry)) (ds : List Deadline) : Type 0 where
  pub ordered : IsOrdered ds
  pub tracked : (t : ℕ) (k : Bytes) → has (t, k) ds ≡ expires_is t (Dict.get k entries)

abbrev pub IsWellFormed : {S : Type 0} → State S → Type 0
IsWellFormed st = IsConsistent st.entries st.expirations

-- A new database is well-formed.
pub new-IsWellFormed : (S : Type 0) → IsWellFormed (new {S = S}).state
unfolding new has
new-IsWellFormed S = record { ordered = tt; tracked = λ t k. unfold Dict.get in refl }

same_deadline_lem : (t u : ℕ) (k l : Bytes) → same_deadline (t, k) (u, l) ≡ (same k l && (t == u))
unfolding same_deadline
same_deadline_lem t u k l = ground arith

has-forget :
    (prev : Option Entry) (t : ℕ) (key k : Bytes) (ds : List Deadline)
    → has (t, k) (forget prev key ds) ≡ (not (same key k && expires_is t prev) && has (t, k) ds)
unfolding forget
has-forget none t key k ds = ground arith
has-forget (some e) t key k ds = by_time e.expires_at
  where
    by_time :
        (o : Option ℕ)
        → has (t, k) (forget (some (record { value = e.value; expires_at = o })) key ds) ≡ (
            not (same key k && expires_is t (some (record { value = e.value; expires_at = o })))
            && has (t, k) ds)
    by_time none = ground arith
    by_time (some u) = ground (arith, has-remove (u, key) (t, k) ds, same_deadline_lem u t key k)

has-track :
    (o : Option ℕ) (v : Bytes) (t : ℕ) (key k : Bytes) (ds : List Deadline)
    → has (t, k) (track o key ds) ≡ (
        (same key k && expires_is t (some (record { value = v; expires_at = o }))) || has (t, k) ds)
unfolding track
has-track none v t key k ds = ground arith
has-track (some u) v t key k ds =
    ground (arith, has-insert (u, key) (t, k) ds, same_deadline_lem u t key k)

forget-IsOrdered :
    (prev : Option Entry) (key : Bytes) (ds : List Deadline)
    → IsOrdered ds
    → IsOrdered (forget prev key ds)
unfolding forget
forget-IsOrdered none key ds h = h
forget-IsOrdered (some e) key ds h = by_time e.expires_at
  where
    by_time :
        (o : Option ℕ)
        → IsOrdered (forget (some (record { value = e.value; expires_at = o })) key ds)
    by_time none = h
    by_time (some u) = remove-IsOrdered (u, key) ds h

track-IsOrdered :
    (o : Option ℕ) (key : Bytes) (ds : List Deadline) → IsOrdered ds → IsOrdered (track o key ds)
unfolding track
track-IsOrdered none key ds h = h
track-IsOrdered (some u) key ds h = insert-IsOrdered (u, key) ds h

-- Storing a value keeps the schedule in step with the values.
pub store-IsWellFormed :
    {S : Type 0} (key value : Bytes) (o : Option ℕ) (st : State S)
    → IsWellFormed st
    → IsWellFormed (store key value o st)
unfolding store
store-IsWellFormed key value o st h = record {
  ordered = track-IsOrdered o key _ (forget-IsOrdered _ key st.expirations h.ordered);
  tracked = λ t k.
      let e : Entry = record { value = value; expires_at = o } in
      ground (
        arith,
        has-track o value t key k (forget (Dict.get key st.entries) key st.expirations),
        has-forget (Dict.get key st.entries) t key k st.expirations,
        h.tracked t k,
        Dict.get-insert key k e st.entries,
        same_iff key k,
      );
}
