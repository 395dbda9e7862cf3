-- ===== src/Collections/Schedule.antt =====
-- `BTreeSet<(Instant, String)>`, as the list of its elements in order.
use tokioconf_2026_workshop.Base.{
  ℕ, ◌≤◌, ◌≡◌, refl, inl, inr, Bool, true, false, not, ◌&&◌, ◌||◌, List, [], ◌∷◌, arith, Bytes, ltb,
  ◌==◌, same, same_iff, if◌then◌else◌, All, Bool-cases,
}

-- The order of `str`: bytewise.
unfoldable pub str_less : Bytes → Bytes → Bool
str_less [] [] = false
str_less [] (b ∷ t) = true
str_less (a ∷ s) [] = false
str_less (a ∷ s) (b ∷ t) = ltb a b || ((a == b) && str_less s t)

str_less_irrefl : (s : Bytes) → str_less s s ≡ false
unfolding str_less
str_less_irrefl [] = refl
str_less_irrefl (a ∷ s) = ground (arith, str_less_irrefl s)

str_less_trans : (s t u : Bytes) → str_less s t ≡ true → str_less t u ≡ true → str_less s u ≡ true
unfolding str_less
str_less_trans [] [] u h k = ground arith
str_less_trans [] (b ∷ t) [] h k = ground arith
str_less_trans [] (b ∷ t) (c ∷ u) h k = refl
str_less_trans (a ∷ s) [] u h k = ground arith
str_less_trans (a ∷ s) (b ∷ t) [] h k = ground arith
str_less_trans (a ∷ s) (b ∷ t) (c ∷ u) h k = ground (arith, str_less_trans s t u)

str_less_total : (s t : Bytes) → str_less s t ≡ false → str_less t s ≡ false → s ≡ t
unfolding str_less
str_less_total [] [] h k = refl
str_less_total [] (b ∷ t) h k = ground arith
str_less_total (a ∷ s) [] h k = ground arith
str_less_total (a ∷ s) (b ∷ t) h k = ground (arith, str_less_total s t)

abbrev pub Deadline : Type 0
Deadline = ℕ × Bytes

-- The order of pairs: by time, then by key.
unfoldable pub less : Deadline → Deadline → Bool
less d e = ltb d.0 e.0 || ((d.0 == e.0) && str_less d.1 e.1)

unfoldable pub same_deadline : Deadline → Deadline → Bool
same_deadline d e = (d.0 == e.0) && same d.1 e.1

unfoldable pub has : Deadline → List Deadline → Bool
has d [] = false
has d (e ∷ es) = same_deadline e d || has d es

unfoldable pub insert : Deadline → List Deadline → List Deadline
insert d [] = d ∷ []
insert d (e ∷ es) =
    let later = e ∷ insert d es in
    if less d e then d ∷ e ∷ es else if less e d then later else e ∷ es

unfoldable pub remove : Deadline → List Deadline → List Deadline
remove d [] = []
remove d (e ∷ es) = let rest = remove d es in if same_deadline e d then rest else e ∷ rest

-- In order, and without repetition.
abbrev pub IsOrdered : List Deadline → Type 0
IsOrdered [] = Unit
IsOrdered (e ∷ es) = All (λ d. less e d ≡ true) es × IsOrdered es

pub less-le : (d e : Deadline) → less d e ≡ true → d.0 ≤ e.0
unfolding less
less-le d e h = ground arith

less_irrefl : (d e : Deadline) → less d e ≡ true → same_deadline d e ≡ false
unfolding less same_deadline
less_irrefl d e h = ground (arith, str_less_irrefl d.1, str_less_irrefl e.1, same_iff d.1 e.1)

less_trans : (d e f : Deadline) → less d e ≡ true → less e f ≡ true → less d f ≡ true
unfolding less
less_trans d e f h k = ground (arith, str_less_trans d.1 e.1 f.1)

less_total : (d e : Deadline) → less d e ≡ false → less e d ≡ false → same_deadline e d ≡ true
unfolding less same_deadline
less_total d e h k = ground (arith, str_less_total d.1 e.1, same_iff e.1 d.1, same_iff d.1 e.1)

pub same_deadline_iff : (d e : Deadline) → same_deadline d e ≡ true → (d.0 ≡ e.0) × (d.1 ≡ e.1)
unfolding same_deadline
same_deadline_iff d e h = ground (arith, same_iff d.1 e.1)

All-trans :
    (d e : Deadline) (es : List Deadline)
    → less d e ≡ true
    → All (λ f. less e f ≡ true) es
    → All (λ f. less d f ≡ true) es
All-trans d e [] h a = tt
All-trans d e (f ∷ es) h (hf, a) = (less_trans d e f h hf, All-trans d e es h a)

All-insert :
    (d e : Deadline) (es : List Deadline)
    → less d e ≡ true
    → All (λ f. less d f ≡ true) es
    → All (λ f. less d f ≡ true) (insert e es)
unfolding insert
All-insert d e [] h a = (h, tt)
All-insert d e (f ∷ es) h (hf, a) =
    let ih = All-insert d e es h a in
    elim (Bool-cases (less e f)) [
      | inl p ↦ rw p (h, (hf, a))
      | inr p ↦ elim (Bool-cases (less f e)) [
        | inl q ↦ rw (p, q) (hf, ih)
        | inr q ↦ rw (p, q) (hf, a)
      ]
    ]

pub All-insert_any {κ} :
    (P : Deadline → Type κ) (e : Deadline) (es : List Deadline)
    → P e
    → All P es
    → All P (insert e es)
unfolding insert
All-insert_any P e [] h a = (h, tt)
All-insert_any P e (f ∷ es) h (hf, a) =
    let ih = All-insert_any P e es h a in
    elim (Bool-cases (less e f)) [
      | inl p ↦ rw p (h, (hf, a))
      | inr p ↦ elim (Bool-cases (less f e)) [
        | inl q ↦ rw (p, q) (hf, ih)
        | inr q ↦ rw (p, q) (hf, a)
      ]
    ]

pub insert-IsOrdered : (d : Deadline) (es : List Deadline) → IsOrdered es → IsOrdered (insert d es)
unfolding insert
insert-IsOrdered d [] h = (tt, tt)
insert-IsOrdered d (e ∷ es) (he, h) = elim (Bool-cases (less d e)) [
  | inl p ↦ rw p ((p, All-trans d e es p he), (he, h))
  | inr p ↦ elim (Bool-cases (less e d)) [
    | inl q ↦ rw (p, q) (All-insert e d es q he, insert-IsOrdered d es h)
    | inr q ↦ rw (p, q) (he, h)
  ]
]

pub All-remove {κ} :
    (P : Deadline → Type κ) (d : Deadline) (es : List Deadline) → All P es → All P (remove d es)
unfolding remove
All-remove P d [] a = tt
All-remove P d (e ∷ es) (he, a) = elim (Bool-cases (same_deadline e d)) [
  | inl p ↦ rw p (All-remove P d es a)
  | inr p ↦ rw p (he, All-remove P d es a)
]

pub remove-IsOrdered : (d : Deadline) (es : List Deadline) → IsOrdered es → IsOrdered (remove d es)
unfolding remove
remove-IsOrdered d [] h = tt
remove-IsOrdered d (e ∷ es) (he, h) = elim (Bool-cases (same_deadline e d)) [
  | inl p ↦ rw p (remove-IsOrdered d es h)
  | inr p ↦ rw p (All-remove _ d es he, remove-IsOrdered d es h)
]

same_deadline-sym : (d e : Deadline) → same_deadline d e ≡ same_deadline e d
unfolding same_deadline
same_deadline-sym d e = ground (arith, same_iff d.1 e.1, same_iff e.1 d.1)

same_deadline_eq :
    (d e f : Deadline) → same_deadline d e ≡ true → same_deadline d f ≡ same_deadline e f
same_deadline_eq d e f h = let (p, q) = same_deadline_iff d e h in unfold same_deadline in rw (p, q)

pub has-insert :
    (d f : Deadline) (es : List Deadline) → has f (insert d es) ≡ (same_deadline d f || has f es)
unfolding has insert
has-insert d f [] = refl
has-insert d f (e ∷ es) = ground (arith, has-insert d f es, less_total d e, same_deadline_eq e d f)

pub has-remove :
    (d f : Deadline) (es : List Deadline)
    → has f (remove d es) ≡ (not (same_deadline d f) && has f es)
unfolding has remove
has-remove d f [] = ground arith
has-remove d f (e ∷ es) = ground (
  arith,
  has-remove d f es,
  same_deadline_eq e d f,
  same_deadline_eq d f e,
  same_deadline-sym f e,
  same_deadline-sym e d,
)

-- The first element occurs once.
pub has-head :
    (d f : Deadline) (es : List Deadline)
    → All (λ e. less d e ≡ true) es
    → same_deadline d f ≡ true
    → has f es ≡ false
unfolding has
has-head d f [] a h = refl
has-head d f (e ∷ es) (he, a) h = ground (
  arith,
  has-head d f es a h,
  less_irrefl d e he,
  same_deadline_eq d f e h,
  same_deadline-sym e f,
)
