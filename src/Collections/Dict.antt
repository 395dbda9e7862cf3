-- ===== src/Collections/Dict.antt =====
-- `HashMap` with string keys, as an association list.
use tokioconf_2026_workshop.Base.{
  ◌≡◌, refl, Option, none, some, List, [], ◌∷◌, arith, Bytes, same, same_iff, same_refl,
  if◌then◌else◌,
}

module _ {ℓ} {V : Type ℓ} where
  unfoldable pub get : Bytes → List (Bytes × V) → Option V
  get k [] = none
  get k ((j, v) ∷ m) = if same j k then some v else get k m

  unfoldable pub insert : Bytes → V → List (Bytes × V) → List (Bytes × V)
  insert k v [] = (k, v) ∷ []
  insert k v ((j, w) ∷ m) = if same j k then (k, v) ∷ m else (j, w) ∷ insert k v m

  unfoldable pub remove : Bytes → List (Bytes × V) → List (Bytes × V)
  remove k [] = []
  remove k ((j, v) ∷ m) = let rest = remove k m in if same j k then rest else (j, v) ∷ rest

  pub get-insert :
      (k j : Bytes) (v : V) (m : List (Bytes × V))
      → get j (insert k v m) ≡ (if same k j then some v else get j m)
  unfolding get insert
  get-insert k j v [] = refl
  get-insert k j v ((i, w) ∷ m) = ground (
    arith,
    same_iff k j,
    same_iff i k,
    same_iff i j,
    same_refl k,
    same_refl j,
    get-insert k j v m,
  )

  pub get-remove :
      (k j : Bytes) (m : List (Bytes × V))
      → get j (remove k m) ≡ (if same k j then none else get j m)
  unfolding get remove
  get-remove k j [] = ground arith
  get-remove k j ((i, w) ∷ m) =
      ground (
        arith,
        same_iff k j,
        same_iff i k,
        same_iff i j,
        same_refl k,
        same_refl j,
        get-remove k j m,
      )
