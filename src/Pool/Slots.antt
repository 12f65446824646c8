-- ===== src/Pool/Slots.antt =====
-- The dict `_in_use` of a pool, from the `id` of an object to its check-out time, or to `None` for
-- the placeholder of a connection that is being created.
use salesdata_api.Base.{
  ℕ, ◌+◌, ◌≡◌, refl, List, [], ◌∷◌, Option, none, some, if◌then◌else◌, ◌==◌, length, arith, is_some,
}

abbrev pub Slots : Type 0
Slots = List (ℕ × Option ℕ)

unfoldable pub find : ℕ → Slots → Option (Option ℕ)
find k [] = none
find k ((j, v) ∷ m) = if j == k then some v else find k m

-- `pop(k, None)`
unfoldable pub drop : ℕ → Slots → Slots
drop k [] = []
drop k ((j, v) ∷ m) = let rest = drop k m in if j == k then rest else (j, v) ∷ rest

-- `d[k] = v`
unfoldable pub store : ℕ → Option ℕ → Slots → Slots
store k v [] = (k, v) ∷ []
store k v ((j, w) ∷ m) = if j == k then (j, v) ∷ m else (j, w) ∷ store k v m

abbrev pub IsApart : Slots → Type 0
IsApart [] = Unit
IsApart ((k, v) ∷ m) = (find k m ≡ none) × IsApart m

pub find-drop : (k j : ℕ) (m : Slots) → find j (drop k m) ≡ (if k == j then none else find j m)
unfolding find drop
find-drop k j [] = ground arith
find-drop k j ((i, v) ∷ m) = ground (arith, find-drop k j m)

pub find-store :
    (k j : ℕ) (v : Option ℕ) (m : Slots)
    → find j (store k v m) ≡ (if k == j then some v else find j m)
unfolding find store
find-store k j v [] = ground arith
find-store k j v ((i, w) ∷ m) = ground (arith, find-store k j v m)

pub drop_absent : (k : ℕ) (m : Slots) → find k m ≡ none → drop k m ≡ m
unfolding find drop
drop_absent k [] h = refl
drop_absent k ((i, w) ∷ m) h = ground (arith, drop_absent k m)

pub drop-IsApart : (k : ℕ) (m : Slots) → IsApart m → IsApart (drop k m)
unfolding drop
drop-IsApart k [] h = tt
drop-IsApart k ((i, w) ∷ m) h = ground (arith, find-drop k i m, drop-IsApart k m h.1)

pub store-IsApart : (k : ℕ) (v : Option ℕ) (m : Slots) → IsApart m → IsApart (store k v m)
unfolding store find
store-IsApart k v [] h = (refl, tt)
store-IsApart k v ((i, w) ∷ m) h = ground (arith, find-store k i v m, store-IsApart k v m h.1)

pub length-drop :
    (k : ℕ) (m : Slots)
    → IsApart m
    → length (drop k m) + (if is_some (find k m) then 1 else 0) ≡ length m
unfolding find drop
length-drop k [] h = omega arith
length-drop k ((i, w) ∷ m) h = ground (arith, length-drop k m h.1, drop_absent k m)

pub length-store :
    (k : ℕ) (v : Option ℕ) (m : Slots)
    → length (store k v m) ≡ length m + (if is_some (find k m) then 0 else 1)
unfolding find store
length-store k v [] = omega arith
length-store k v ((i, w) ∷ m) = ground (arith, length-store k v m)
