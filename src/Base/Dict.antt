-- ===== src/Base/Dict.antt =====
-- Python's `dict` and `OrderedDict` with string keys, in iteration order (oldest insertion first).
use Prim.Native.Nat.{◌+◌, ◌≤◌}
use Prim.Native.String.{String}
use mathlib.Core.Path.{◌≡◌, refl, subst}
use mathlib.Core.Bool.{Bool, true, false}
use mathlib.Core.Option.{Option, none, some}
use mathlib.Core.List.{List, [], ◌∷◌, ◌++◌}
use native.Mathlib.Omega.{arith}
use text.Mathlib.Text.{◌==◌ as str_eq}
use text.Mathlib.TextEquality.{eq_iff}
use text.Mathlib.TextPositions.{eq_refl}
use salesdata_api.Base.Tests.{if◌then◌else◌, is_some, either}
use salesdata_api.Base.Lists.{length, All}

abbrev pub Dict {ℓ} : Type ℓ → Type ℓ
Dict V = List (String × V)

module _ {ℓ} {V : Type ℓ} where
  -- `d.get(k)`
  unfoldable pub lookup : String → Dict V → Option V
  lookup k [] = none
  lookup k ((j, v) ∷ m) = if str_eq j k then some v else lookup k m

  -- `k in d`
  abbrev pub contains : String → Dict V → Bool
  contains k m = is_some (lookup k m)

  -- `d[k] = v`: in place if the key is there, at the end if it is new
  unfoldable pub insert : String → V → Dict V → Dict V
  insert k v [] = (k, v) ∷ []
  insert k v ((j, w) ∷ m) = if str_eq j k then (j, v) ∷ m else (j, w) ∷ insert k v m

  -- `d.pop(k, None)`, and `del d[k]` where the key is there
  unfoldable pub erase : String → Dict V → Dict V
  erase k [] = []
  erase k ((j, v) ∷ m) = let rest = erase k m in if str_eq j k then rest else (j, v) ∷ rest

  -- a new key at the end; after `erase k` this is `move_to_end` with a new value
  abbrev pub push_back : String → V → Dict V → Dict V
  push_back k v m = m ++ (k, v) ∷ []

  pub lookup-insert :
      (key other : String) (new : V) (m : Dict V)
      → lookup other (insert key new m) ≡ (if str_eq key other then some new else lookup other m)
  unfolding lookup insert
  lookup-insert key other new [] = refl
  lookup-insert key other new ((first, old) ∷ rest) = ground (
    arith,
    eq_iff first key,
    eq_iff first other,
    eq_iff key other,
    lookup-insert key other new rest,
  )

  pub lookup-erase :
      (k j : String) (m : Dict V) → lookup j (erase k m) ≡ (if str_eq k j then none else lookup j m)
  unfolding lookup erase
  lookup-erase k j [] = ground arith
  lookup-erase k j ((i, w) ∷ m) =
      ground (arith, eq_iff k j, eq_iff i k, eq_iff i j, lookup-erase k j m)

  pub lookup-push_back :
      (k j : String) (v : V) (m : Dict V)
      → lookup j (push_back k v m)
        ≡ (if is_some (lookup j m) then lookup j m else if str_eq k j then some v else none)
  unfolding lookup
  lookup-push_back k j v [] = refl
  lookup-push_back k j v ((i, w) ∷ m) = ground (arith, lookup-push_back k j v m)

  -- `move_to_end`, with a new value
  pub lookup-refresh :
      (k j : String) (v : V) (m : Dict V)
      → lookup j (push_back k v (erase k m)) ≡ (if str_eq k j then some v else lookup j m)
  lookup-refresh k j v m = ground (arith, lookup-push_back k j v (erase k m), lookup-erase k j m)

  -- No key occurs twice.
  abbrev pub IsDict : Dict V → Type ℓ
  IsDict [] = Unit
  IsDict ((k, v) ∷ m) = (lookup k m ≡ none) × IsDict m

  pub insert-IsDict : (k : String) (v : V) (m : Dict V) → IsDict m → IsDict (insert k v m)
  unfolding insert lookup
  insert-IsDict k v [] h = (refl, tt)
  insert-IsDict k v ((j, w) ∷ m) h =
      ground (arith, eq_iff j k, eq_iff k j, lookup-insert k j v m, insert-IsDict k v m h.1)

  pub erase-IsDict : (k : String) (m : Dict V) → IsDict m → IsDict (erase k m)
  unfolding erase
  erase-IsDict k [] h = tt
  erase-IsDict k ((j, w) ∷ m) h = ground (arith, lookup-erase k j m, erase-IsDict k m h.1)

  pub push_back-IsDict :
      (k : String) (v : V) (m : Dict V) → lookup k m ≡ none → IsDict m → IsDict (push_back k v m)
  unfolding lookup
  push_back-IsDict k v [] new h = (refl, tt)
  push_back-IsDict k v ((j, w) ∷ m) new h =
      ground (arith, eq_iff j k, eq_iff k j, lookup-push_back k j v m, push_back-IsDict k v m)

  pub erase_absent : (k : String) (m : Dict V) → lookup k m ≡ none → erase k m ≡ m
  unfolding lookup erase
  erase_absent k [] h = refl
  erase_absent k ((j, w) ∷ m) h = ground (arith, erase_absent k m)

  pub length-erase :
      (k : String) (m : Dict V)
      → IsDict m
      → length (erase k m) + (if is_some (lookup k m) then 1 else 0) ≡ length m
  unfolding lookup erase
  length-erase k [] h = omega arith
  length-erase k ((j, w) ∷ m) h = ground (arith, eq_iff j k, length-erase k m h.1, erase_absent k m)

  pub length-erase-le : (k : String) (m : Dict V) → length (erase k m) ≤ length m
  unfolding erase
  length-erase-le k [] = omega arith
  length-erase-le k ((j, w) ∷ m) = ground (arith, length-erase-le k m)

  pub length-insert :
      (k : String) (v : V) (m : Dict V)
      → length (insert k v m) ≡ length m + (if is_some (lookup k m) then 0 else 1)
  unfolding insert lookup
  length-insert k v [] = omega arith
  length-insert k v ((j, w) ∷ m) = ground (arith, length-insert k v m)

-- A predicate of every value.
module _ {ℓ κ} {V : Type ℓ} (P : V → Type κ) where
  abbrev pub AllValues : Dict V → Type κ
  AllValues = All (λ e. P e.1)

  pub All-erase : (k : String) (m : Dict V) → AllValues m → AllValues (erase k m)
  unfolding erase
  All-erase k [] ok = tt
  All-erase k ((j, v) ∷ m) ok =
      either AllValues (str_eq j k) (All-erase k m ok.1) (ok.0, All-erase k m ok.1)

  pub All-insert : (k : String) (v : V) (m : Dict V) → P v → AllValues m → AllValues (insert k v m)
  unfolding insert
  All-insert k v [] new ok = (new, tt)
  All-insert k v ((j, w) ∷ m) new ok =
      either AllValues (str_eq j k) (new, ok.1) (ok.0, All-insert k v m new ok.1)

  pub All-lookup : (k : String) (m : Dict V) (v : V) → AllValues m → lookup k m ≡ some v → P v
  unfolding lookup
  All-lookup k [] v ok e = cc
  All-lookup k ((j, w) ∷ m) v ok e = found (str_eq j k) e (All-lookup k m v ok.1)
    where
      found :
          (b : Bool)
          → (if b then some w else lookup k m) ≡ some v
          → (lookup k m ≡ some v → P v)
          → P v
      found true h later = subst P (cc) ok.0
      found false h later = later h

pub ruleset dict_laws = (lookup-insert, lookup-erase, lookup-push_back, eq_refl)
