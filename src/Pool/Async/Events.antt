-- ===== src/Pool/Async/Events.antt =====
-- The list of waiting events: what appending an event to it and removing one leave.
use salesdata_api.Base.{ℕ, ◌≡◌, refl, List, [], ◌∷◌, ◌++◌, Bool, false, ◌==◌, ◌||◌, arith}
use salesdata_api.Pool.Async.{remove}

-- an event is among some
abbrev pub waits : ℕ → List ℕ → Bool
waits event [] = false
waits event (e ∷ es) = e == event || waits event es

abbrev pub IsDistinct : List ℕ → Type 0
IsDistinct [] = Unit
IsDistinct (e ∷ es) = (waits e es ≡ false) × IsDistinct es

remove-ne : (event e : ℕ) (es : List ℕ) → waits e es ≡ false → waits e (remove event es) ≡ false
unfolding remove
remove-ne event e [] h = refl
remove-ne event e (x ∷ es) h = ground (arith, remove-ne event e es)

pub remove-IsDistinct : (event : ℕ) (es : List ℕ) → IsDistinct es → IsDistinct (remove event es)
unfolding remove
remove-IsDistinct event [] h = tt
remove-IsDistinct event (x ∷ es) h =
    ground (arith, remove-ne event x es h.0, remove-IsDistinct event es h.1)

pub remove-gone : (event : ℕ) (es : List ℕ) → IsDistinct es → waits event (remove event es) ≡ false
unfolding remove
remove-gone event [] h = refl
remove-gone event (x ∷ es) h = ground (arith, remove-gone event es h.1)

append-waits : (event e : ℕ) (es : List ℕ) → waits e (es ++ event ∷ []) ≡ waits e es || event == e
append-waits event e [] = ground arith
append-waits event e (x ∷ es) = ground (arith, append-waits event e es)

pub append-IsDistinct :
    (event : ℕ) (es : List ℕ)
    → waits event es ≡ false
    → IsDistinct es
    → IsDistinct (es ++ event ∷ [])
append-IsDistinct event [] new h = (refl, tt)
append-IsDistinct event (x ∷ es) new h =
    ground (arith, append-waits event x es, append-IsDistinct event es (ground arith) h.1)
