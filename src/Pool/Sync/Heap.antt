-- ===== src/Pool/Sync/Heap.antt =====
-- The heap `_available`: `heappop` takes the least entry, by check-out time and then by counter.
-- The counter tells all entries apart, so the connections are never compared.
use salesdata_api.Base.{
  ℕ, suc, ◌+◌, ◌≡◌, refl, List, [], ◌∷◌, Option, none, some, Bool, true, false, ◌&&◌, ◌||◌, ltb,
  ◌==◌, if◌then◌else◌, length, arith, ◌≢◌, Bool-cases, inl, inr, sym, ap, subst,
}

pub record Entry : Type 0 where
  pub created_at : ℕ
  pub counter : ℕ
  pub conn : ℕ

unfoldable pub before : Entry → Entry → Bool
before a b =
    ltb a.created_at b.created_at || (a.created_at == b.created_at && ltb a.counter b.counter)

-- the least entry, and the others
unfoldable pub pop_from : Entry → List Entry → Entry × List Entry
unfolding before
pop_from least [] = (least, [])
pop_from least (e ∷ es) =
    let (m, rest) = pop_from (if before e least then e else least) es in
    (m, (if before e least then least else e) ∷ rest)

unfoldable pub pop_least : List Entry → Option (Entry × List Entry)
unfolding pop_from
pop_least [] = none
pop_least (e ∷ es) = some (pop_from e es)

-- what is said of all entries
abbrev pub Each : (Entry → Type 0) → List Entry → Type 0
Each P [] = Unit
Each P (e ∷ es) = P e × Each P es

-- no connection stands in two entries
abbrev pub Distinct : List Entry → Type 0
Distinct [] = Unit
Distinct (e ∷ es) = Each (λ x. e.conn ≢ x.conn) es × Distinct es

pop_from-Each :
    (P : Entry → Type 0) (least : Entry) (es : List Entry)
    → P least
    → Each P es
    → P (pop_from least es).0 × Each P (pop_from least es).1
unfolding pop_from
pop_from-Each P least [] h hs = (h, tt)
pop_from-Each P least (e ∷ es) h hs = elim (Bool-cases (before e least)) [
  | inl less ↦ let (a, b) = pop_from-Each P e es hs.0 hs.1 in rw less (a, (h, b))
  | inr more ↦ let (a, b) = pop_from-Each P least es h hs.1 in rw more (a, (hs.0, b))
]

swap_ne :
    (x : Entry) (es : List Entry) (m : Entry) (rest : List Entry)
    → x.conn ≢ m.conn
    → Each (λ y. x.conn ≢ y.conn) rest
    → Each (λ y. m.conn ≢ y.conn) rest
    → Distinct rest
    → Distinct (m ∷ x ∷ rest)
swap_ne x es m rest ne apart apart' d = ((λ e. ne (sym e), apart'), (apart, d))

from_less :
    (least e : Entry) (es : List Entry)
    → before e least ≡ true
    → pop_from least (e ∷ es) ≡ ((pop_from e es).0, least ∷ (pop_from e es).1)
unfolding pop_from
from_less least e es h = ap (step least e es) h
  where
    step : Entry → Entry → List Entry → Bool → Entry × List Entry
    step least e es b = (
      (pop_from (if b then e else least) es).0,
      (if b then least else e) ∷ (pop_from (if b then e else least) es).1,
    )

from_more :
    (least e : Entry) (es : List Entry)
    → before e least ≡ false
    → pop_from least (e ∷ es) ≡ ((pop_from least es).0, e ∷ (pop_from least es).1)
unfolding pop_from
from_more least e es h = ap (step least e es) h
  where
    step : Entry → Entry → List Entry → Bool → Entry × List Entry
    step least e es b = (
      (pop_from (if b then e else least) es).0,
      (if b then least else e) ∷ (pop_from (if b then e else least) es).1,
    )

abbrev AllDistinct : Entry × List Entry → Type 0
AllDistinct r = Distinct (r.0 ∷ r.1)

pop_from-Distinct :
    (least : Entry) (es : List Entry) → Distinct (least ∷ es) → AllDistinct (pop_from least es)
pop_from-Distinct least [] d = unfold pop_from in (tt, tt)
pop_from-Distinct least (e ∷ es) ((ne, apart), (apart', d)) = elim (Bool-cases (before e least)) [
  | inl less ↦
      let (a, b) = pop_from-Each (λ y. least.conn ≢ y.conn) e es ne apart in
      let ih = pop_from-Distinct e es (apart', d) in
      subst AllDistinct (sym (from_less least e es less))
        (swap_ne least es (pop_from e es).0 (pop_from e es).1 a b ih.0 ih.1)
  | inr more ↦
      let (a, b) = pop_from-Each (λ y. e.conn ≢ y.conn) least es (λ q. ne (sym q)) apart' in
      let ih = pop_from-Distinct least es (apart, d) in
      subst AllDistinct (sym (from_more least e es more))
        (swap_ne e es (pop_from least es).0 (pop_from least es).1 a b ih.0 ih.1)
]

length-pop_from : (least : Entry) (es : List Entry) → length (pop_from least es).1 ≡ length es
unfolding pop_from
length-pop_from least [] = refl
length-pop_from least (e ∷ es) = ap suc (length-pop_from (if before e least then e else least) es)

-- What `heappop` leaves of a heap: one entry fewer, the same things true of all, none twice.
pub pop_least_lem :
    (P : Entry → Type 0) (es : List Entry) {e : Entry} {rest : List Entry}
    → pop_least es ≡ some (e, rest)
    → Each P es
    → Distinct es
    → P e
      × Each P rest
      × (length rest + 1 ≡ length es)
      × Each (λ y. e.conn ≢ y.conn) rest
      × Distinct rest
unfolding pop_least
pop_least_lem P [] h hs d = absurd (cc)
pop_least_lem P (x ∷ es) {e} {rest} h hs d =
    let taken : pop_from x es ≡ (e, rest) = cc in
    subst
      (λ (r : Entry × List Entry).
        P r.0
        × Each P r.1
        × (length r.1 + 1 ≡ suc (length es))
        × Each (λ y. r.0.conn ≢ y.conn) r.1
        × Distinct r.1)
      taken
      (
        (pop_from-Each P x es hs.0 hs.1).0,
        (pop_from-Each P x es hs.0 hs.1).1,
        omega (arith, length-pop_from x es),
        (pop_from-Distinct x es d).0,
        (pop_from-Distinct x es d).1,
      )
