-- ===== src/Pool/Sync/Capacity.antt =====
-- The invariant of `SyncConnectionPool`, and what taking, reserving and dropping a slot do to it.
use salesdata_api.Base.{
  ℕ, ◌+◌, ◌≤◌, ◌<◌, ◌≡◌, ◌≢◌, List, [], ◌∷◌, Option, none, some, length, arith, ap, subst, sym,
}
use salesdata_api.Pool.Sizer.{Sizer}
use salesdata_api.Pool.Sizer.Bounds.{IsSized, init-IsSized}
use salesdata_api.Pool.Slots.{
  Slots, find, drop, store, IsApart, find-drop, find-store, drop-IsApart, store-IsApart,
  length-drop, length-store,
}
use salesdata_api.Pool.Sync.Heap.{Entry, pop_least, Each, Distinct, pop_least_lem}
use salesdata_api.Pool.Sync.{Pool, init}

-- Connections that are idle are not in use, none is idle twice, and there are at most as many of
-- both, with the slots that are reserved, as the greatest size.
pub record IsValid (available : List Entry) (in_use : Slots) (sizer : Sizer) : Type 0 where
  pub sized : IsSized sizer
  pub apart : IsApart in_use
  pub idle : Each (λ e. find e.conn in_use ≡ none) available
  pub distinct : Distinct available
  pub fits : length available + length in_use ≤ sizer.max

abbrev pub Valid : Pool → Type 0
Valid p = IsValid p.available p.in_use p.sizer

pub init-Valid : (low high timeout : ℕ) → low ≤ high → Valid (init low high timeout)
unfolding init
init-Valid low high timeout le = record {
  sized = init-IsSized low high le;
  apart = tt;
  idle = tt;
  distinct = tt;
  fits = omega arith;
}

pub Each-map :
    (P Q : Entry → Type 0) → ((e : Entry) → P e → Q e) → (es : List Entry) → Each P es → Each Q es
Each-map P Q f [] h = tt
Each-map P Q f (e ∷ es) h = (f e h.0, Each-map P Q f es h.1)

pub Each-map₂ :
    (P Q R : Entry → Type 0)
    → ((e : Entry) → P e → Q e → R e)
    → (es : List Entry) → Each P es
    → Each Q es
    → Each R es
Each-map₂ P Q R f [] h k = tt
Each-map₂ P Q R f (e ∷ es) h k = (f e h.0 k.0, Each-map₂ P Q R f es h.1 k.1)

pub store_other :
    (k j : ℕ) (v : Option ℕ) (m : Slots) → k ≢ j → find j m ≡ none → find j (store k v m) ≡ none
store_other k j v m ne h = ground (arith, find-store k j v m)

pub drop-none : (k j : ℕ) (m : Slots) → find j m ≡ none → find j (drop k m) ≡ none
drop-none k j m h = ground (arith, find-drop k j m)

module _ (available : List Entry) (in_use : Slots) (sizer : Sizer) where
  -- an idle connection is checked out
  pub take-Valid :
      (e : Entry) (rest : List Entry) (now : ℕ)
      → pop_least available ≡ some (e, rest)
      → IsValid available in_use sizer
      → (find e.conn in_use ≡ none) × IsValid rest (store e.conn (some now) in_use) sizer
  take-Valid e rest now popped v =
      let (free, idle, less, apart, distinct) =
        pop_least_lem (λ x. find x.conn in_use ≡ none) available popped v.idle v.distinct in
      (
        free,
        record {
          sized = v.sized;
          apart = store-IsApart e.conn (some now) in_use v.apart;
          idle =
              Each-map₂ (λ y. e.conn ≢ y.conn) (λ x. find x.conn in_use ≡ none)
                (λ x. find x.conn (store e.conn (some now) in_use) ≡ none)
                (λ x ne none_. store_other e.conn x.conn (some now) in_use ne none_) rest apart
                idle;
          distinct = distinct;
          fits = ground (arith, length-store e.conn (some now) in_use, v.fits, less);
        },
      )

  -- a slot is reserved under a new key
  pub reserve-Valid :
      (key : ℕ)
      → available ≡ []
      → length in_use < sizer.current
      → IsValid available in_use sizer
      → IsValid available (store key none in_use) sizer
  reserve-Valid key empty room v = record {
    sized = v.sized;
    apart = store-IsApart key none in_use v.apart;
    idle = subst (Each (λ e. find e.conn (store key none in_use) ≡ none)) (sym empty) tt;
    distinct = v.distinct;
    fits = ground (arith, length-store key none in_use, ap length empty, v.sized.at_most);
  }

  pub drop-Valid :
      (key : ℕ) → IsValid available in_use sizer → IsValid available (drop key in_use) sizer
  drop-Valid key v = record {
    sized = v.sized;
    apart = drop-IsApart key in_use v.apart;
    idle =
        Each-map (λ e. find e.conn in_use ≡ none) (λ e. find e.conn (drop key in_use) ≡ none)
          (λ e h. drop-none key e.conn in_use h) available v.idle;
    distinct = v.distinct;
    fits = ground (arith, length-drop key in_use v.apart, v.fits);
  }
