-- ===== src/Query/Coordinator/Flight.antt =====
-- The calls of `get_or_execute` in flight, with the leaders, as a step relation.
use salesdata_api.Base.{
  ◌≡◌, refl, String, List, [], ◌∷◌, ℕ, ◌≤◌, str_eq, arith, count, Option, none, some, subst, sym,
  ap, ◌∙◌, eq_iff,
}
use salesdata_api.Base.Dict.{Dict, lookup, push_back, erase, IsDict, push_back-IsDict, erase-IsDict}
use salesdata_api.Cache.Hybrid
use salesdata_api.Query.Coordinator.{
  Coordinator, Arrival, hit, lead, follow, init, arrive, missed, join, settle,
}

-- the calls that lead for a key
abbrev pub leading : String → Dict ℕ → ℕ
leading key leaders = count (λ entry. str_eq entry.0 key) leaders

leading_absent : (key : String) (m : Dict ℕ) → lookup key m ≡ none → leading key m ≡ 0
unfolding lookup
leading_absent key [] e = refl
leading_absent key ((j, v) ∷ m) e = ground (arith, leading_absent key m)

leading_dict : (key : String) (m : Dict ℕ) → IsDict m → leading key m ≤ 1
leading_dict key [] h = omega arith
leading_dict key ((j, v) ∷ m) h =
    ground (arith, eq_iff j key, leading_absent key m, leading_dict key m h.1)

-- the calls that lead, each with its future, and the coordinator between their steps
pub record Flight {ℓ} (Value : Type ℓ) : Type ℓ where
  pub coordinator : Coordinator Value
  pub leaders : Dict ℕ

module _ {ℓ} {Value : Type ℓ} where
  unfoldable pub with_leader : String → Dict ℕ → Arrival Value → Dict ℕ
  with_leader key leaders (hit rows) = leaders
  with_leader key leaders (follow fut) = leaders
  with_leader key leaders (lead fut) = push_back key fut leaders

  -- `quiet` is any step that leaves the futures alone: storing, tagging and invalidating
  pub data Step : Flight Value → Flight Value → Type ℓ where
    arrives :
        (s : Flight Value) (key : String) (now : ℕ)
        → Step s (record {
          coordinator = (arrive s.coordinator key now).0;
          leaders = with_leader key s.leaders (arrive s.coordinator key now).1;
        })
    settles :
        (s : Flight Value) (key : String) (fut : ℕ)
        → lookup key s.leaders ≡ some fut
        → Step s
            (record { coordinator = settle s.coordinator key fut; leaders = erase key s.leaders })
    quiet :
        (s : Flight Value) (c : Coordinator Value)
        → c.inflight ≡ s.coordinator.inflight
        → Step s (record s { coordinator = c })

  pub data Reachable (start : Flight Value) : Flight Value → Type ℓ where
    stays : Reachable start start
    goes : {s t : Flight Value} → Reachable start s → Step s t → Reachable start t

  -- the coordinator knows exactly the leaders
  pub record IsAgreed (s : Flight Value) : Type ℓ where
    pub known : s.coordinator.inflight ≡ s.leaders
    pub distinct : IsDict s.leaders

  joined-IsAgreed :
      (key : String) (c : Coordinator Value) (known : Option ℕ)
      → lookup key c.inflight ≡ known
      → IsDict c.inflight
      → IsAgreed (record {
        coordinator = (join c key known).0;
        leaders = with_leader key c.inflight (join c key known).1;
      })
  unfolding join with_leader
  joined-IsAgreed key c none e distinct = record {
    known = refl;
    distinct = push_back-IsDict key c.next_future c.inflight e distinct;
  }
  joined-IsAgreed key c (some fut) e distinct = record { known = refl; distinct = distinct }

  missed-IsAgreed :
      (key : String) (c : Coordinator Value) (found : Option (List Value))
      → IsDict c.inflight
      → IsAgreed (record {
        coordinator = (missed key c found).0;
        leaders = with_leader key c.inflight (missed key c found).1;
      })
  unfolding missed with_leader
  missed-IsAgreed key c none distinct = joined-IsAgreed key c (lookup key c.inflight) refl distinct
  missed-IsAgreed key c (some rows) distinct = record { known = refl; distinct = distinct }

  arrive-IsAgreed :
      (c : Coordinator Value) (key : String) (now : ℕ)
      → IsDict c.inflight
      → IsAgreed (record {
        coordinator = (arrive c key now).0;
        leaders = with_leader key c.inflight (arrive c key now).1;
      })
  unfolding arrive
  arrive-IsAgreed c key now distinct =
      missed-IsAgreed key (record c { l1 = (Hybrid.get c.l1 key now).0 })
        (Hybrid.get c.l1 key now).1 distinct

  arrive_following :
      (c : Coordinator Value) (key : String) (now fut : ℕ)
      → lookup key c.inflight ≡ some fut
      → (Hybrid.get c.l1 key now).1 ≡ none
      → (arrive c key now).1 ≡ follow fut
  unfolding arrive missed join
  arrive_following c key now fut e miss = rw (miss, missed, e)

  settled-inflight :
      (c : Coordinator Value) (key : String) (fut : ℕ)
      → lookup key c.inflight ≡ some fut
      → (settle c key fut).inflight ≡ erase key c.inflight
  unfolding settle
  settled-inflight c key fut e = rw (e) (ground arith)

  Step-IsAgreed : {s t : Flight Value} → Step s t → IsAgreed s → IsAgreed t
  Step-IsAgreed (arrives s key now) h =
      subst
        (λ (m : Dict ℕ). IsAgreed (record {
          coordinator = (arrive s.coordinator key now).0;
          leaders = with_leader key m (arrive s.coordinator key now).1;
        }))
        h.known (arrive-IsAgreed s.coordinator key now (subst IsDict (sym h.known) h.distinct))
  Step-IsAgreed (settles s key fut e) h = record {
    known =
        settled-inflight s.coordinator key fut
          (subst (λ (m : Dict ℕ). lookup key m ≡ some fut) (sym h.known) e)
        ∙ ap (erase key) h.known;
    distinct = erase-IsDict key s.leaders h.distinct;
  }
  Step-IsAgreed (quiet s c e) h = record { known = e ∙ h.known; distinct = h.distinct }

  Reachable-IsAgreed : {s t : Flight Value} → IsAgreed s → Reachable s t → IsAgreed t
  Reachable-IsAgreed h stays = h
  Reachable-IsAgreed h (goes r step) = Step-IsAgreed step (Reachable-IsAgreed h r)

  -- From a coordinator with nothing in flight, in whatever order calls arrive and finish and entries
  -- are stored, tagged and invalidated in between, at most one call for a key leads at a time, and
  -- a call that misses L1 while another leads for its key follows the future of that one.
  pub single_flight :
      (max_size ttl : ℕ) (s : Flight Value) (key : String)
      → Reachable (record { coordinator = init max_size ttl; leaders = [] }) s
      → (leading key s.leaders ≤ 1)
        × ((now fut : ℕ)
            → lookup key s.leaders ≡ some fut
            → (Hybrid.get s.coordinator.l1 key now).1 ≡ none
            → (arrive s.coordinator key now).1 ≡ follow fut)
  unfolding init
  single_flight max_size ttl s key r =
      let h = Reachable-IsAgreed (record { known = refl; distinct = tt }) r in
      (
        leading_dict key s.leaders h.distinct,
        λ now fut e miss.
            arrive_following s.coordinator key now fut
              (subst (λ (m : Dict ℕ). lookup key m ≡ some fut) (sym h.known) e) miss,
      )
