-- ===== src/Pool/Sync/Steps.antt =====
-- Threads that share a pool, as the order in which they take the steps under its lock.
use salesdata_api.Base.{
  ℕ, ◌+◌, ◌≤◌, ◌≡◌, ◌≢◌, refl, List, [], ◌∷◌, Option, none, some, Bool, true, false, ltb, length,
  arith, subst, subst₃, ◌∙◌, sym, Bool-cases, inl, inr,
}
use salesdata_api.Pool.Sizer.{Sizer, Waits, adjust}
use salesdata_api.Pool.Sizer
use salesdata_api.Pool.Sizer.Bounds.{adjust-IsSized}
use salesdata_api.Pool.Slots.{
  find, drop, store, find-drop, find-store, store-IsApart, length-drop, length-store,
}
use salesdata_api.Pool.Sync.Heap.{Entry, pop_least, Each, pop_least_lem}
use salesdata_api.Pool.Sync.Capacity.{
  IsValid, Valid, Each-map, Each-map₂, store_other, take-Valid, reserve-Valid, drop-Valid,
  init-Valid,
}
use salesdata_api.Pool.Sync.{
  Pool, got, init, poll, poll_with, release_found, begin, timed_out, creation_failed, created,
  leave, release, record_acquire, metrics_adjust, sum, close_all,
}

pop_none : (es : List Entry) → pop_least es ≡ none → es ≡ []
unfolding pop_least
pop_none [] h = refl
pop_none (e ∷ es) h = absurd (cc)

-- one round under the lock
poll-Valid :
    (p : Pool) (start now key : ℕ) (counted : Bool) (o : Option (Entry × List Entry))
    → pop_least p.available ≡ o
    → Valid p
    → Valid (poll_with p start now key counted o).1
unfolding poll_with record_acquire
poll-Valid p start now key counted none empty v =
    elim (Bool-cases (ltb (length p.in_use) p.sizer.current)) [
      | inl lt ↦ rw lt (
          reserve-Valid p.available p.in_use p.sizer key (pop_none p.available empty) (ground arith)
            v)
      | inr full ↦ elim (Bool-cases counted) [ inl c ↦ rw (full, c) v | inr c ↦ rw (full, c) v ]
    ]
poll-Valid p start now key counted (some (e, rest)) popped v =
    (take-Valid p.available p.in_use p.sizer e rest now popped v).1

-- the placeholder goes and a connection comes that is not idle
created-Valid :
    (p : Pool) (key conn start elapsed now : ℕ)
    → find key p.in_use ≡ some none
    → Each (λ e. conn ≢ e.conn) p.available
    → Valid p
    → Valid (created p key conn start elapsed now)
unfolding created record_acquire
created-Valid p key conn start elapsed now held new v =
    let w = drop-Valid p.available p.in_use p.sizer key v in
    record {
      sized = v.sized;
      apart = store-IsApart conn (some now) (drop key p.in_use) w.apart;
      idle =
          Each-map₂ (λ e. conn ≢ e.conn) (λ e. find e.conn (drop key p.in_use) ≡ none)
            (λ e. find e.conn (store conn (some now) (drop key p.in_use)) ≡ none)
            (λ e ne none_. store_other conn e.conn (some now) (drop key p.in_use) ne none_)
            p.available new w.idle;
      distinct = v.distinct;
      fits = ground (
        arith,
        length-store conn (some now) (drop key p.in_use),
        length-drop key p.in_use v.apart,
        v.fits,
      );
    }

release-Valid :
    (p : Pool) (conn : ℕ) (broken : Bool) (o : Option (Option ℕ))
    → find conn p.in_use ≡ o
    → Valid p
    → Valid (release_found p conn broken o).0
unfolding release_found
release-Valid p conn broken none e v = v
release-Valid p conn broken (some none) e v = drop-Valid p.available p.in_use p.sizer conn v
release-Valid p conn true (some (some t)) e v = drop-Valid p.available p.in_use p.sizer conn v
release-Valid p conn false (some (some t)) e v =
    let w = drop-Valid p.available p.in_use p.sizer conn v in
    record {
      sized = v.sized;
      apart = w.apart;
      idle = (ground (arith, find-drop conn conn p.in_use), w.idle);
      distinct = (
        Each-map (λ x. find x.conn p.in_use ≡ none) (λ x. conn ≢ x.conn)
            (λ x free same. absurd (ground arith)) p.available v.idle,
        v.distinct,
      );
      fits = ground (arith, length-drop conn p.in_use v.apart, v.fits);
    }

-- What threads, and a reader of the metrics, do to the pool. The `id` of a new connection is that
-- of no idle one, and a connection is created only by a thread that holds a reserved slot. The pool
-- is closed while no slot is reserved: a thread that is creating a connection meanwhile would put it
-- into the closed pool.
pub data Step : Pool → Pool → Type 0 where
  begins : (p : Pool) → Step p (begin p)
  polls : (p : Pool) (start now key : ℕ) (counted : Bool) → Step p (poll p start now key counted).1
  gives_up : (p q : Pool) (start now : ℕ) → timed_out p start now ≡ some q → Step p q
  fails : (p : Pool) (key : ℕ) → find key p.in_use ≡ some none → Step p (creation_failed p key)
  creates :
      (p : Pool) (key conn start elapsed now : ℕ)
      → find key p.in_use ≡ some none
      → Each (λ e. conn ≢ e.conn) p.available
      → Step p (created p key conn start elapsed now)
  leaves : (p : Pool) (counted : Bool) → Step p (leave p counted)
  releases : (p : Pool) (conn : ℕ) (broken : Bool) → Step p (release p conn broken).0
  measures : (p : Pool) → Step p (metrics_adjust p)
  closes : (p : Pool) → ((key : ℕ) → find key p.in_use ≢ some none) → Step p (close_all p).1

unchanged :
    (p q : Pool) (start now : ℕ)
    → timed_out p start now ≡ some q
    → (q.available ≡ p.available) × (q.in_use ≡ p.in_use) × (q.sizer ≡ p.sizer)
unfolding timed_out
unchanged p q start now e = ground arith

pub Step-Valid : {p q : Pool} → Step p q → Valid p → Valid q
unfolding begin poll timed_out creation_failed leave release metrics_adjust close_all
Step-Valid (begins p) v = v
Step-Valid (polls p start now key counted) v =
    poll-Valid p start now key counted (pop_least p.available) refl v
Step-Valid (gives_up p q start now e) v =
    let (a, u, z) = unchanged p q start now e in subst₃ IsValid (sym a) (sym u) (sym z) v
Step-Valid (fails p key e) v = drop-Valid p.available p.in_use p.sizer key v
Step-Valid (creates p key conn start elapsed now e new) v =
    created-Valid p key conn start elapsed now e new v
Step-Valid (leaves p true) v = v
Step-Valid (leaves p false) v = v
Step-Valid (releases p conn broken) v = release-Valid p conn broken (find conn p.in_use) refl v
Step-Valid (measures p) v =
    let adjusted =
      adjust-IsSized p.sizer p.current_waiters
        (record { total = sum p.recent_waits; number = length p.recent_waits }) v.sized in
    record {
      sized = adjusted.0;
      apart = v.apart;
      idle = v.idle;
      distinct = v.distinct;
      fits = omega (arith, adjusted.1, v.fits);
    }
Step-Valid (closes p settled) v = record {
  sized = v.sized;
  apart = tt;
  idle = tt;
  distinct = tt;
  fits = omega arith;
}

pub data Reach (p : Pool) : Pool → Type 0 where
  here : Reach p p
  next : {q r : Pool} → Reach p q → Step q r → Reach p r

Reach-Valid : {p q : Pool} → Valid p → Reach p q → Valid q
Reach-Valid v here = v
Reach-Valid v (next r s) = Step-Valid s (Reach-Valid v r)

pub greatest : {p q : Pool} → Step p q → Valid p → q.sizer.max ≡ p.sizer.max
unfolding begin poll poll_with record_acquire timed_out creation_failed created leave release
    release_found metrics_adjust close_all
greatest (begins p) v = refl
greatest (polls p start now key counted) v = ground arith
greatest (gives_up p q start now e) v = ground arith
greatest (fails p key e) v = refl
greatest (creates p key conn start elapsed now e new) v = refl
greatest (leaves p true) v = refl
greatest (leaves p false) v = refl
greatest (releases p conn broken) v = ground arith
greatest (measures p) v =
    (adjust-IsSized p.sizer p.current_waiters
      (record { total = sum p.recent_waits; number = length p.recent_waits }) v.sized).1
greatest (closes p settled) v = refl

Reach-greatest : {p q : Pool} → Valid p → Reach p q → q.sizer.max ≡ p.sizer.max
Reach-greatest v here = refl
Reach-greatest v (next r s) = greatest s (Reach-Valid v r) ∙ Reach-greatest v r

-- However threads interleave, with the pool closed only while no connection is being created, the
-- pool keeps its invariant, and the connections that it holds, idle and in use, with the slots
-- reserved for new ones, are never more than `max_conn`.
pub capacity :
    (low high timeout : ℕ) {q : Pool}
    → low ≤ high
    → Reach (init low high timeout) q
    → Valid q × (length q.available + length q.in_use ≤ high)
capacity low high timeout {q} le r =
    let v = Reach-Valid (init-Valid low high timeout le) r in
    let m = Reach-greatest (init-Valid low high timeout le) r in
    let top : (init low high timeout).sizer.max ≡ high = unfold init Sizer.init in refl in
    (v, omega (arith, m, top, v.fits))

module _ (p q : Pool) (start now key conn : ℕ) (counted : Bool) where
  abbrev pub Taken : Type 0
  Taken =
      (find conn p.in_use ≡ none)
      × (find conn q.in_use ≡ some (some now))
      × Each (λ e. conn ≢ e.conn) q.available
      × (length q.available + 1 ≡ length p.available)
      × ((k : ℕ) → conn ≢ k → find k q.in_use ≡ find k p.in_use)

  taken :
      (o : Option (Entry × List Entry))
      → pop_least p.available ≡ o
      → Valid p
      → poll_with p start now key counted o ≡ (got conn, q)
      → Taken
  unfolding poll_with record_acquire
  taken none empty v h = absurd (ground arith)
  taken (some (e, rest)) popped v h =
      let (free, idle, fewer, apart, distinct) =
        pop_least_lem (λ x. find x.conn p.in_use ≡ none) p.available popped v.idle v.distinct in
      let same : e.conn ≡ conn = ground (arith, h) in
      let left : q.available ≡ rest = ground (arith, h) in
      let lent : q.in_use ≡ store conn (some now) p.in_use = ground (arith, h) in
      (
        ground (arith, free, same),
        ground (arith, lent, find-store conn conn (some now) p.in_use),
        rw left (subst (λ (c : ℕ). Each (λ x. c ≢ x.conn) rest) same apart),
        ground (arith, left, fewer),
        λ k other. ground (arith, lent, find-store conn k (some now) p.in_use, other),
      )

-- However threads have interleaved, with the pool closed only while no connection is being created,
-- a connection that `acquire` takes from the idle ones was in nobody's use, is in use since then, and
-- is idle no more; the idle ones are one fewer, and whatever else is in use or reserved stays so.
pub poll-exclusive :
    (low high timeout start now key : ℕ) (counted : Bool) (conn : ℕ) (p q : Pool)
    → low ≤ high
    → Reach (init low high timeout) p
    → poll p start now key counted ≡ (got conn, q)
    → Taken p q start now key conn counted
unfolding poll
poll-exclusive low high timeout start now key counted conn p q le r h =
    taken p q start now key conn counted (pop_least p.available) refl
      (Reach-Valid (init-Valid low high timeout le) r) h
