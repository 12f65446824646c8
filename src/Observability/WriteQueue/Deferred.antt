-- ===== src/Observability/WriteQueue/Deferred.antt =====
-- Writing later comes to the same as writing at once.
use salesdata_api.Base.{
  ◌≡◌, refl, sym, ap, ◌∙◌, ℕ, zero, suc, ◌-◌, List, [], ◌∷◌, ◌++◌, take, Bool, true, false, not,
  ◌&&◌, arith, All,
}
use salesdata_api.Storage.Transaction.{Connected, Luck, transaction, settle}
use salesdata_api.Observability.WriteQueue.{
  WriteQueue, drop, Step, enqueue, round, stop, write_all, flush_batch, step, run,
}

-- Every transaction of the steps finds a connection and commits.
abbrev pub Lucky {ℓ} : {A : Type ℓ} → Step A → Type 0
Lucky (enqueue r) = Unit
Lucky (round luck) = (luck.acquired ≡ true) × (luck.committed ≡ true)
Lucky (stop luck) = (luck.acquired ≡ true) × (luck.committed ≡ true)

-- the records that the steps enqueue, in order
abbrev pub enqueued {ℓ} : {A : Type ℓ} → List (Step A) → List A
enqueued [] = []
enqueued (enqueue r ∷ ss) = r ∷ enqueued ss
enqueued (round luck ∷ ss) = enqueued ss
enqueued (stop luck ∷ ss) = enqueued ss

take-drop {ℓ} : {A : Type ℓ} (n : ℕ) (xs : List A) → take n xs ++ drop n xs ≡ xs
unfolding drop
take-drop zero xs = refl
take-drop (suc n) [] = refl
take-drop (suc n) (x ∷ xs) = ap (λ ys. x ∷ ys) (take-drop n xs)

module _ {ℓ κ} {D : Type ℓ} {A : Type κ} (write_record : D → A → D) where
  write_all-append :
      (d : D) (xs ys : List A)
      → write_all write_record d (xs ++ ys)
        ≡ write_all write_record (write_all write_record d xs) ys
  unfolding write_all
  write_all-append d [] ys = refl
  write_all-append d (x ∷ xs) ys = write_all-append (write_record d x) xs ys

  abbrev connected : D → ℕ → Connected D
  connected d n = record { database = d; in_use = n }

  same_count : (d : D) (n : ℕ) → connected d (suc n - 1) ≡ connected d n
  same_count d n = ap (connected d) (omega arith)

  flush-writes :
      (luck : Luck) (batch : List A) (c : Connected D)
      → luck.acquired ≡ true
      → luck.committed ≡ true
      → flush_batch write_record luck batch c
        ≡ record c { database = write_all write_record c.database batch }
  unfolding flush_batch transaction settle write_all
  flush-writes luck [] c got done = refl
  flush-writes luck (r ∷ rs) c got done = rw (got, done) (same_count _ c.in_use)

  -- what the database holds once the queue is written
  abbrev settled : WriteQueue D A → D
  settled q = write_all write_record q.service_db.database q.queue

  round-settled :
      (q : WriteQueue D A) (luck : Luck) (b : Bool)
      → q.has_thread && not q.stop_event ≡ b
      → luck.acquired ≡ true
      → luck.committed ≡ true
      → settled (step write_record q (round luck)) ≡ settled q
  unfolding step
  round-settled q luck true on got done = rw on (
      ap (λ c. write_all write_record c.database (drop q.max_batch q.queue))
        (flush-writes luck (take q.max_batch q.queue) q.service_db got done)
      ∙ (sym (write_all-append q.service_db.database (take q.max_batch q.queue) _)
          ∙ ap (write_all write_record q.service_db.database) (take-drop q.max_batch q.queue)))
  round-settled q luck false off got done = rw off refl

  stop-settled :
      (q : WriteQueue D A) (luck : Luck)
      → luck.acquired ≡ true
      → luck.committed ≡ true
      → settled (step write_record q (stop luck)) ≡ settled q
  unfolding step write_all
  stop-settled q luck got done =
      ap (λ c. c.database) (flush-writes luck q.queue q.service_db got done)

  step-settled :
      (q : WriteQueue D A) (s : Step A) (ss : List (Step A))
      → Lucky s
      → write_all write_record (settled (step write_record q s)) (enqueued ss)
        ≡ write_all write_record (settled q) (enqueued (s ∷ ss))
  unfolding step write_all
  step-settled q (enqueue r) ss lucky =
      ap (λ d. write_all write_record d (enqueued ss))
        (write_all-append q.service_db.database q.queue (r ∷ []))
  step-settled q (round luck) ss lucky =
      ap (λ d. write_all write_record d (enqueued ss))
        (round-settled q luck (q.has_thread && not q.stop_event) refl lucky.0 lucky.1)
  step-settled q (stop luck) ss lucky =
      ap (λ d. write_all write_record d (enqueued ss)) (stop-settled q luck lucky.0 lucky.1)

  ran :
      (q : WriteQueue D A) (ss : List (Step A))
      → All Lucky ss
      → settled (run write_record q ss) ≡ write_all write_record (settled q) (enqueued ss)
  unfolding run write_all
  ran q [] h = refl
  ran q (s ∷ ss) h = ran (step write_record q s) ss h.1 ∙ step-settled q s ss h.0

  stopped :
      (q : WriteQueue D A) (luck : Luck)
      → luck.acquired ≡ true
      → luck.committed ≡ true
      → (step write_record q (stop luck)).service_db.database ≡ settled q
  unfolding step
  stopped q luck got done = ap (λ c. c.database) (flush-writes luck q.queue q.service_db got done)

  -- Where every transaction of the queue succeeds, whatever requests enqueue between its rounds and
  -- however the rounds cut the queue into batches, the database with the records that still wait
  -- written to it is the one that writing each record at once would give, in the order in which they
  -- were enqueued; and right after a stop nothing waits, so the database is that one itself.
  pub run-deferred :
      (q : WriteQueue D A) (ss : List (Step A)) (luck : Luck)
      → All Lucky ss
      → luck.acquired ≡ true
      → luck.committed ≡ true
      → (settled (run write_record q ss)
          ≡ write_all write_record q.service_db.database (q.queue ++ enqueued ss))
        × ((step write_record (run write_record q ss) (stop luck)).queue ≡ [])
        × ((step write_record (run write_record q ss) (stop luck)).service_db.database
            ≡ write_all write_record q.service_db.database (q.queue ++ enqueued ss))
  unfolding step
  run-deferred q ss luck lucky got done =
      let all =
        ran q ss lucky ∙ sym (write_all-append q.service_db.database q.queue (enqueued ss)) in
      (all, refl, stopped (run write_record q ss) luck got done ∙ all)
