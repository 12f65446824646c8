-- ===== src/Query/Persistence/Conservation.antt =====
-- What becomes of the jobs of `CachePersistenceQueue`, over the steps of its callers and workers.
use salesdata_api.Base.{
  ℕ, ◌+◌, ◌≤◌, ◌<◌, ◌≡◌, refl, List, [], ◌∷◌, ◌++◌, some, ltb, length, if◌then◌else◌, arith,
  length-append, ◌∙◌, ◌&&◌, not,
}
use salesdata_api.Query.Persistence.{
  Persistence, init, start, submit, is_full, take_job, Ending, returned, raised, cancelled, end_job,
  stop_accepting, stop_workers,
}

-- `others` is `jobs` with one `job` taken out
pub data Without (job : ℕ) : List ℕ → List ℕ → Type 0 where
  first : {jobs : List ℕ} → Without job (job ∷ jobs) jobs
  later :
      {j : ℕ} {jobs others : List ℕ} → Without job jobs others → Without job (j ∷ jobs) (j ∷ others)

length-Without :
    {job : ℕ} {jobs others : List ℕ} → Without job jobs others → length jobs ≡ length others + 1
length-Without first = omega arith
length-Without (later w) = omega (arith, length-Without w)

-- the jobs that a step cancels
abbrev pub lost : Ending → ℕ
lost returned = 0
lost raised = 0
lost cancelled = 1

-- what callers, workers and the shutdown do, with the number of jobs cancelled
pub data Step : Persistence → ℕ → Persistence → Type 0 where
  starts : (q : Persistence) → Step q 0 (start q)
  submits : (q : Persistence) (now : ℕ) → Step q 0 (submit q now).0
  takes : (q q' : Persistence) → take_job q ≡ some q' → Step q 0 q'
  ends :
      (q : Persistence) (job : ℕ) (others : List ℕ) (ending : Ending) (now : ℕ)
      → Without job q.running others
      → Step q (lost ending) (end_job q job others ending now)
  stops : (q : Persistence) → Step q 0 (stop_accepting q)
  cancels :
      (q : Persistence) (now : ℕ)
      → 0 < q.worker_tasks
      → Step q (length q.running) (stop_workers q now)

pub data Reach (start_ : Persistence) : ℕ → Persistence → Type 0 where
  here : Reach start_ 0 start_
  next : {n k : ℕ} {q r : Persistence} → Reach start_ n q → Step q k r → Reach start_ (n + k) r

-- every job that was put in the queue waits, runs, ended or was cancelled
pub record IsConserved (gone : ℕ) (q : Persistence) : Type 0 where
  pub counted : q.enqueued ≡ q.completed + q.failed + length q.queue + length q.running + gone
  pub bounded : (if ltb 0 q.maxsize then length q.queue else 0) ≤ q.maxsize

submit-IsConserved :
    (gone : ℕ) (q : Persistence) (now : ℕ) → IsConserved gone q → IsConserved gone (submit q now).0
unfolding submit is_full
submit-IsConserved gone q now h = record {
  counted = ground (arith, length-append q.queue (now ∷ []), h.counted);
  bounded = ground (arith, length-append q.queue (now ∷ []), h.bounded);
}

Step-IsConserved :
    (gone : ℕ) {q r : Persistence} {k : ℕ}
    → Step q k r
    → IsConserved gone q
    → IsConserved (gone + k) r
unfolding start take_job end_job stop_accepting stop_workers
Step-IsConserved gone (starts q) h = record {
  counted = ground (arith, h.counted);
  bounded = ground (arith, h.bounded);
}
Step-IsConserved gone (submits q now) h =
    let v = submit-IsConserved gone q now h in
    record { counted = omega (arith, v.counted); bounded = v.bounded }
Step-IsConserved gone (takes q q' e) h = record {
  counted = ground (arith, h.counted);
  bounded = ground (arith, h.bounded);
}
Step-IsConserved gone (ends q job others returned now w) h = record {
  counted = omega (arith, length-Without w, h.counted);
  bounded = h.bounded;
}
Step-IsConserved gone (ends q job others raised now w) h = record {
  counted = omega (arith, length-Without w, h.counted);
  bounded = h.bounded;
}
Step-IsConserved gone (ends q job others cancelled now w) h = record {
  counted = omega (arith, length-Without w, h.counted);
  bounded = h.bounded;
}
Step-IsConserved gone (stops q) h = record {
  counted = omega (arith, h.counted);
  bounded = h.bounded;
}
Step-IsConserved gone (cancels q now pos) h = record {
  counted = ground (arith, h.counted);
  bounded = ground (arith, h.bounded);
}

Reach-IsConserved :
    (maxsize workers : ℕ) {n : ℕ} {q : Persistence}
    → Reach (init maxsize workers) n q
    → IsConserved n q
unfolding init
Reach-IsConserved maxsize workers here = record { counted = omega arith; bounded = ground arith }
Reach-IsConserved maxsize workers (next r s) =
    Step-IsConserved _ s (Reach-IsConserved maxsize workers r)

greatest : {q r : Persistence} {k : ℕ} → Step q k r → r.maxsize ≡ q.maxsize
unfolding start submit take_job end_job stop_accepting stop_workers
greatest (starts q) = ground arith
greatest (submits q now) = ground arith
greatest (takes q q' e) = ground arith
greatest (ends q job others returned now w) = refl
greatest (ends q job others raised now w) = refl
greatest (ends q job others cancelled now w) = refl
greatest (stops q) = refl
greatest (cancels q now pos) = ground arith

Reach-maxsize :
    (maxsize workers : ℕ) {n : ℕ} {q : Persistence}
    → Reach (init maxsize workers) n q
    → q.maxsize ≡ maxsize
unfolding init
Reach-maxsize maxsize workers here = refl
Reach-maxsize maxsize workers (next r s) = greatest s ∙ Reach-maxsize maxsize workers r

-- However callers, workers and the shutdown interleave, the jobs that were put in the queue are
-- those that completed, failed, wait, run or were cancelled; and a queue with a bound never holds
-- more jobs than it.
pub persistence_conserved :
    (maxsize workers : ℕ) {n : ℕ} {q : Persistence}
    → Reach (init maxsize workers) n q
    → (q.enqueued ≡ q.completed + q.failed + length q.queue + length q.running + n)
      × (0 < maxsize → length q.queue ≤ maxsize)
persistence_conserved maxsize workers {q = q} r =
    let h = Reach-IsConserved maxsize workers r in
    (h.counted, λ pos. ground (arith, h.bounded, Reach-maxsize maxsize workers r))

-- An attempt to put a job in the queue says whether it was put there, and is counted once: as put
-- in the queue, behind the jobs that wait, or as dropped, with the queue unchanged; and it is put
-- there exactly if the queue accepts jobs and is not full.
pub submit_lem :
    (q : Persistence) (now : ℕ)
    → ((submit q now).0.enqueued + (submit q now).0.dropped ≡ q.enqueued + q.dropped + 1)
      × ((submit q now).0.queue ≡ (if (submit q now).1 then q.queue ++ now ∷ [] else q.queue))
      × ((submit q now).0.dropped ≡ (if (submit q now).1 then q.dropped else q.dropped + 1))
      × ((submit q now).1 ≡ (q.accepting && not (is_full q)))
unfolding submit
submit_lem q now = (ground arith, ground arith, ground arith, ground arith)
