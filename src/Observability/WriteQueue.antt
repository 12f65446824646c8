-- ===== src/Observability/WriteQueue.antt =====
-- `ObservabilityWriteQueue` of core/observability/write_queue.py. The thread's round (sleep, drain,
-- flush) is a step, since what it has drained is its own; enqueuing is a step of the requests. What
-- writing a record does to the database is a parameter: an exception of it is logged, and what it has
-- written until then stays.
pub mod Deferred
use salesdata_api.Base.{
  ℕ, zero, suc, List, [], ◌∷◌, ◌++◌, take, Bool, true, false, not, ◌&&◌, if◌then◌else◌,
}
use salesdata_api.Storage.Transaction.{Connected, Ended, ended, Luck, transaction}

pub record WriteQueue {ℓ κ} (D : Type ℓ) (A : Type κ) : Type (ℓ ⊔ κ) where
  pub service_db : Connected D
  pub max_batch : ℕ
  pub queue : List A
  pub has_thread : Bool
  pub stop_event : Bool

-- `_drain` with a limit leaves what is behind it
unfoldable pub drop {ℓ} : {A : Type ℓ} → ℕ → List A → List A
drop zero xs = xs
drop (suc n) [] = []
drop (suc n) (x ∷ xs) = drop n xs

pub data Step {ℓ} (A : Type ℓ) : Type ℓ where
  enqueue : A → Step A
  round : Luck → Step A
  stop : Luck → Step A

module _ {ℓ κ} {D : Type ℓ} {A : Type κ} (write_record : D → A → D) where
  unfoldable pub write_all : D → List A → D
  write_all d [] = d
  write_all d (r ∷ rs) = write_all (write_record d r) rs

  unfoldable pub flush_batch : Luck → List A → Connected D → Connected D
  unfolding write_all transaction
  flush_batch luck [] c = c
  flush_batch luck (r ∷ rs) c =
      (transaction {A = Unit {0}} luck (λ d. (write_all d (r ∷ rs), ended tt)) c).0

  -- the event is never cleared, so a thread that is started after a stop ends at once
  unfoldable pub start : WriteQueue D A → WriteQueue D A
  start q = record q { has_thread = true }

  unfoldable pub step : WriteQueue D A → Step A → WriteQueue D A
  unfolding flush_batch drop
  step q (enqueue r) = record q { queue = q.queue ++ r ∷ [] }
  step q (round luck) =
      if q.has_thread && not q.stop_event
      then record q {
        service_db = flush_batch luck (take q.max_batch q.queue) q.service_db;
        queue = drop q.max_batch q.queue;
      }
      else q
  step q (stop luck) = record q {
    service_db = flush_batch luck q.queue q.service_db;
    queue = [];
    has_thread = false;
    stop_event = true;
  }

  unfoldable pub run : WriteQueue D A → List (Step A) → WriteQueue D A
  unfolding step
  run q [] = q
  run q (s ∷ ss) = run (step q s) ss
