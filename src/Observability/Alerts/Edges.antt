-- ===== src/Observability/Alerts/Edges.antt =====
-- What is logged of an alert, and what the alerts on a counter add up to.
use salesdata_api.Base.{
  ◌≡◌, refl, ℕ, ◌+◌, ◌≤◌, String, List, [], ◌∷◌, ◌++◌, some, Bool, true, false, not, ◌&&◌, ◌||◌,
  str_eq, eq_iff, if◌then◌else◌, arith,
}
use salesdata_api.Base.Dict.{lookup, insert, lookup-insert}
use salesdata_api.Observability.Alerts.{
  AlertThresholds, Snapshot, Evaluator, Alert, Severity, Counters, LogLine, fires, resolved,
  has_code, codes_of, newly_firing, newly_resolved, evaluate, all_alerts, check_counter_delta,
}

-- whether the lines say that the alert begins, or that it ends
unfoldable pub logs_fires : String → List LogLine → Bool
logs_fires code [] = false
logs_fires code (fires c ∷ ls) = str_eq c code || logs_fires code ls
logs_fires code (resolved c ∷ ls) = logs_fires code ls

unfoldable pub logs_resolved : String → List LogLine → Bool
logs_resolved code [] = false
logs_resolved code (fires c ∷ ls) = logs_resolved code ls
logs_resolved code (resolved c ∷ ls) = str_eq c code || logs_resolved code ls

begins :
    (code : String) (firing : List String) (alerts : List Alert) (cs : List String)
    (current : List String)
    → logs_fires code (newly_firing firing alerts ++ newly_resolved cs current)
      ≡ (has_code code (codes_of alerts) && not (has_code code firing))
unfolding logs_fires newly_firing newly_resolved has_code
begins code firing [] [] current = refl
begins code firing [] (c ∷ cs) current = ground (arith, begins code firing [] cs current)
begins code firing (a ∷ more) cs current =
    ground (arith, eq_iff a.code code, begins code firing more cs current)

ends :
    (code : String) (firing : List String) (alerts : List Alert) (cs : List String)
    (current : List String)
    → logs_resolved code (newly_firing firing alerts ++ newly_resolved cs current)
      ≡ (has_code code cs && not (has_code code current))
unfolding logs_resolved newly_firing newly_resolved has_code
ends code firing [] [] current = refl
ends code firing [] (c ∷ cs) current = ground (arith, eq_iff c code, ends code firing [] cs current)
ends code firing (a ∷ more) cs current = ground (arith, ends code firing more cs current)

-- An evaluation logs the start of an alert exactly if the alert is among its alerts and was not among
-- those of the evaluation before, and its end exactly if it was among those and is not among these;
-- and it keeps the codes of these for the next evaluation. So the log has a line for each change, and
-- none while an alert goes on or stays away.
pub evaluate-edges :
    (t : AlertThresholds) (s : Snapshot) (e : Evaluator) (code : String)
    → let (after, alerts, lines) = evaluate t s e in
      (has_code code after.firing ≡ has_code code (codes_of alerts))
      × (logs_fires code lines ≡ (has_code code (codes_of alerts) && not (has_code code e.firing)))
      × (logs_resolved code lines
          ≡ (has_code code e.firing && not (has_code code (codes_of alerts))))
unfolding evaluate
evaluate-edges t s e code =
    let alerts = (all_alerts t s e.prev_counters).1 in
    (
      refl,
      begins code e.firing alerts e.firing (codes_of alerts),
      ends code e.firing alerts e.firing (codes_of alerts),
    )

-- Checks of counters, one after another: the key of each and its current value.
unfoldable pub checks : Counters → List (String × ℕ) → List Alert
unfolding check_counter_delta
checks counters [] = []
checks counters ((key, v) ∷ more) =
    let (after, alerts) = check_counter_delta key Severity.warning v counters in
    alerts ++ checks after more

-- what the alerts on a key add up to
unfoldable pub increase : String → List Alert → ℕ
increase key [] = 0
increase key (a ∷ more) = (if str_eq a.code key then a.delta else 0) + increase key more

-- The values of a key never go down, from `v` on; and the last of them.
abbrev pub Rising : String → ℕ → List (String × ℕ) → Type 0
Rising key v [] = Unit
Rising key v ((k, w) ∷ more) =
    (str_eq k key ≡ true → v ≤ w) × Rising key (if str_eq k key then w else v) more

unfoldable pub last_value : String → ℕ → List (String × ℕ) → ℕ
last_value key v [] = v
last_value key v ((k, w) ∷ more) = last_value key (if str_eq k key then w else v) more

-- The alerts on a counter that has been checked before and does not go down report each new
-- occurrence exactly once: over any sequence of checks, those of other counters included, they add up
-- to the difference between its last value and the one known at the start.
pub checks-increase :
    (key : String) (v : ℕ) (counters : Counters) (calls : List (String × ℕ))
    → lookup key counters ≡ some v
    → Rising key v calls
    → v + increase key (checks counters calls) ≡ last_value key v calls
unfolding checks increase last_value check_counter_delta
checks-increase key v counters [] known up = omega arith
checks-increase key v counters ((k, w) ∷ more) known up = ground (
  arith,
  eq_iff k key,
  lookup-insert k key w counters,
  checks-increase key (if str_eq k key then w else v) (insert k w counters) more,
)
