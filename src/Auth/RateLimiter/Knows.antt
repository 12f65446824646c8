-- ===== src/Auth/RateLimiter/Knows.antt =====
-- What the bucket of a key knows of the attempts that core/auth/rate_limiter.py allowed.
use salesdata_api.Base.{
  ℕ, ◌≤◌, ◌≡◌, String, List, [], ◌∷◌, ◌++◌, true, false, leb, length, count, count-append,
  if◌then◌else◌, arith, str_eq, eq_iff, eq_refl, ◌∙◌, subst, not, Bool-cases, inl, inr,
}
use salesdata_api.Base.Dict.{insert, erase, lookup-insert, lookup-erase}
use salesdata_api.Auth.RateLimiter.Sorted.{
  recent, IsSorted, Until, length-drop_old, count-drop_old, drop_old-IsSorted, drop_old-Until,
  Until-mono, append-IsSorted, append-Until,
}
use salesdata_api.Auth.RateLimiter.{Attempts, bucket, drop_old, check_and_record, reset}
use salesdata_api.Auth.RateLimiter.History.{History, recent_of, forget, allows}

bucket-insert :
    (k j : String) (ts : List ℕ) (s : Attempts)
    → bucket (insert k ts s) j ≡ (if str_eq k j then ts else bucket s j)
unfolding bucket
bucket-insert k j ts s = ground (arith, lookup-insert k j ts s)

bucket-erase :
    (k j : String) (s : Attempts) → bucket (erase k s) j ≡ (if str_eq k j then [] else bucket s j)
unfolding bucket
bucket-erase k j s = ground (arith, lookup-erase k j s)

module _ (max w : ℕ) where
  -- What a key's bucket knows of the history, at or after a time.
  pub record Knows (last : ℕ) (h : History) (key : String) (ts : List ℕ) : Type 0 where
    pub sorted : IsSorted ts
    pub past : Until last ts
    pub counts :
        (later : ℕ) → last ≤ later → count (recent w later) ts ≡ count (recent_of w key later) h

  count-forget :
      (key j : String) (later : ℕ) (h : History)
      → count (recent_of w j later) (forget key h)
        ≡ (if str_eq key j then 0 else count (recent_of w j later) h)
  count-forget key j later [] = ground arith
  count-forget key j later ((k, t) ∷ h) =
      ground (arith, count-forget key j later h, eq_iff k key, eq_iff k j, eq_iff key j)

  module _ (last now : ℕ) (h : History) (le : last ≤ now) where
    Knows-later : (j : String) (ts : List ℕ) → Knows last h j ts → Knows now h j ts
    Knows-later j ts k = record {
      sorted = k.sorted;
      past = Until-mono ts le k.past;
      counts = λ later after. k.counts later (omega arith);
    }

    Knows-pruned :
        (j : String) (ts : List ℕ) → Knows last h j ts → Knows now h j (drop_old w now ts)
    Knows-pruned j ts k = record {
      sorted = drop_old-IsSorted w now ts k.sorted;
      past = drop_old-Until w now now ts (Until-mono ts le k.past);
      counts = λ later after. count-drop_old w now later ts after ∙ k.counts later (omega arith);
    }

    length-pruned :
        (j : String) (ts : List ℕ)
        → Knows last h j ts
        → length (drop_old w now ts) ≡ count (recent_of w j now) h
    length-pruned j ts k = length-drop_old w now ts k.sorted ∙ k.counts now le

  Knows-added :
      (now : ℕ) (h : History) (key : String) (ts : List ℕ)
      → Knows now h key ts
      → Knows now ((key, now) ∷ h) key (ts ++ now ∷ [])
  Knows-added now h key ts k = record {
    sorted = append-IsSorted now ts k.sorted k.past;
    past = append-Until now ts k.past;
    counts = λ later after.
        ground
          (arith, eq_refl key, count-append (recent w later) ts (now ∷ []), k.counts later after);
  }

  Knows-other :
      (now : ℕ) (h : History) (key j : String) (ts : List ℕ)
      → str_eq key j ≡ false
      → Knows now h j ts
      → Knows now ((key, now) ∷ h) j ts
  Knows-other now h key j ts ne k = record {
    sorted = k.sorted;
    past = k.past;
    counts = λ later after. ground (arith, k.counts later after);
  }

  decision :
      (last now : ℕ) (h : History) (s : Attempts) (key : String)
      → last ≤ now
      → Knows last h key (bucket s key)
      → (leb max (length (drop_old w now (bucket s key))) ≡ not (allows max w h key now))
  unfolding allows
  decision last now h s key le k = ground (arith, length-pruned last now h le key (bucket s key) k)

  module _ (last now : ℕ) (h : History) (s : Attempts) (key : String) (le : last ≤ now)
      (knows : (j : String) → Knows last h j (bucket s j)) where
    -- The answer is the reference's, and every bucket still knows its key's history.
    pub Knows-attempt :
        ((check_and_record max w s key now).1 ≡ allows max w h key now)
        × ((j : String)
            → Knows now
                (if allows max w h key now then (key, now) ∷ h else h)
                j
                (bucket (check_and_record max w s key now).0 j))
    unfolding check_and_record
    Knows-attempt = elim (Bool-cases (allows max w h key now)) [
      | inl allowed ↦
          let full : leb max (length pruned) ≡ false = ground (arith, test) in
          (
            ground arith,
            λ j. elim (Bool-cases (str_eq key j)) [
              | inl same ↦
                  rw (allowed, full, bucket-insert, same)
                    (subst (λ (i : String). Knows now ((key, now) ∷ h) i (pruned ++ now ∷ []))
                      ((eq_iff key j).0 same) (Knows-added now h key pruned kept))
              | inr other ↦
                  rw (allowed, full, bucket-insert, other)
                    (Knows-other now h key j (bucket s j) other
                      (Knows-later last now h le j (bucket s j) (knows j)))
            ],
          )
      | inr denied ↦
          let full : leb max (length pruned) ≡ true = ground (arith, test) in
          (
            ground arith,
            λ j. elim (Bool-cases (str_eq key j)) [
              | inl same ↦
                  rw (denied, full, bucket-insert, same)
                    (subst (λ (i : String). Knows now h i pruned) ((eq_iff key j).0 same) kept)
              | inr other ↦
                  rw (denied, full, bucket-insert, other)
                    (Knows-later last now h le j (bucket s j) (knows j))
            ],
          )
    ]
      where
        pruned : List ℕ
        pruned = drop_old w now (bucket s key)

        kept : Knows now h key pruned
        kept = Knows-pruned last now h le key (bucket s key) (knows key)

        test : leb max (length pruned) ≡ not (allows max w h key now)
        test = decision last now h s key le (knows key)

    pub Knows-reset :
        (target j : String) → Knows last (forget target h) j (bucket (reset s target) j)
    unfolding reset
    Knows-reset target j = elim (Bool-cases (str_eq target j)) [
      | inl same ↦
          rw (bucket-erase, same)
            (record { sorted = tt; past = tt; counts = λ later after. rw (count-forget, same) })
      | inr other ↦
          rw (bucket-erase, other)
            (record {
              sorted = (knows j).sorted;
              past = (knows j).past;
              counts = λ later after. rw (count-forget, other) ((knows j).counts later after);
            })
    ]
