-- ===== src/Observability/Histogram/Cumulative.antt =====
-- The cumulative counts against a count of the observations themselves.
use salesdata_api.Base.{
  ◌≡◌, refl, ap, ◌∙◌, ℕ, zero, suc, ◌+◌, List, [], ◌∷◌, none, some, true, false, leb, length, count,
  if◌then◌else◌, arith, ◌⊎◌, inl, inr, Bool-cases,
}
use salesdata_api.Observability.Histogram.{
  Histogram, is_ascending, zeros, bisect_left, increment, observe, running, cumulative_counts,
  new_histogram,
}

-- after the values `vs`, the latest of them first
unfoldable pub observed : Histogram → List ℕ → Histogram
observed h [] = h
observed h (v ∷ vs) = observe (observed h vs) v

-- how many values are at most each bound, and how many there are
unfoldable pub reference : List ℕ → List ℕ → List ℕ
reference [] vs = length vs ∷ []
reference (b ∷ bs) vs = count (λ v. leb v b) vs ∷ reference bs vs

-- one more value in the counts of the bounds that it does not exceed
added : ℕ → List ℕ → List ℕ → List ℕ
added v bounds [] = []
added v [] (c ∷ cs) = suc c ∷ cs
added v (b ∷ bs) (c ∷ cs) = (if leb v b then suc c else c) ∷ added v bs cs

-- a value below the bounds that are left counts in all that follows
bump :
    (v b s : ℕ) (bs cs : List ℕ)
    → leb v b ≡ true
    → is_ascending (b ∷ bs) ≡ true
    → length cs ≡ suc (length bs)
    → running (suc s) cs ≡ added v bs (running s cs)
unfolding running added is_ascending
bump v b s [] [] low up len = absurd (omega (arith, len))
bump v b s [] (c ∷ []) low up len = ap (λ k. k ∷ []) (omega arith)
bump v b s [] (c ∷ d ∷ cs) low up len = absurd (omega (arith, len))
bump v b s (b' ∷ bs) [] low up len = absurd (omega (arith, len))
bump v b s (b' ∷ bs) (c ∷ cs) low up len = ground (arith, bump v b' (s + c) bs cs)

ascending_rest : (b : ℕ) (bs : List ℕ) → is_ascending (b ∷ bs) ≡ true → is_ascending bs ≡ true
unfolding is_ascending
ascending_rest b [] up = refl
ascending_rest b (c ∷ bs) up = ground arith

increment-running :
    (v s : ℕ) (bs cs : List ℕ)
    → is_ascending bs ≡ true
    → length cs ≡ suc (length bs)
    → running s (increment (bisect_left bs v) cs) ≡ added v bs (running s cs)
unfolding running added bisect_left increment
increment-running v s [] [] up len = absurd (omega (arith, len))
increment-running v s [] (c ∷ []) up len = ap (λ k. k ∷ []) (omega arith)
increment-running v s [] (c ∷ d ∷ cs) up len = absurd (omega (arith, len))
increment-running v s (b ∷ bs) [] up len = absurd (omega (arith, len))
increment-running v s (b ∷ bs) (c ∷ cs) up len =
    ground
      (arith, bump v b (s + c) bs cs, increment-running v (s + c) bs cs (ascending_rest b bs up))

added-reference : (v : ℕ) (bs vs : List ℕ) → added v bs (reference bs vs) ≡ reference bs (v ∷ vs)
unfolding added reference
added-reference v [] vs = refl
added-reference v (b ∷ bs) vs = ground (arith, added-reference v bs vs)

length-increment : (i : ℕ) (cs : List ℕ) → length (increment i cs) ≡ length cs
unfolding increment
length-increment i [] = refl
length-increment zero (c ∷ cs) = refl
length-increment (suc i) (c ∷ cs) = ap suc (length-increment i cs)

-- what stays true of a histogram with these bounds after these values
record Counts (bounds vs : List ℕ) (h : Histogram) : Type 0 where
  same_bounds : h.bucket_bounds ≡ bounds
  buckets : length h.bucket_counts ≡ suc (length bounds)
  cumulative : running 0 h.bucket_counts ≡ reference bounds vs

observe-Counts :
    (v : ℕ) (bounds vs : List ℕ) (h : Histogram)
    → is_ascending bounds ≡ true
    → Counts bounds vs h
    → Counts bounds (v ∷ vs) (observe h v)
unfolding observe
observe-Counts v bounds vs h up k = record {
  same_bounds = k.same_bounds;
  buckets = length-increment _ h.bucket_counts ∙ k.buckets;
  cumulative =
      ap (λ bs. running 0 (increment (bisect_left bs v) h.bucket_counts)) k.same_bounds
      ∙ (increment-running v 0 bounds h.bucket_counts up k.buckets
          ∙ (ap (added v bounds) k.cumulative ∙ added-reference v bounds vs));
}

observed-Counts :
    (vs bounds : List ℕ) (h : Histogram)
    → is_ascending bounds ≡ true
    → Counts bounds [] h
    → Counts bounds vs (observed h vs)
unfolding observed
observed-Counts [] bounds h up k = k
observed-Counts (v ∷ vs) bounds h up k =
    observe-Counts v bounds vs (observed h vs) up (observed-Counts vs bounds h up k)

fresh_running : (bs : List ℕ) → running 0 (zeros bs) ≡ reference bs []
unfolding running reference
fresh_running [] = refl
fresh_running (b ∷ bs) = ap (λ cs. 0 ∷ cs) (fresh_running bs)

fresh_length : (bs : List ℕ) → length (zeros bs) ≡ suc (length bs)
fresh_length [] = refl
fresh_length (b ∷ bs) = ap suc (fresh_length bs)

abbrev fresh : List ℕ → Histogram
fresh bounds = record {
  bucket_bounds = bounds;
  bucket_counts = zeros bounds;
  count = 0;
  total = 0;
  minimum = none;
  maximum = none;
}

observed-count : (h : Histogram) (vs : List ℕ) → (observed h vs).count ≡ h.count + length vs
unfolding observed observe
observed-count h [] = omega arith
observed-count h (v ∷ vs) = omega (arith, observed-count h vs)

-- A histogram is made exactly for bounds in ascending order. After any values, its cumulative counts
-- are, for each bound, how many of the values are at most that bound, and at the end how many values
-- there are; its count is their number too.
pub observed-cumulative :
    (bounds vs : List ℕ)
    → ((new_histogram bounds ≡ none) × (is_ascending bounds ≡ false))
      ⊎ ((h : Histogram) × (new_histogram bounds ≡ some h)
          × (cumulative_counts (observed h vs) ≡ reference bounds vs)
          × ((observed h vs).count ≡ length vs))
unfolding new_histogram cumulative_counts
observed-cumulative bounds vs = elim (Bool-cases (is_ascending bounds)) [
  | inl up ↦ inr (
    fresh bounds,
    rw up refl,
    (observed-Counts vs bounds (fresh bounds) up (record {
      same_bounds = refl;
      buckets = fresh_length bounds;
      cumulative = fresh_running bounds;
    })).cumulative,
    omega (arith, observed-count (fresh bounds) vs),
  )
  | inr no_order ↦ inl (rw no_order refl, no_order)
]
