-- ===== src/Observability/Histogram.antt =====
-- `Histogram` of core/performance/histogram.py. A value is a number of ticks from 0. `bisect_left` on
-- the sorted bounds is the number of bounds below the value.
pub mod Cumulative
use salesdata_api.Base.{
  ℕ, zero, suc, ◌+◌, ◌/◌, min, max, List, [], ◌∷◌, Option, none, some, Bool, true, false, ◌&&◌, ltb,
  leb, length, if◌then◌else◌,
}

pub record Histogram : Type 0 where
  pub bucket_bounds : List ℕ
  pub bucket_counts : List ℕ
  pub count : ℕ
  pub total : ℕ
  pub minimum : Option ℕ
  pub maximum : Option ℕ

abbrev zeros : List ℕ → List ℕ
zeros [] = 0 ∷ []
zeros (b ∷ bs) = 0 ∷ zeros bs

-- `list(bounds) == sorted(bounds)`
unfoldable pub is_ascending : List ℕ → Bool
is_ascending [] = true
is_ascending (b ∷ []) = true
is_ascending (b ∷ c ∷ bs) = leb b c && is_ascending (c ∷ bs)

-- `__post_init__`; `none` is its `HistogramError`
unfoldable pub new_histogram : List ℕ → Option Histogram
unfolding is_ascending
new_histogram bounds =
    if is_ascending bounds
    then some (record {
      bucket_bounds = bounds;
      bucket_counts = zeros bounds;
      count = 0;
      total = 0;
      minimum = none;
      maximum = none;
    })
    else none

unfoldable pub bisect_left : List ℕ → ℕ → ℕ
bisect_left [] v = 0
bisect_left (b ∷ bs) v = let later = bisect_left bs v in if ltb b v then suc later else 0

-- `counts[index] += 1`
unfoldable pub increment : ℕ → List ℕ → List ℕ
increment i [] = []
increment zero (c ∷ cs) = suc c ∷ cs
increment (suc i) (c ∷ cs) = c ∷ increment i cs

abbrev pub extreme : (ℕ → ℕ → ℕ) → ℕ → Option ℕ → Option ℕ
extreme pick v none = some v
extreme pick v (some w) = some (pick w v)

unfoldable pub observe : Histogram → ℕ → Histogram
unfolding bisect_left increment
observe h v = record h {
  bucket_counts = increment (bisect_left h.bucket_bounds v) h.bucket_counts;
  count = h.count + 1;
  total = h.total + v;
  minimum = extreme min v h.minimum;
  maximum = extreme max v h.maximum;
}

-- `total / count`, rounded down
unfoldable pub mean : Histogram → Option ℕ
mean h = elim h.count [ zero ↦ none | suc n ↦ some (h.total / h.count) ]

unfoldable pub running : ℕ → List ℕ → List ℕ
running sum [] = []
running sum (c ∷ cs) = (sum + c) ∷ running (sum + c) cs

-- the counts, without their labels: one for each bound and one for `+Inf`
unfoldable pub cumulative_counts : Histogram → List ℕ
unfolding running
cumulative_counts h = running 0 h.bucket_counts
