-- ===== src/Query/Limits/Prefix.antt =====
-- What the limits leave of a result.
use salesdata_api.Base.{
  ℕ, zero, suc, ◌+◌, ◌≤◌, ◌<◌, ◌≡◌, refl, List, [], ◌∷◌, ◌++◌, Bool, true, false, ltb, leb, length,
  take, arith, Bool-cases, inl, inr, ap, length-take, length-append, ◌⊎◌, append_assoc, ◌∙◌,
}
use salesdata_api.Query.Limits.{Limits, fill, apply_result_limits}

module _ {ℓ} {Row : Type ℓ} (row_bytes : Row → ℕ) where
  -- the bytes of some rows
  unfoldable pub bytes : List Row → ℕ
  bytes [] = 0
  bytes (row ∷ rows) = row_bytes row + bytes rows

  -- what was kept is a first part of the rows within the bytes; what was dropped is nothing, or
  -- begins with a row that did not fit
  abbrev Filled : ℕ → ℕ → List Row → List Row × Bool → Type ℓ
  Filled max total rows r =
      (dropped : List Row) × (rows ≡ r.0 ++ dropped)
      × (total + bytes r.0 ≤ max)
      × ((r.1 ≡ false) × (dropped ≡ [])
          ⊎ ((row : Row) × (rest : List Row) × (r.1 ≡ true)
              × (dropped ≡ row ∷ rest)
              × (max < total + bytes r.0 + row_bytes row)))

  Filled-cons :
      (max total : ℕ) (row : Row) (rows : List Row) (r : List Row × Bool)
      → Filled max (total + row_bytes row) rows r
      → Filled max total (row ∷ rows) (row ∷ r.0, r.1)
  unfolding bytes
  Filled-cons max total row rows r (dropped, e, le, inl done) =
      (dropped, ap (◌∷◌ row) e, omega arith, inl done)
  Filled-cons max total row rows r (dropped, e, le, inr (next, rest, cut, first, over)) =
      (dropped, ap (◌∷◌ row) e, omega arith, inr (next, rest, cut, first, omega arith))

  fill-Filled :
      (max total : ℕ) (rows : List Row)
      → total ≤ max
      → Filled max total rows (fill row_bytes max total rows)
  unfolding fill bytes
  fill-Filled max total [] le = ([], refl, omega arith, inl (refl, refl))
  fill-Filled max total (row ∷ rows) le = elim (Bool-cases (ltb max (total + row_bytes row))) [
    | inl over ↦ rw over (row ∷ rows, refl, omega arith, inr (row, rows, refl, refl, ground arith))
    | inr fits ↦ rw fits (
        Filled-cons max total row rows (fill row_bytes max (total + row_bytes row) rows)
          (fill-Filled max (total + row_bytes row) rows (ground arith)))
  ]

  length-prefix : (xs ys : List Row) → length xs ≤ length (xs ++ ys)
  length-prefix xs ys = omega (arith, length-append xs ys)

  take-drop : (n : ℕ) (rows : List Row) → (rest : List Row) × (rows ≡ take n rows ++ rest)
  take-drop zero rows = (rows, refl)
  take-drop (suc n) [] = ([], refl)
  take-drop (suc n) (row ∷ rows) = let (rest, e) = take-drop n rows in (rest, ap (◌∷◌ row) e)

  -- A result is answered by its first rows, at most as many as the limit and with at most as many
  -- bytes; and a result that is not reported as truncated is answered whole.
  pub apply_result_limits_lem :
      (limits : Limits) (rows : List Row)
      → (dropped : List Row) × (rows ≡ (apply_result_limits row_bytes limits rows).0 ++ dropped)
        × (length (apply_result_limits row_bytes limits rows).0 ≤ limits.max_result_rows)
        × (bytes (apply_result_limits row_bytes limits rows).0 ≤ limits.max_result_bytes)
        × ((apply_result_limits row_bytes limits rows).1 ≡ false → dropped ≡ [])
  unfolding apply_result_limits
  apply_result_limits_lem limits rows =
      elim (Bool-cases (leb (length rows) limits.max_result_rows)) [
        | inl few ↦
            let (dropped, e, le, why) = fill-Filled limits.max_result_bytes 0 rows (omega arith) in
            let kept = (fill row_bytes limits.max_result_bytes 0 rows).0 in
            rw few (
              dropped,
              e,
              ground (arith, ap length e, length-prefix kept dropped),
              omega (arith, le),
              λ whole. elim why [ inl done ↦ done.1 | inr cut ↦ cc (cut.2) ],
            )
        | inr many ↦
            let first = take limits.max_result_rows rows in
            let (dropped, e, le, why) = fill-Filled limits.max_result_bytes 0 first (omega arith) in
            let (rest, split) = take-drop limits.max_result_rows rows in
            let kept = (fill row_bytes limits.max_result_bytes 0 first).0 in
            rw many (
              dropped ++ rest,
              split ∙ ap (λ (x : List Row). x ++ rest) e ∙ append_assoc kept dropped rest,
              omega (
                arith,
                ap length e,
                length-prefix kept dropped,
                length-take limits.max_result_rows rows,
              ),
              omega (arith, le),
              λ whole. cc,
            )
      ]
