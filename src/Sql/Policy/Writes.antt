-- ===== src/Sql/Policy/Writes.antt =====
-- Which statements `classify_operation` takes for reads.
use salesdata_api.Base.{
  ◌≡◌, refl, ◌⊎◌, inl, inr, ◌↔◌, ℕ, List, [], ◌∷◌, Bool, true, false, ◌&&◌, ◌||◌, not, Bool-cases,
  arith, if◌then◌else◌, sym, ◌∙◌, false≢true,
}
use salesdata_api.Sql.Chars.{codes, text_eq, is_upper}
use salesdata_api.Sql.Regex.{search?}
use salesdata_api.Sql.Regex.Words.{HasWord, search-iff-HasWord}
use salesdata_api.Sql.Policy.{
  Operation, read, write, classify_operation, first_keyword, write_words, write_keywords,
}

pub text_eq_sound : (s t : List ℕ) → text_eq s t ≡ true → s ≡ t
unfolding text_eq
text_eq_sound [] [] h = refl
text_eq_sound [] (d ∷ t) h = absurd (cc)
text_eq_sound (c ∷ s) [] h = absurd (cc)
text_eq_sound (c ∷ s) (d ∷ t) h = ground (arith, text_eq_sound s t)

pub text_eq_refl : (s : List ℕ) → text_eq s s ≡ true
unfolding text_eq
text_eq_refl [] = refl
text_eq_refl (c ∷ s) = ground (arith, text_eq_refl s)

pub text_eq_iff : (s t : List ℕ) → (text_eq s t ≡ true) ↔ (s ≡ t)
text_eq_iff s t = (text_eq_sound s t, λ e. rw e (text_eq_refl t))

writes_in : (sql : List ℕ) → (search? write_keywords sql ≡ true) ↔ HasWord write_words sql
writes_in sql = search-iff-HasWord write_words (unfold is_upper in refl) sql

abbrev classified : Bool → Bool → Bool → Operation
classified select with_ found =
    if not (select || with_) then write else if with_ && found then write else read

read_cases : (a b c : Bool) → classified a b c ≡ read → (a ≡ true) ⊎ ((b ≡ true) × (c ≡ false))
read_cases a b c h = ground arith

select_not_with :
    (k : List ℕ) → text_eq k (codes "SELECT") ≡ true → text_eq k (codes "WITH") ≡ false
select_not_with k h = rw (text_eq_sound k (codes "SELECT") h) (unfold text_eq in refl)

classified_select : (c : Bool) → classified true false c ≡ read
classified_select c = refl

-- A statement is a read exactly if its first keyword is SELECT, or it is WITH and none of the
-- keywords that write stands in it as a whole word. A text with no first keyword is a write.
pub classify-read_iff :
    (sql : List ℕ)
    → (classify_operation sql ≡ read) ↔ (
        (first_keyword sql ≡ codes "SELECT")
        ⊎ ((first_keyword sql ≡ codes "WITH") × ¬ HasWord write_words sql))
unfolding classify_operation
classify-read_iff sql = (reads, back)
  where
    select : Bool
    select = text_eq (first_keyword sql) (codes "SELECT")

    with_ : Bool
    with_ = text_eq (first_keyword sql) (codes "WITH")

    reads :
        classified select with_ (search? write_keywords sql) ≡ read
        → (first_keyword sql ≡ codes "SELECT")
          ⊎ ((first_keyword sql ≡ codes "WITH") × ¬ HasWord write_words sql)
    reads h = elim (read_cases select with_ (search? write_keywords sql) h) [
      | inl s ↦ inl (text_eq_sound (first_keyword sql) (codes "SELECT") s)
      | inr w ↦ inr (
        text_eq_sound (first_keyword sql) (codes "WITH") w.0,
        λ has. absurd (false≢true (sym w.1 ∙ (writes_in sql).1 has)),
      )
    ]

    back :
        (first_keyword sql ≡ codes "SELECT")
          ⊎ ((first_keyword sql ≡ codes "WITH") × ¬ HasWord write_words sql)
        → classified select with_ (search? write_keywords sql) ≡ read
    back (inl e) =
        let s : select ≡ true = (text_eq_iff (first_keyword sql) (codes "SELECT")).1 e in
        let w : with_ ≡ false = select_not_with (first_keyword sql) s in rw (s, w)
    back (inr (e, clean)) = elim (Bool-cases (search? write_keywords sql)) [
      | inl found ↦ absurd (clean ((writes_in sql).0 found))
      | inr none_found ↦
          let w : with_ ≡ true = (text_eq_iff (first_keyword sql) (codes "WITH")).1 e in
          ground arith
    ]
