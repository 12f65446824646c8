-- ===== src/Tests/Policy.antt =====
-- Runs of the classification of core/db/sql_policy.py.
use mathlib.Core.List.{flat_map}
use salesdata_api.Base.{◌≡◌, refl, [], ◌∷◌, ◌++◌, true, none, some, ◌↔◌, ◌⊎◌, inl, inr, List, ℕ}
use salesdata_api.Sql.Chars.{
  codes, text_eq, is_letter, is_digit, is_ident_start, is_word, is_space, is_upper, to_upper,
  to_lower,
}
use salesdata_api.Sql.Regex.{search?, ends, search_from, Place}
use salesdata_api.Sql.Regex.Search.{last, at}
use salesdata_api.Sql.Regex.Words.{HasWord}
use salesdata_api.Sql.Policy.{
  read, write, fast, normal, classify_operation, classify_cost, extract_tables, has_scope,
  first_keyword, write_words,
}
use salesdata_api.Sql.Policy.Writes.{classify-read_iff}
use salesdata_api.Sql.Policy.Tables.{TableAt}
use salesdata_api.Sql.Policy.Extracted.{extract_tables_sound}
use salesdata_api.Sql.Policy.Scopes.{has_scope_lem, Piece}

program : Unit {0}
unfolding flat_map text_eq is_letter is_digit is_ident_start is_word is_space to_upper to_lower
    search? ends search_from classify_operation classify_cost extract_tables has_scope first_keyword
program = tt

plain_select : classify_operation (codes "  select 1") ≡ read
unfolding program
plain_select = refl

commented_delete : classify_operation (codes "/* a */ -- b\n delete from t") ≡ write
unfolding program
commented_delete = refl

writable_cte : classify_operation (codes "WITH x AS (SELECT 1) DELETE FROM t") ≡ write
unfolding program
writable_cte = refl

two_statements : classify_operation (codes "SELECT 1; DROP TABLE t") ≡ read
unfolding program
two_statements = refl

tables_of_join :
    extract_tables (codes "select * from a join \"b\" on 1") ≡ codes "a" ∷ codes "b" ∷ []
unfolding program
tables_of_join = refl

write_granted : has_scope (some (codes "read, Write ")) (codes "write") ≡ true
unfolding program
write_granted = refl

wide_scan : classify_cost (codes "select * from t") ≡ normal
unfolding program
wide_scan = refl

empty_window : classify_cost (codes "select sum(x) over () from t") ≡ fast
unfolding program
empty_window = refl

classify-read_iff_example : (classify_operation (codes "with x as (select 1) select 2") ≡ read) ↔ (
    (first_keyword (codes "with x as (select 1) select 2") ≡ codes "SELECT")
    ⊎ ((first_keyword (codes "with x as (select 1) select 2") ≡ codes "WITH")
        × ¬ HasWord write_words (codes "with x as (select 1) select 2")))
classify-read_iff_example = classify-read_iff (codes "with x as (select 1) select 2")

extract_tables_sound_example :
    (skipped : List ℕ) × (rest : List ℕ) × (q : Place) × (codes "update \"b\" set c = 1"
      ≡ skipped ++ rest)
    × TableAt (at (last none skipped) rest) (codes "b") q
unfolding program
extract_tables_sound_example =
    extract_tables_sound (codes "update \"b\" set c = 1") (codes "b") (inl refl)

abbrev first_piece : Piece
first_piece = record { before = []; name = codes "read"; after = codes " " }

abbrev second_piece : Piece
second_piece = record { before = codes " "; name = codes "WRITE"; after = [] }

has_scope_lem_example : has_scope (some (codes "read , WRITE")) (codes "Write") ≡ true
unfolding program is_upper is_space to_lower
has_scope_lem_example =
    (has_scope_lem first_piece (second_piece ∷ []) (codes "Write") (
      record { before = refl; after = refl; starts = refl; stops = refl; no_comma = refl },
      (record { before = refl; after = refl; starts = refl; stops = refl; no_comma = refl }, tt),
    )).0.1
      (inl (inr (inl (λ e. absurd (cc), refl))))
