-- ===== src/Sql/Policy.antt =====
-- core/db/sql_policy.py: the classification of a statement, the tables that it names, and the test
-- of a scope. Of `extract_tables` the list holds what the source's set holds, with repetitions.
pub mod Writes
pub mod Tables
pub mod Extracted
pub mod Scanned
pub mod Scopes
use salesdata_api.Base.{
  ℕ, zero, suc, String, List, [], ◌∷◌, ◌++◌, Option, none, some, Bool, true, false, ◌&&◌, ◌||◌, not,
  ◌==◌, length, if◌then◌else◌, map,
}
use salesdata_api.Sql.Chars.{
  codes, text_eq, is_letter, is_digit, is_ident_start, is_word, is_space, upper, lower,
}
use salesdata_api.Sql.Regex.{
  Regex, set, eps, seq, alt, star, lazy, bound, Place, ends, plus, opt, char, word, any_of, search?,
}

pub data Operation : Type 0 where
  read write : Operation

pub data Cost : Type 0 where
  fast normal expensive : Cost

abbrev pub space : Regex
space = set is_space

-- `\s*(--[^\n]*\n|/\*.*?\*/\s*)*`, which `^` holds to the start of the text
abbrev pub leading_comment : Regex
leading_comment = seq (star space) (
    star (
      alt (seq (char 45) (seq (char 45) (seq (star (set (λ c. not (c == 10)))) (char 10)))) (
        seq (char 47) (
          seq (char 42)
            (seq (lazy (set (λ c. true))) (seq (char 42) (seq (char 47) (star space))))))))

abbrev pub words : List String → Regex
words ws = any_of (map (λ w. word (codes w)) ws)

abbrev pub write_words : List String
write_words =
    "INSERT" ∷ "UPDATE" ∷ "DELETE" ∷ "MERGE" ∷ "REPLACE" ∷ "DROP" ∷ "ALTER" ∷ "CREATE" ∷ "TRUNCATE"
    ∷ "GRANT" ∷ "REVOKE" ∷ []

abbrev pub write_keywords : Regex
write_keywords = seq bound (seq (words write_words) bound)

-- `_TABLE_REF_RE` before its group
abbrev pub table_prefix : Regex
table_prefix = seq bound (
    seq (words ("FROM" ∷ "JOIN" ∷ "INTO" ∷ "UPDATE" ∷ "TABLE" ∷ []))
      (seq (plus space) (opt (set (λ c. c == 96 || (c == 34 || c == 91))))))

abbrev pub two_words : String → String → Regex
two_words a b = seq (word (codes a)) (seq (plus space) (word (codes b)))

abbrev pub normal_markers : Regex
normal_markers = seq bound (
    seq
      (any_of (
        word (codes "JOIN")
        ∷ two_words "GROUP" "BY"
        ∷ two_words "ORDER" "BY"
        ∷ word (codes "HAVING")
        ∷ word (codes "DISTINCT")
        ∷ word (codes "UNION")
        ∷ []))
      bound)

abbrev pub expensive_markers : Regex
expensive_markers = seq bound (
    seq
      (any_of (
        two_words "CROSS" "JOIN"
        ∷ two_words "GROUP" "BY"
        ∷ word (codes "WINDOW")
        ∷ seq (word (codes "OVER")) (seq (star space) (char 40))
        ∷ word (codes "RECURSIVE")
        ∷ []))
      bound)

abbrev pub has_limit : Regex
has_limit =
    seq bound (seq (word (codes "LIMIT")) (seq (plus space) (seq (plus (set is_digit)) bound)))

abbrev pub select_star : Regex
select_star = seq (word (codes "SELECT")) (seq (plus space) (char 42))

-- the longest run of characters of a class, and what follows it
abbrev pub take_while : (ℕ → Bool) → List ℕ → List ℕ
take_while f [] = []
take_while f (c ∷ s) = let more = take_while f s in if f c then c ∷ more else []

unfoldable pub after_while : (ℕ → Bool) → Option ℕ → List ℕ → Place
after_while f b [] = record { before = b; rest = [] }
after_while f b (c ∷ s) =
    let more = after_while f (some c) s in if f c then more else record { before = b; rest = c ∷ s }

abbrev pub start : List ℕ → Place
start s = record { before = none; rest = s }

-- `_LEADING_COMMENT_RE.sub("", sql)`
unfoldable pub strip_leading : List ℕ → List ℕ
unfolding ends
strip_leading s = elim (ends leading_comment (start s)) [ [] ↦ s | p ∷ ps ↦ p.rest ]

-- the group of `^\s*([A-Za-z]+)`, tried at each end of the white space; empty if there is none
unfoldable pub first_word : List Place → List ℕ
first_word [] = []
first_word (p ∷ ps) =
    let later = first_word ps in elim (take_while is_letter p.rest) [ [] ↦ later | c ∷ w ↦ c ∷ w ]

unfoldable pub first_keyword : List ℕ → List ℕ
unfolding strip_leading first_word ends
first_keyword sql = upper (first_word (ends (star space) (start (strip_leading sql))))

unfoldable pub classify_operation : List ℕ → Operation
unfolding first_keyword search?
classify_operation sql =
    let keyword = first_keyword sql in
    if not (text_eq keyword (codes "SELECT") || text_eq keyword (codes "WITH"))
    then write
    else if text_eq keyword (codes "WITH") && search? write_keywords sql
    then write
    else read

-- the group of `_TABLE_REF_RE` for a prefix that ends at one of the places, and where it ends
unfoldable pub name_at : List Place → Option (List ℕ × Place)
unfolding is_ident_start after_while
name_at [] = none
name_at (p ∷ ps) =
    let later = name_at ps in
    elim p.rest [
      | [] ↦ later
      | c ∷ s ↦
          if is_ident_start c
          then some (c ∷ take_while is_word s, after_while is_word (some c) s)
          else later
    ]

-- `finditer`: on from the end of a match, or from the next character
unfoldable pub tables_from : ℕ → Place → List (List ℕ)
unfolding ends name_at
tables_from zero p = []
tables_from (suc n) p = elim (name_at (ends table_prefix p)) [
  | some (name, q) ↦ name ∷ tables_from n q
  | none ↦ elim p.rest [ [] ↦ [] | c ∷ s ↦ tables_from n (record { before = some c; rest = s }) ]
]

unfoldable pub extract_tables : List ℕ → List (List ℕ)
unfolding tables_from
extract_tables sql = tables_from (suc (length sql)) (start sql)

abbrev pub all_of : (ℕ → Bool) → List ℕ → Bool
all_of f [] = true
all_of f (c ∷ s) = f c && all_of f s

unfoldable pub classify_cost : List ℕ → Cost
unfolding search?
classify_cost sql =
    if all_of is_space sql
    then fast
    else if search? expensive_markers sql
    then expensive
    else let is_normal = search? normal_markers sql in
      let unbounded_wide_scan = search? select_star sql && not (search? has_limit sql) in
      if is_normal && unbounded_wide_scan
      then expensive
      else if is_normal || unbounded_wide_scan
      then normal
      else fast

-- `s.split(",")`
unfoldable pub split_commas : List ℕ → List (List ℕ)
split_commas [] = [] ∷ []
split_commas (c ∷ s) =
    let rest = split_commas s in
    elim rest [ [] ↦ (c ∷ []) ∷ [] | w ∷ ws ↦ if c == 44 then [] ∷ w ∷ ws else (c ∷ w) ∷ ws ]

-- `s.strip()`
abbrev pub lstrip : List ℕ → List ℕ
lstrip [] = []
lstrip (c ∷ s) = if is_space c then lstrip s else c ∷ s

abbrev pub rstrip : List ℕ → List ℕ
rstrip [] = []
rstrip (c ∷ s) =
    let rest = rstrip s in elim rest [ [] ↦ if is_space c then [] else c ∷ [] | d ∷ t ↦ c ∷ d ∷ t ]

abbrev pub strip : List ℕ → List ℕ
strip s = rstrip (lstrip s)

-- the set of `has_scope`, its empty members left out
unfoldable pub granted : List (List ℕ) → List (List ℕ)
granted [] = []
granted (w ∷ ws) =
    let rest = granted ws in elim (strip w) [ [] ↦ rest | c ∷ s ↦ lower (c ∷ s) ∷ rest ]

unfoldable pub member : List ℕ → List (List ℕ) → Bool
unfolding text_eq
member w [] = false
member w (v ∷ vs) = text_eq v w || member w vs

abbrev pub or_read : List (List ℕ) → List (List ℕ)
or_read [] = codes "read" ∷ []
or_read (w ∷ ws) = w ∷ ws

-- `scopes or ""`: `None` and the empty text alike
unfoldable pub has_scope : Option (List ℕ) → List ℕ → Bool
unfolding granted split_commas member
has_scope none required = member (lower required) (or_read (granted (split_commas [])))
has_scope (some scopes) required = member (lower required) (or_read (granted (split_commas scopes)))
