-- ===== src/Sql/Chars.antt =====
-- Texts as lists of ASCII codes, and the character classes of Python's `re` and `str` on them.
use Prim.Native.Char.{code}
use salesdata_api.Base.{
  ℕ, ◌-◌, ◌+◌, String, List, [], ◌∷◌, map, Bool, true, false, ◌&&◌, ◌||◌, leb, ◌==◌, if◌then◌else◌,
}

-- the codes of a literal of the source
abbrev pub codes : String → List ℕ
codes String.[] = []
codes (String.◌∷◌ letter rest) = code letter ∷ codes rest

-- equality of texts
unfoldable pub text_eq : List ℕ → List ℕ → Bool
text_eq [] [] = true
text_eq [] (d ∷ t) = false
text_eq (c ∷ s) [] = false
text_eq (c ∷ s) (d ∷ t) = c == d && text_eq s t

unfoldable pub is_upper : ℕ → Bool
is_upper c = leb 65 c && leb c 90

unfoldable pub is_lower : ℕ → Bool
is_lower c = leb 97 c && leb c 122

-- `[A-Za-z]`
unfoldable pub is_letter : ℕ → Bool
unfolding is_upper is_lower
is_letter c = is_upper c || is_lower c

-- `\d`
unfoldable pub is_digit : ℕ → Bool
is_digit c = leb 48 c && leb c 57

-- `[A-Za-z_]`
unfoldable pub is_ident_start : ℕ → Bool
unfolding is_letter
is_ident_start c = is_letter c || c == 95

-- `[A-Za-z0-9_]`, which is `\w`
unfoldable pub is_word : ℕ → Bool
unfolding is_ident_start is_digit
is_word c = is_ident_start c || is_digit c

-- `\s`, and what `str.strip` takes off
unfoldable pub is_space : ℕ → Bool
is_space c = (leb 9 c && leb c 13) || (leb 28 c && leb c 32)

-- `str.upper` and `str.lower`, of a character
unfoldable pub to_upper : ℕ → ℕ
unfolding is_lower
to_upper c = if is_lower c then c - 32 else c

unfoldable pub to_lower : ℕ → ℕ
unfolding is_upper
to_lower c = if is_upper c then c + 32 else c

abbrev pub upper : List ℕ → List ℕ
upper = map to_upper

abbrev pub lower : List ℕ → List ℕ
lower = map to_lower
