-- ===== src/Sql/Regex/Places.antt =====
-- Stretches of the text that a match goes over.
use salesdata_api.Base.{
  ◌≡◌, refl, inl, inr, ℕ, List, [], ◌∷◌, ◌++◌, ap, Option, some, sym, ◌∙◌, append_assoc,
}
use salesdata_api.Sql.Regex.{Regex, set, eps, seq, alt, star, lazy, bound, Place}
use salesdata_api.Sql.Regex.Loops.{Star, done, more}
use salesdata_api.Sql.Regex.Matches.{Matches}
use salesdata_api.Sql.Regex.Search.{last}

-- A place that is reached by going over some of the text.
unfoldable pub Reached : Place → Place → Type 0
Reached p q = (w : List ℕ) × (p.rest ≡ w ++ q.rest) × (q.before ≡ last p.before w)

last-append : (b : Option ℕ) (v w : List ℕ) → last b (v ++ w) ≡ last (last b v) w
last-append b [] w = refl
last-append b (c ∷ v) w = last-append (some c) v w

Reached-same : (p q : Place) → p ≡ q → Reached p q
unfolding Reached
Reached-same p q e = ([], ap (λ (x : Place). x.rest) e, ap (λ (x : Place). x.before) (sym e))

pub Reached-trans : (p q r : Place) → Reached p q → Reached q r → Reached p r
unfolding Reached
Reached-trans p q r (v, e, l) (w, e', l') = (
  v ++ w,
  e ∙ ap (◌++◌ v) e' ∙ sym (append_assoc v w r.rest),
  l' ∙ ap (λ (x : Option ℕ). last x w) l ∙ sym (last-append p.before v w),
)

Star-Reached :
    (R : Place → Place → Type 0)
    → ((p q : Place) → R p q → Reached p q)
    → {p q : Place} → Star R p q
    → Reached p q
Star-Reached R reach {p} {q} (done e) = Reached-same p q e
Star-Reached R reach {p} {q} (more m r s) =
    Reached-trans p m q (reach p m r) (Star-Reached R reach s)

pub Matches-Reached : (r : Regex) (p q : Place) → Matches r p q → Reached p q
unfolding Reached
Matches-Reached (set f) p q (c, e, fits, b) = (c ∷ [], e, b)
Matches-Reached eps p q e = Reached-same p q e
Matches-Reached (seq r s) p q (m, h, k) =
    Reached-trans p m q (Matches-Reached r p m h) (Matches-Reached s m q k)
Matches-Reached (alt r s) p q (inl h) = Matches-Reached r p q h
Matches-Reached (alt r s) p q (inr h) = Matches-Reached s p q h
Matches-Reached (star r) p q h = Star-Reached (Matches r) (Matches-Reached r) h
Matches-Reached (lazy r) p q h = Star-Reached (Matches r) (Matches-Reached r) h
Matches-Reached bound p q (at, e) = Reached-same p q e
