-- ===== src/Query/Coordinator/Index.antt =====
-- The index from tables to the keys tagged with them: what tagging adds and what a pop removes.
use salesdata_api.Base.{
  ◌≡◌, refl, String, List, [], ◌∷◌, ◌++◌, true, false, ◌||◌, ◌&&◌, str_eq, ℕ, arith, if◌then◌else◌,
}
use salesdata_api.Sql.Chars.{text_eq}
use salesdata_api.Sql.Policy.{member}
use salesdata_api.Sql.Policy.Writes.{text_eq_iff, text_eq_refl}
use salesdata_api.Query.Coordinator.{
  Index, has_key, add_key, add_all, keys_of, drop_table, pop_tables,
}

pub has_key-append :
    (k : String) (xs ys : List String) → has_key k (xs ++ ys) ≡ has_key k xs || has_key k ys
unfolding has_key
has_key-append k [] ys = refl
has_key-append k (x ∷ xs) ys = ground (arith, has_key-append k xs ys)

keys_of-add_key :
    (u t : List ℕ) (j k : String) (m : Index)
    → has_key j (keys_of u (add_key t k m)) ≡ (text_eq t u && str_eq k j) || has_key j (keys_of u m)
unfolding has_key keys_of add_key
keys_of-add_key u t j k [] = ground arith
keys_of-add_key u t j k ((v, ks) ∷ m) =
    ground (arith, text_eq_iff v t, text_eq_iff v u, text_eq_iff t u, keys_of-add_key u t j k m)

-- tagging adds the key to the tables given, and changes nothing else
pub keys_of-add_all :
    (u : List ℕ) (j k : String) (ts : List (List ℕ)) (m : Index)
    → has_key j (keys_of u (add_all ts k m))
      ≡ (member u ts && str_eq k j) || has_key j (keys_of u m)
unfolding add_all member
keys_of-add_all u j k [] m = refl
keys_of-add_all u j k (t ∷ ts) m =
    ground (arith, keys_of-add_all u j k ts (add_key t k m), keys_of-add_key u t j k m)

pub keys_of-drop_table :
    (u t : List ℕ) (m : Index)
    → keys_of u (drop_table t m) ≡ (if text_eq t u then [] else keys_of u m)
unfolding keys_of drop_table
keys_of-drop_table u t [] = ground arith
keys_of-drop_table u t ((v, ks) ∷ m) =
    ground (arith, text_eq_iff v t, text_eq_iff v u, text_eq_iff t u, keys_of-drop_table u t m)

-- a key that one of the tables has is popped
pub popped :
    (u : List ℕ) (j : String) (ts : List (List ℕ)) (m : Index)
    → member u ts ≡ true
    → has_key j (keys_of u m) ≡ true
    → has_key j (pop_tables ts m).0 ≡ true
unfolding pop_tables member has_key
popped u j [] m among has = absurd (cc)
popped u j (t ∷ ts) m among has = ground (
  arith,
  text_eq_iff t u,
  keys_of-drop_table u t m,
  popped u j ts (drop_table t m),
  has_key-append j (keys_of t m) (pop_tables ts (drop_table t m)).0,
)

-- a key that none of the tables has is not
pub not_popped :
    (j : String) (ts : List (List ℕ)) (m : Index)
    → ((u : List ℕ) → member u ts ≡ true → has_key j (keys_of u m) ≡ false)
    → has_key j (pop_tables ts m).0 ≡ false
unfolding pop_tables has_key member
not_popped j [] m none_has = refl
not_popped j (t ∷ ts) m none_has =
    let here = none_has t (rw (text_eq_refl t)) in
    let later = not_popped j ts (drop_table t m) (λ u among. left_out u among) in
    ground (arith, here, later, has_key-append j (keys_of t m) (pop_tables ts (drop_table t m)).0)
  where
    left_out : (u : List ℕ) → member u ts ≡ true → has_key j (keys_of u (drop_table t m)) ≡ false
    left_out u among = ground (arith, keys_of-drop_table u t m, none_has u (ground arith))
