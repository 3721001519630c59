-- ===== src/Prelude/IntSet.antt =====
-- `std::set<int>` as its elements in increasing order.
use cluster_chat_server_soft.Prelude.{
  ◌≡◌, refl, Bool, false, not, ◌||◌, ◌&&◌, List, [], ◌∷◌, arith, if◌then◌else◌,
}
use cluster_chat_server_soft.Prelude.Int.{ℤ, eq_ℤ, ltb_ℤ, eq_ℤ_iff}

unfoldable pub contains : List ℤ → ℤ → Bool
contains [] a = false
contains (x ∷ xs) a = eq_ℤ x a || contains xs a

unfoldable pub insert : ℤ → List ℤ → List ℤ
insert a [] = a ∷ []
insert a (x ∷ xs) = if ltb_ℤ a x then a ∷ x ∷ xs else if eq_ℤ x a then x ∷ xs else x ∷ insert a xs

unfoldable pub erase : ℤ → List ℤ → List ℤ
erase a [] = []
erase a (x ∷ xs) = if eq_ℤ x a then erase a xs else x ∷ erase a xs

pub contains-insert :
    (a b : ℤ) (xs : List ℤ) → contains (insert a xs) b ≡ (eq_ℤ a b || contains xs b)
unfolding contains insert
contains-insert a b [] = refl
contains-insert a b (x ∷ xs) =
    ground (arith, contains-insert a b xs, eq_ℤ_iff x a, eq_ℤ_iff x b, eq_ℤ_iff a b)

pub contains-erase :
    (a b : ℤ) (xs : List ℤ) → contains (erase a xs) b ≡ (not (eq_ℤ a b) && contains xs b)
unfolding contains erase
contains-erase a b [] = ground arith
contains-erase a b (x ∷ xs) =
    ground (arith, contains-erase a b xs, eq_ℤ_iff x a, eq_ℤ_iff x b, eq_ℤ_iff a b)
