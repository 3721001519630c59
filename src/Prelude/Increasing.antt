-- ===== src/Prelude/Increasing.antt =====
-- The order of a `std::set<int>`: an insertion and an erasure keep the elements strictly increasing.
use cluster_chat_server_soft.Prelude.{◌≡◌, true, List, [], ◌∷◌, All, Bool-cases, inl, inr}
use cluster_chat_server_soft.Prelude.Int.{ℤ, eq_ℤ, ltb_ℤ, ltb_ℤ_trans, ltb_ℤ_total}
use cluster_chat_server_soft.Prelude.IntSet.{insert, erase}

-- `a` is below each element.
abbrev pub IsBelow : ℤ → List ℤ → Type 0
IsBelow a = All (λ x. ltb_ℤ a x ≡ true)

abbrev pub IsIncreasing : List ℤ → Type 0
IsIncreasing [] = Unit
IsIncreasing (x ∷ xs) = IsBelow x xs × IsIncreasing xs

IsBelow-trans : (a b : ℤ) (xs : List ℤ) → ltb_ℤ a b ≡ true → IsBelow b xs → IsBelow a xs
IsBelow-trans a b [] h below = tt
IsBelow-trans a b (x ∷ xs) h below = (ltb_ℤ_trans a b x h below.0, IsBelow-trans a b xs h below.1)

insert-IsBelow : (a b : ℤ) (xs : List ℤ) → ltb_ℤ b a ≡ true → IsBelow b xs → IsBelow b (insert a xs)
unfolding insert
insert-IsBelow a b [] h below = (h, tt)
insert-IsBelow a b (x ∷ xs) h below = elim (Bool-cases (ltb_ℤ a x)) [
  | inl less ↦ rw (less, All) (h, below)
  | inr more ↦ elim (Bool-cases (eq_ℤ x a)) [
    | inl same ↦ rw (more, same) below
    | inr differs ↦ rw (more, differs, All) (below.0, insert-IsBelow a b xs h below.1)
  ]
]

erase-IsBelow : (a b : ℤ) (xs : List ℤ) → IsBelow b xs → IsBelow b (erase a xs)
unfolding erase
erase-IsBelow a b [] below = tt
erase-IsBelow a b (x ∷ xs) below = elim (Bool-cases (eq_ℤ x a)) [
  | inl same ↦ rw same (erase-IsBelow a b xs below.1)
  | inr differs ↦ rw (differs, All) (below.0, erase-IsBelow a b xs below.1)
]

pub insert-IsIncreasing : (a : ℤ) (xs : List ℤ) → IsIncreasing xs → IsIncreasing (insert a xs)
unfolding insert
insert-IsIncreasing a [] h = (tt, tt)
insert-IsIncreasing a (x ∷ xs) h = elim (Bool-cases (ltb_ℤ a x)) [
  | inl less ↦ rw (less, IsIncreasing, All) ((less, IsBelow-trans a x xs less h.0), h)
  | inr more ↦ elim (Bool-cases (eq_ℤ x a)) [
    | inl same ↦ rw (more, same) h
    | inr differs ↦
        rw (more, differs, IsIncreasing)
          (insert-IsBelow a x xs (ltb_ℤ_total a x more differs) h.0, insert-IsIncreasing a xs h.1)
  ]
]

pub erase-IsIncreasing : (a : ℤ) (xs : List ℤ) → IsIncreasing xs → IsIncreasing (erase a xs)
unfolding erase
erase-IsIncreasing a [] h = tt
erase-IsIncreasing a (x ∷ xs) h = elim (Bool-cases (eq_ℤ x a)) [
  | inl same ↦ rw same (erase-IsIncreasing a xs h.1)
  | inr differs ↦ rw (differs, IsIncreasing) (erase-IsBelow a x xs h.0, erase-IsIncreasing a xs h.1)
]
