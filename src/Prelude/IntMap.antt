-- ===== src/Prelude/IntMap.antt =====
-- `std::unordered_map<int, V>` as the list of its entries. The order of iteration is unspecified in
-- C++: no theorem depends on where a new entry goes.
use cluster_chat_server_soft.Prelude.{
  ◌≡◌, refl, ◌∙◌, Option, none, some, false, List, [], ◌∷◌, inl, inr, Bool-cases, arith,
  if◌then◌else◌,
}
use cluster_chat_server_soft.Prelude.Int.{ℤ, eq_ℤ, eq_ℤ_iff}

module _ {ℓ} {V : Type ℓ} where
  unfoldable pub lookup : ℤ → List (ℤ × V) → Option V
  lookup k [] = none
  lookup k ((j, v) ∷ m) = if eq_ℤ j k then some v else lookup k m

  -- `m.insert({k, v})`: an entry that is there stays.
  unfoldable pub insert_new : ℤ → V → List (ℤ × V) → List (ℤ × V)
  insert_new k v [] = (k, v) ∷ []
  insert_new k v ((j, w) ∷ m) = if eq_ℤ j k then (j, w) ∷ m else (j, w) ∷ insert_new k v m

  -- `f(m[k])`, where `m[k]` is `d` if there is none.
  unfoldable pub update : ℤ → V → (V → V) → List (ℤ × V) → List (ℤ × V)
  update k d f [] = (k, f d) ∷ []
  update k d f ((j, w) ∷ m) = if eq_ℤ j k then (j, f w) ∷ m else (j, w) ∷ update k d f m

  unfoldable pub erase : ℤ → List (ℤ × V) → List (ℤ × V)
  erase k [] = []
  erase k ((j, w) ∷ m) = if eq_ℤ j k then erase k m else (j, w) ∷ erase k m

  pub lookup-insert_new :
      (k j : ℤ) (v : V) (m : List (ℤ × V))
      → lookup j (insert_new k v m)
        ≡ elim (lookup j m) [ some w ↦ some w | none ↦ if eq_ℤ k j then some v else none ]
  unfolding lookup insert_new
  lookup-insert_new k j v [] = refl
  lookup-insert_new k j v ((i, w) ∷ m) =
      ground (arith, eq_ℤ_iff i j, eq_ℤ_iff i k, eq_ℤ_iff k j, lookup-insert_new k j v m)

  pub lookup-update :
      (k j : ℤ) (d : V) (f : V → V) (m : List (ℤ × V))
      → lookup j (update k d f m)
        ≡ (if eq_ℤ k j then some (f (elim (lookup k m) [ some w ↦ w | none ↦ d ])) else lookup j m)
  unfolding lookup update
  lookup-update k j d f [] = refl
  lookup-update k j d f ((i, w) ∷ m) =
      ground (arith, eq_ℤ_iff i j, eq_ℤ_iff i k, eq_ℤ_iff k j, lookup-update k j d f m)

  pub lookup-erase :
      (k j : ℤ) (m : List (ℤ × V)) → lookup j (erase k m) ≡ (if eq_ℤ k j then none else lookup j m)
  unfolding lookup erase
  lookup-erase k j [] = ground arith
  lookup-erase k j ((i, w) ∷ m) =
      ground (arith, eq_ℤ_iff i j, eq_ℤ_iff i k, eq_ℤ_iff k j, lookup-erase k j m)

  -- No key twice.
  abbrev pub HasUniqueKeys : List (ℤ × V) → Type ℓ
  HasUniqueKeys [] = Unit
  HasUniqueKeys ((k, v) ∷ m) = (lookup k m ≡ none) × HasUniqueKeys m

  pub insert_new-HasUniqueKeys :
      (k : ℤ) (v : V) (m : List (ℤ × V)) → HasUniqueKeys m → HasUniqueKeys (insert_new k v m)
  unfolding lookup insert_new
  insert_new-HasUniqueKeys k v [] h = (refl, tt)
  insert_new-HasUniqueKeys k v ((j, w) ∷ m) h = elim (Bool-cases (eq_ℤ j k)) [
    | inl e ↦ rw e h
    | inr e ↦ rw e (
      lookup-insert_new k j v m ∙ ground (arith, h.0, eq_ℤ_iff j k, eq_ℤ_iff k j),
      insert_new-HasUniqueKeys k v m h.1,
    )
  ]

  pub erase-HasUniqueKeys : (k : ℤ) (m : List (ℤ × V)) → HasUniqueKeys m → HasUniqueKeys (erase k m)
  unfolding lookup erase
  erase-HasUniqueKeys k [] h = tt
  erase-HasUniqueKeys k ((j, w) ∷ m) h = elim (Bool-cases (eq_ℤ j k)) [
    | inl e ↦ rw e (erase-HasUniqueKeys k m h.1)
    | inr e ↦
        rw e (lookup-erase k j m ∙ ground (arith, h.0, eq_ℤ_iff k j), erase-HasUniqueKeys k m h.1)
  ]

  update-none :
      (k j : ℤ) (d : V) (f : V → V) (m : List (ℤ × V))
      → eq_ℤ k j ≡ false
      → lookup j m ≡ none
      → lookup j (update k d f m) ≡ none
  update-none k j d f m ne e = lookup-update k j d f m ∙ ground arith

  pub update-HasUniqueKeys :
      (k : ℤ) (d : V) (f : V → V) (m : List (ℤ × V))
      → HasUniqueKeys m
      → HasUniqueKeys (update k d f m)
  unfolding lookup update
  update-HasUniqueKeys k d f [] h = (refl, tt)
  update-HasUniqueKeys k d f ((j, w) ∷ m) h = elim (Bool-cases (eq_ℤ j k)) [
    | inl e ↦ rw e h
    | inr e ↦ rw e (
      update-none k j d f m (ground (arith, eq_ℤ_iff j k, eq_ℤ_iff k j)) h.0,
      update-HasUniqueKeys k d f m h.1,
    )
  ]
