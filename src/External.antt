-- ===== src/External.antt =====
-- What the server calls and does not implement, as parameters: the MySQL server behind the connector,
-- the Redis server behind redis++, and the vendored thirdparty/json.hpp. A call either returns or
-- throws, and either way the other side goes on from the state that it leaves.
pub mod Sql
pub mod Redis
pub mod Json
pub mod Objects
use cluster_chat_server_soft.Prelude.{◌≡◌, refl, ◌⊎◌, inl, inr}

-- What a call to another system comes to.
pub data Outcome (S A : Type 0) : Type 0 where
  done : S → A → Outcome S A
  threw : S → Outcome S A

abbrev pub after : {S A : Type 0} → Outcome S A → S
after (done s a) = s
after (threw s) = s

-- The calls in a `try` block, one after the other: an exception skips the rest.
infixl 5 ◌>>=◌ ◌>>◌
abbrev pub ◌>>=◌ : {S A B : Type 0} → (S → Outcome S A) → (A → S → Outcome S B) → S → Outcome S B
◌>>=◌ m f s = elim (m s) [ done s' a ↦ f a s' | threw s' ↦ threw s' ]

abbrev pub ◌>>◌ : {S B : Type 0} → (S → Outcome S (Unit {0})) → (S → Outcome S B) → S → Outcome S B
m >> k = m >>= λ _. k

pub Outcome-cases :
    {S A : Type 0} (o : Outcome S A)
    → ((s : S) × (a : A) × (o ≡ done s a)) ⊎ ((s : S) × (o ≡ threw s))
Outcome-cases (done s a) = inl (s, a, refl)
Outcome-cases (threw s) = inr (s, refl)
