-- ===== src/Prelude/Int.antt =====
-- C++ `int` as an integer. The program only compares and prints its ids, so no range is kept.
use cluster_chat_server_soft.Prelude.{ℕ, ◌≡◌, refl, ◌≢◌, ◌↔◌, Bool, true, false, arith, ltb, ◌==◌}

-- `negsuc n` is -(n + 1).
pub data ℤ : Type 0 where
  pos : ℕ → ℤ
  negsuc : ℕ → ℤ

abbrev pub eq_ℤ : ℤ → ℤ → Bool
eq_ℤ (pos a) (pos b) = a == b
eq_ℤ (pos a) (negsuc b) = false
eq_ℤ (negsuc a) (pos b) = false
eq_ℤ (negsuc a) (negsuc b) = a == b

abbrev pub ltb_ℤ : ℤ → ℤ → Bool
ltb_ℤ (pos a) (pos b) = ltb a b
ltb_ℤ (pos a) (negsuc b) = false
ltb_ℤ (negsuc a) (pos b) = true
ltb_ℤ (negsuc a) (negsuc b) = ltb b a

pub eq_ℤ_iff : (a b : ℤ) → (eq_ℤ a b ≡ true) ↔ (a ≡ b)
eq_ℤ_iff (pos a) (pos b) = ground arith
eq_ℤ_iff (pos a) (negsuc b) = ground arith
eq_ℤ_iff (negsuc a) (pos b) = ground arith
eq_ℤ_iff (negsuc a) (negsuc b) = ground arith

pub eq_ℤ_refl : (a : ℤ) → eq_ℤ a a ≡ true
eq_ℤ_refl a = (eq_ℤ_iff a a).1 refl

pub eq_ℤ_ne : (a b : ℤ) → a ≢ b → eq_ℤ a b ≡ false
eq_ℤ_ne a b h = ground (arith, eq_ℤ_iff a b)

pub ltb_ℤ_antisym : (a b : ℤ) → ltb_ℤ a b ≡ true → ltb_ℤ b a ≡ false
ltb_ℤ_antisym (pos a) (pos b) h = ground arith
ltb_ℤ_antisym (pos a) (negsuc b) h = ground arith
ltb_ℤ_antisym (negsuc a) (pos b) h = ground arith
ltb_ℤ_antisym (negsuc a) (negsuc b) h = ground arith

pub ltb_ℤ_trans : (a b c : ℤ) → ltb_ℤ a b ≡ true → ltb_ℤ b c ≡ true → ltb_ℤ a c ≡ true
ltb_ℤ_trans (pos a) (pos b) (pos c) h k = ground arith
ltb_ℤ_trans (pos a) (pos b) (negsuc c) h k = ground arith
ltb_ℤ_trans (pos a) (negsuc b) c h k = ground arith
ltb_ℤ_trans (negsuc a) (pos b) (pos c) h k = ground arith
ltb_ℤ_trans (negsuc a) (pos b) (negsuc c) h k = ground arith
ltb_ℤ_trans (negsuc a) (negsuc b) (pos c) h k = ground arith
ltb_ℤ_trans (negsuc a) (negsuc b) (negsuc c) h k = ground arith

pub ltb_ℤ_total : (a b : ℤ) → ltb_ℤ a b ≡ false → eq_ℤ b a ≡ false → ltb_ℤ b a ≡ true
ltb_ℤ_total (pos a) (pos b) h k = ground arith
ltb_ℤ_total (pos a) (negsuc b) h k = ground arith
ltb_ℤ_total (negsuc a) (pos b) h k = ground arith
ltb_ℤ_total (negsuc a) (negsuc b) h k = ground arith
