-- ===== src/Prelude/Text.antt =====
-- `std::string` as the list of its code points, and `std::to_string` on `int`.
use Prim.Native.Char.{code}
use Prim.Native.String.{String}
use native.Mathlib.Numerals.{add-one}
use cluster_chat_server_soft.Prelude.{
  ℕ, zero, suc, ◌+◌, ◌-◌, ◌*◌, ◌/◌, ◌%◌, ◌≤◌, ◌<◌, length, ◌≡◌, refl, sym, ap, ◌∙◌, ◌≢◌, ◌↔◌, inl,
  inr, Bool, true, false, List, [], ◌∷◌, arith, ltb, ◌==◌, ◌&&◌, Bool-cases,
}
use cluster_chat_server_soft.Prelude.Int.{ℤ, pos, negsuc}

abbrev pub Str : Type 0
Str = List ℕ

abbrev pub codes : String → Str
codes String.[] = []
codes (String.◌∷◌ c s) = code c ∷ codes s

unfoldable pub str_eq : Str → Str → Bool
str_eq [] [] = true
str_eq [] (d ∷ t) = false
str_eq (c ∷ s) [] = false
str_eq (c ∷ s) (d ∷ t) = (c == d) && str_eq s t

pub str_eq_iff : (s t : Str) → (str_eq s t ≡ true) ↔ (s ≡ t)
unfolding str_eq
str_eq_iff [] [] = ground arith
str_eq_iff [] (d ∷ t) = ground arith
str_eq_iff (c ∷ s) [] = ground arith
str_eq_iff (c ∷ s) (d ∷ t) = ground (arith, str_eq_iff s t)

pub str_eq_refl : (s : Str) → str_eq s s ≡ true
str_eq_refl s = (str_eq_iff s s).1 refl

-- The decimal digits of `n` in front of `out`; `fuel` bounds the number of digits.
emit : ℕ → ℕ → Str → Str
emit zero n out = out
emit (suc fuel) n out = elim (ltb n 10) [
  | true ↦ (b'0' + n) ∷ out
  | false ↦ emit fuel (n / 10) ((b'0' + n % 10) ∷ out)
]

-- The number that a text of digits stands for, after `a`.
value : Str → ℕ → ℕ
value [] a = a
value (c ∷ s) a = value s (a * 10 + (c - b'0'))

value-emit : (fuel n : ℕ) (out : Str) → n + 1 ≤ fuel → value (emit fuel n out) 0 ≡ value out n
unfolding emit value
value-emit zero n out h = absurd (omega arith)
value-emit (suc fuel) n out h = elim (Bool-cases (ltb n 10)) [
  | inl e ↦ rw (e, emit) (ap (value out) (omega arith))
  | inr e ↦
      rw (e, emit)
        (value-emit fuel (n / 10) ((b'0' + n % 10) ∷ out) (ground arith)
          ∙ ap (value out) (ground arith))
]

abbrev pub ten_to : ℕ → ℕ
ten_to zero = 1
ten_to (suc k) = 10 * ten_to k

emit-length :
    (k fuel n : ℕ) (out : Str) → n < ten_to (suc k) → length (emit fuel n out) ≤ suc k + length out
unfolding emit
emit-length k zero n out h = omega arith
emit-length zero (suc fuel) n out h = ground (arith, h)
emit-length (suc k) (suc fuel) n out h =
    ground (arith, h, emit-length k fuel (n / 10) ((b'0' + n % 10) ∷ out))

unfoldable pub decimal : ℕ → Str
unfolding emit
decimal n = emit (n + 1) n []

pub decimal-length : (k n : ℕ) → n < ten_to (suc k) → length (decimal n) ≤ suc k
unfolding decimal
decimal-length k n h = omega (arith, emit-length k (n + 1) n [] h)

pub decimal-injective : (m n : ℕ) → decimal m ≡ decimal n → m ≡ n
unfolding decimal value
decimal-injective m n e =
    cc (value-emit (m + 1) m [] (omega arith), value-emit (n + 1) n [] (omega arith))

-- A text that begins with a digit.
abbrev StartsWithDigit : Str → Type 0
StartsWithDigit [] = ⊥
StartsWithDigit (c ∷ s) = b'0' ≤ c

emit-StartsWithDigit :
    (fuel n : ℕ) (out : Str) → StartsWithDigit out → StartsWithDigit (emit fuel n out)
unfolding emit
emit-StartsWithDigit zero n out h = h
emit-StartsWithDigit (suc fuel) n out h = elim (Bool-cases (ltb n 10)) [
  | inl e ↦ rw (e, emit) (omega arith)
  | inr e ↦ rw (e, emit) (emit-StartsWithDigit fuel (n / 10) _ (omega arith))
]

decimal-StartsWithDigit : (n : ℕ) → StartsWithDigit (decimal n)
unfolding decimal emit
decimal-StartsWithDigit n =
    rw (add-one, emit)
      (elim (Bool-cases (ltb n 10)) [
        | inl e ↦ rw e (omega arith)
        | inr e ↦ rw e (emit-StartsWithDigit n (n / 10) _ (omega arith))
      ])

minus_not_digit : (s t : Str) → StartsWithDigit s → s ≢ b'-' ∷ t
minus_not_digit [] t h e = h
minus_not_digit (c ∷ s) t h e = ground arith

unfoldable pub to_string : ℤ → Str
to_string (pos n) = decimal n
to_string (negsuc n) = b'-' ∷ decimal (n + 1)

-- Two ids are printed alike only if they are equal.
pub to_string-injective : (a b : ℤ) → to_string a ≡ to_string b → a ≡ b
unfolding to_string
to_string-injective (pos m) (pos n) e = ap pos (decimal-injective m n e)
to_string-injective (pos m) (negsuc n) e =
    absurd (minus_not_digit (decimal m) _ (decimal-StartsWithDigit m) e)
to_string-injective (negsuc m) (pos n) e =
    absurd (minus_not_digit (decimal n) _ (decimal-StartsWithDigit n) (sym e))
to_string-injective (negsuc m) (negsuc n) e = ground (arith, decimal-injective (m + 1) (n + 1))

to_string-printed : to_string (negsuc 41) ≡ codes "-42"
unfolding to_string decimal emit
to_string-printed = refl
