-- ===== src/ChatService/Keeps.antt =====
-- What holds of the state after every way in which a call ends, one rule for each way to build a call.
-- `R` is what holds if the call has not ended: `⊥` for calls that end.
use cluster_chat_server_soft.Prelude.{
  ◌≡◌, refl, Bool, true, false, Option, none, some, if◌then◌else◌,
}
use cluster_chat_server_soft.ChatService.State.{
  Ended, returned, threw, running, ◌>>=◌, ◌>>◌, pure, gets, or_raise,
}

abbrev pub Leaves : {S A : Type 0} → Type 0 → (S → Type 0) → Ended S A → Type 0
Leaves R P (returned s a) = P s
Leaves R P (threw s) = P s
Leaves R P running = R

-- The call keeps `P`, whether it returns or throws.
pub record Keeps {S A : Type 0} (R : Type 0) (P : S → Type 0) (m : S → Ended S A) : Type 0 where
  pub at : (s : S) → P s → Leaves R P (m s)

module _ {S A : Type 0} {R : Type 0} {P : S → Type 0} where
  pub Keeps-pure : (a : A) → Keeps R P (pure a)
  Keeps-pure a = record { at = λ s h. h }

  pub Keeps-gets : (f : S → A) → Keeps R P (gets f)
  Keeps-gets f = record { at = λ s h. h }

  pub Keeps-or_raise : (o : Option A) → Keeps R P (or_raise o)
  Keeps-or_raise none = record { at = λ s h. h }
  Keeps-or_raise (some a) = record { at = λ s h. h }

  pub Keeps-if :
      (b : Bool) (m n : S → Ended S A) → Keeps R P m → Keeps R P n → Keeps R P (if b then m else n)
  Keeps-if true m n km kn = km
  Keeps-if false m n km kn = kn

  -- A branch may use how the test came out.
  pub Keeps-branch :
      (b : Bool) (m n : S → Ended S A)
      → (b ≡ true → Keeps R P m)
      → Keeps R P n
      → Keeps R P (if b then m else n)
  Keeps-branch true m n km kn = km refl
  Keeps-branch false m n km kn = kn

module _ {S A B : Type 0} {R : Type 0} {P : S → Type 0} where
  bind_step :
      (e : Ended S A) (f : A → S → Ended S B)
      → Leaves R P e
      → ((a : A) → Keeps R P (f a))
      → Leaves R P (elim e [ returned s' a ↦ f a s' | threw s' ↦ threw s' | running ↦ running ])
  bind_step (returned s a) f h kf = (kf a).at s h
  bind_step (threw s) f h kf = h
  bind_step running f h kf = h

  pub Keeps-bind :
      (m : S → Ended S A) (f : A → S → Ended S B)
      → Keeps R P m
      → ((a : A) → Keeps R P (f a))
      → Keeps R P (m >>= f)
  Keeps-bind m f km kf = record { at = λ s h. bind_step (m s) f (km.at s h) kf }

  -- The rest may use that the option held a value.
  pub Keeps-bind-or_raise :
      (o : Option A) (f : A → S → Ended S B)
      → ((a : A) → o ≡ some a → Keeps R P (f a))
      → Keeps R P (or_raise o >>= f)
  Keeps-bind-or_raise none f kf = record { at = λ s h. h }
  Keeps-bind-or_raise (some a) f kf = record { at = λ s h. (kf a refl).at s h }

-- The same for a value that is looked up in two steps.
pub Keeps-bind-field :
    {S A B C R : Type 0} {P : S → Type 0} (o : Option A) (g : A → Option C) (f : C → S → Ended S B)
    → ((a : A) (c : C) → o ≡ some a → g a ≡ some c → Keeps R P (f c))
    → Keeps R P ((or_raise o >>= λ a. or_raise (g a)) >>= f)
Keeps-bind-field none g f kf = record { at = λ s h. h }
Keeps-bind-field (some a) g f kf = record {
  at = λ s h. (Keeps-bind-or_raise (g a) f (λ c is. kf a c refl is)).at s h;
}

pub Keeps-then :
    {S B R : Type 0} {P : S → Type 0} (m : S → Ended S (Unit {0})) (k : S → Ended S B)
    → Keeps R P m
    → Keeps R P k
    → Keeps R P (m >> k)
Keeps-then m k km kk = Keeps-bind m (λ _. k) km (λ _. kk)

pub ruleset keeps_rules = (Keeps-pure, Keeps-gets, Keeps-or_raise, Keeps-if, Keeps-bind, Keeps-then)
