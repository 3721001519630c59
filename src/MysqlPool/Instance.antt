-- ===== src/MysqlPool/Instance.antt =====
-- `MySQLConnectionPool::getInstance` under several threads: the test of `instance_`, the mutex, the second
-- test, and the assignment, as interleaved steps. A step sees what the steps before it wrote: the model
-- leaves out what C++ allows a compiler to do with the first test, which reads a plain pointer outside
-- the mutex.
use mathlib.Core.Path.{subst}
use cluster_chat_server_soft.Prelude.{
  Option-cases, sym, ℕ, ◌+◌, ◌≡◌, ◌≤◌, ◌⊎◌, refl, inl, inr, Option, none, some, List, [], ◌∷◌,
  arith, ◌==◌, if◌then◌else◌, Bool-cases, false,
}

-- Where a call of `getInstance` stands; `returned` carries the pointer, a number.
pub data CallPhase : Type 0 where
  -- before the first test, and before the mutex
  calling waiting : CallPhase
  -- under the mutex: before the second test, before `new`, and before the end of the block
  inside making leaving : CallPhase
  -- before `return instance_`
  returning : CallPhase
  returned : Option ℕ → CallPhase

-- `instance_`, how many pools were made, who holds the mutex, and each thread's call.
pub record Instance : Type 0 where
  pub instance_ : Option ℕ
  pub made : ℕ
  pub mutex_ : Option ℕ
  pub phase : ℕ → CallPhase

abbrev moves : (ℕ → CallPhase) → ℕ → CallPhase → ℕ → CallPhase
moves f t p u = if t == u then p else f u

-- Thread `t`, whose call stands at the phase, makes its next step.
unfoldable pub get_instance : CallPhase → ℕ → Instance → Instance
get_instance calling t s = elim s.instance_ [
  | none ↦ record s { phase = moves s.phase t waiting }
  | some p ↦ record s { phase = moves s.phase t returning }
]
get_instance waiting t s = elim s.mutex_ [
  | none ↦ record s { mutex_ = some t; phase = moves s.phase t inside }
  | some u ↦ s
]
get_instance inside t s = elim s.instance_ [
  | none ↦ record s { phase = moves s.phase t making }
  | some p ↦ record s { phase = moves s.phase t leaving }
]
get_instance making t s = record s {
  instance_ = some s.made;
  made = s.made + 1;
  phase = moves s.phase t leaving;
}
get_instance leaving t s = record s { mutex_ = none; phase = moves s.phase t returning }
get_instance returning t s = record s { phase = moves s.phase t (returned s.instance_) }
get_instance (returned p) t s = s

-- A schedule names the thread that moves.
unfoldable pub schedule : List ℕ → Instance → Instance
unfolding get_instance
schedule [] s = s
schedule (t ∷ ts) s = schedule ts (get_instance (s.phase t) t s)

-- What the phase of thread `t` says of the state.
abbrev Fits : Instance → ℕ → CallPhase → Type 0
Fits s t calling = Unit
Fits s t waiting = Unit
Fits s t inside = s.mutex_ ≡ some t
Fits s t making = (s.mutex_ ≡ some t) × (s.instance_ ≡ none)
Fits s t leaving = (s.mutex_ ≡ some t) × (s.instance_ ≡ some 0)
Fits s t returning = s.instance_ ≡ some 0
Fits s t (returned p) = (p ≡ some 0) × (s.instance_ ≡ some 0)

-- No pool was made yet, or the one with the number 0.
abbrev IsOne : Instance → Type 0
IsOne s = ((s.instance_ ≡ none) × (s.made ≡ 0)) ⊎ ((s.instance_ ≡ some 0) × (s.made ≡ 1))

pub record IsSingle (s : Instance) : Type 0 where
  pub one : IsOne s
  pub fits : (t : ℕ) → Fits s t (s.phase t)

-- What another thread relies on: the mutex that it holds, a pool that is there, and, while it holds the
-- mutex, a pool that is not.
record Leaves (s s' : Instance) (u : ℕ) : Type 0 where
  pub held : s.mutex_ ≡ some u → s'.mutex_ ≡ some u
  pub there : s.instance_ ≡ some 0 → s'.instance_ ≡ some 0
  pub absent : s.mutex_ ≡ some u → s.instance_ ≡ none → s'.instance_ ≡ none

Leaves-Fits : (q : CallPhase) (u : ℕ) (s s' : Instance) → Leaves s s' u → Fits s u q → Fits s' u q
Leaves-Fits calling u s s' l f = tt
Leaves-Fits waiting u s s' l f = tt
Leaves-Fits inside u s s' l f = l.held f
Leaves-Fits making u s s' l f = (l.held f.0, l.absent f.0 f.1)
Leaves-Fits leaving u s s' l f = (l.held f.0, l.there f.1)
Leaves-Fits returning u s s' l f = l.there f
Leaves-Fits (returned p) u s s' l f = (f.0, l.there f.1)

get_instance-Leaves :
    (p : CallPhase) (t u : ℕ) (s : Instance)
    → (t == u) ≡ false
    → Fits s t p
    → Leaves s (get_instance p t s) u
unfolding get_instance
get_instance-Leaves calling t u s ne f = record {
  held = λ e. ground arith;
  there = λ e. ground arith;
  absent = λ e k. ground arith;
}
get_instance-Leaves waiting t u s ne f = record {
  held = λ e. ground arith;
  there = λ e. ground arith;
  absent = λ e k. ground arith;
}
get_instance-Leaves inside t u s ne f = record {
  held = λ e. ground arith;
  there = λ e. ground arith;
  absent = λ e k. ground arith;
}
get_instance-Leaves making t u s ne (f, g) = record {
  held = λ e. e;
  there = λ e. cc;
  absent = λ e k. ground (arith, e, f);
}
get_instance-Leaves leaving t u s ne (f, g) = record {
  held = λ e. ground (arith, e, f);
  there = λ e. e;
  absent = λ e k. k;
}
get_instance-Leaves returning t u s ne f = record {
  held = λ e. e;
  there = λ e. e;
  absent = λ e k. k;
}
get_instance-Leaves (returned p) t u s ne f = record {
  held = λ e. e;
  there = λ e. e;
  absent = λ e k. k;
}

get_instance-IsOne :
    (p : CallPhase) (t : ℕ) (s : Instance) → IsOne s → Fits s t p → IsOne (get_instance p t s)
unfolding get_instance
get_instance-IsOne calling t s h f = ground (arith, h)
get_instance-IsOne waiting t s h f = ground (arith, h)
get_instance-IsOne inside t s h f = ground (arith, h)
get_instance-IsOne making t s h f = ground (arith, h, f.1)
get_instance-IsOne leaving t s h f = h
get_instance-IsOne returning t s h f = h
get_instance-IsOne (returned p) t s h f = h

-- The thread that moves: its phase fits the state after its step.
at_phase :
    (s : Instance) (t : ℕ) (q : CallPhase) → s.phase t ≡ q → Fits s t q → Fits s t (s.phase t)
at_phase s t q e f = subst (λ r. Fits s t r) (sym e) f

get_instance-Fits :
    (p : CallPhase) (t : ℕ) (s : Instance)
    → IsOne s
    → s.phase t ≡ p
    → Fits s t p
    → Fits (get_instance p t s) t ((get_instance p t s).phase t)
unfolding get_instance
get_instance-Fits calling t s h e f = elim (Option-cases s.instance_) [
  | inl q ↦ at_phase (get_instance calling t s) t waiting (ground arith) tt
  | inr (p, q) ↦ at_phase (get_instance calling t s) t returning (ground arith) (ground (arith, h))
]
get_instance-Fits waiting t s h e f = elim (Option-cases s.mutex_) [
  | inl q ↦ at_phase (get_instance waiting t s) t inside (ground arith) (ground arith)
  | inr (u, q) ↦ at_phase (get_instance waiting t s) t waiting (ground arith) tt
]
get_instance-Fits inside t s h e f = elim (Option-cases s.instance_) [
  | inl q ↦
      at_phase (get_instance inside t s) t making (ground arith) (ground (arith, f), ground arith)
  | inr (p, q) ↦
      at_phase (get_instance inside t s) t leaving (ground arith)
        (ground (arith, f), ground (arith, h))
]
get_instance-Fits making t s h e f =
    at_phase (get_instance making t s) t leaving (ground arith) (f.0, ground (arith, h, f.1))
get_instance-Fits leaving t s h e f =
    at_phase (get_instance leaving t s) t returning (ground arith) f.1
get_instance-Fits returning t s h e f =
    at_phase (get_instance returning t s) t (returned s.instance_) (ground arith) (f, f)
get_instance-Fits (returned p) t s h e f = at_phase s t (returned p) e f

-- The other threads stay where they are.
get_instance-phase :
    (p : CallPhase) (t u : ℕ) (s : Instance)
    → (t == u) ≡ false
    → (get_instance p t s).phase u ≡ s.phase u
unfolding get_instance
get_instance-phase calling t u s ne = ground arith
get_instance-phase waiting t u s ne = ground arith
get_instance-phase inside t u s ne = ground arith
get_instance-phase making t u s ne = ground arith
get_instance-phase leaving t u s ne = ground arith
get_instance-phase returning t u s ne = ground arith
get_instance-phase (returned p) t u s ne = refl

get_instance-IsSingle :
    (t : ℕ) (s : Instance) → IsSingle s → IsSingle (get_instance (s.phase t) t s)
get_instance-IsSingle t s h =
    let p = s.phase t in
    let own = get_instance-Fits p t s h.one refl (h.fits t) in
    record {
      one = get_instance-IsOne p t s h.one (h.fits t);
      fits = λ u. elim (Bool-cases (t == u)) [
        | inl same ↦
            let eq : t ≡ u = ground arith in
            subst (λ v. Fits (get_instance p t s) v ((get_instance p t s).phase v)) eq own
        | inr ne ↦
            at_phase (get_instance p t s) u (s.phase u) (get_instance-phase p t u s ne)
              (Leaves-Fits (s.phase u) u s _ (get_instance-Leaves p t u s ne (h.fits t)) (h.fits u))
      ];
    }

schedule-IsSingle : (ts : List ℕ) (s : Instance) → IsSingle s → IsSingle (schedule ts s)
unfolding schedule
schedule-IsSingle [] s h = h
schedule-IsSingle (t ∷ ts) s h =
    schedule-IsSingle ts (get_instance (s.phase t) t s) (get_instance-IsSingle t s h)

-- Before any call.
abbrev pub untouched : Instance
untouched = record { instance_ = none; made = 0; mutex_ = none; phase = λ t. calling }

untouched-IsSingle : IsSingle untouched
untouched-IsSingle = record { one = inl (refl, refl); fits = λ t. tt }

-- Whatever the threads and the order of their steps, at most one pool is made.
pub schedule-made : (ts : List ℕ) → (schedule ts untouched).made ≤ 1
schedule-made ts = elim (schedule-IsSingle ts untouched untouched-IsSingle).one [
  | inl (q, n) ↦ omega arith
  | inr (q, n) ↦ omega arith
]

-- Whatever the threads and the order of their steps, once a call of `getInstance` has returned, exactly
-- one pool was made, and the call gave this pool, not the null pointer.
pub schedule-one :
    (ts : List ℕ) (t : ℕ) (p : Option ℕ)
    → (schedule ts untouched).phase t ≡ returned p
    → (p ≡ some 0) × ((schedule ts untouched).made ≡ 1)
schedule-one ts t p e =
    let single = schedule-IsSingle ts untouched untouched-IsSingle in
    let gave = subst (λ q. Fits (schedule ts untouched) t q) e (single.fits t) in
    (gave.0, elim single.one [ inl (q, n) ↦ ground (arith, gave.1) | inr (q, n) ↦ n ])
