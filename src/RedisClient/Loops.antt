-- ===== src/RedisClient/Loops.antt =====
-- What the loop of the subscriber thread keeps.
use cluster_chat_server_soft.Prelude.{
  ◌≡◌, refl, Bool, true, false, ◌&&◌, List, [], ◌∷◌, All, if◌then◌else◌,
}
use cluster_chat_server_soft.External.Redis.{RedisServer}
use cluster_chat_server_soft.RedisClient.Subscriber.{Subs, round}
use cluster_chat_server_soft.RedisClient.Thread.{
  Request, Consumed, consumed, timed_out, failed, broken, Turn, Loop, left, thrown, consuming,
  requests, after_consume, consume_loop,
}

-- Is the end of `consume` not an error that the loop goes on after, other than a time-out?
abbrev pub is_quiet : {Sub : Type 0} → Consumed Sub → Bool
is_quiet consumed = true
is_quiet timed_out = true
is_quiet broken = true
is_quiet (failed f) = false

abbrev pub all_quiet : {Sub : Type 0} → List (Turn Sub) → Bool
all_quiet [] = true
all_quiet (t ∷ turns) = is_quiet t.consume && all_quiet turns

-- What holds of the state of a loop.
abbrev pub InLoop : {S : Type 0} → (S → Type 0) → Loop S → Type 0
InLoop P (left s) = P s
InLoop P (thrown s) = P s
InLoop P (consuming s) = P s

module _ ⦃redis : RedisServer⦄ where
  pub after_consume-quiet :
      (c : Consumed redis.Sub) (s : Subs) → is_quiet c ≡ true → after_consume c s ≡ s
  unfolding after_consume
  after_consume-quiet consumed s q = refl
  after_consume-quiet timed_out s q = refl
  after_consume-quiet broken s q = refl
  after_consume-quiet (failed f) s q = cc

  -- The end of the turn's `consume` keeps `P`.
  abbrev pub KeepsAfter : (Subs → Type 0) → Turn redis.Sub → Type 0
  KeepsAfter P t = (s : Subs) → P s → P (after_consume t.consume s)

module _ ⦃redis : RedisServer⦄ (P : Subs → Type 0) where
  either : (b : Bool) (x y : Loop Subs) → InLoop P x → InLoop P y → InLoop P (if b then x else y)
  either true x y hx hy = hx
  either false x y hx hy = hy

  ends :
      (c : Consumed redis.Sub) (asked : Subs) (next : Loop Subs)
      → P asked
      → InLoop P next
      → InLoop P
          (elim c [ consumed ↦ next | timed_out ↦ next | broken ↦ thrown asked | failed f ↦ next ])
  ends consumed asked next h n = n
  ends timed_out asked next h n = n
  ends broken asked next h n = h
  ends (failed f) asked next h n = n

  -- What requests, rounds and the ends of `consume` keep, the loop keeps.
  pub consume_loop-InLoop :
      ((qs : List Request) (s : Subs) → P s → P (requests qs s))
      → ((s : Subs) → P s → P (round s))
      → (turns : List (Turn redis.Sub)) (s : Subs) → All (KeepsAfter P) turns
      → P s
      → InLoop P (consume_loop turns s)
  unfolding consume_loop
  consume_loop-InLoop asks rounds [] s keeps h = either s.stopped (left s) (consuming s) h h
  consume_loop-InLoop asks rounds (t ∷ turns) s keeps h =
      let asked = requests t.asked s in
      let h' = asks t.asked s h in
      let next = round (after_consume t.consume asked) in
      either s.stopped (left s) _ h (
        ends t.consume asked (consume_loop turns next) h' (
          consume_loop-InLoop asks rounds turns next keeps.1
            (rounds (after_consume t.consume asked) (keeps.0 asked h'))))
