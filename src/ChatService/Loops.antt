-- ===== src/ChatService/Loops.antt =====
-- The loop over `groupMembers_` in `loginOut` and `clientQuitEcption`, entry by entry, and the two passes
-- of Session.
use mathlib.Core.List.{append-nil, append_assoc}
use cluster_chat_server_soft.Prelude.{
  Bool, true, false, not, ◌&&◌, if◌then◌else◌, Bool-cases, ◌≡◌, refl, sym, ◌∙◌, ap, inl, inr, List,
  [], ◌∷◌, ◌++◌, List-cases, arith,
}
use cluster_chat_server_soft.Prelude.Int.{ℤ, eq_ℤ}
use cluster_chat_server_soft.Prelude.IntSet
use cluster_chat_server_soft.Prelude.IntSet.{contains}
use cluster_chat_server_soft.RedisClient.Core.{SubTask}
use cluster_chat_server_soft.External.Sql.{SqlServer}
use cluster_chat_server_soft.External.Redis.{RedisServer}
use cluster_chat_server_soft.External.Json.{JsonLib}
use cluster_chat_server_soft.RedisClient.Subscriber.{Subs, unsubscribe_group_channel}
use cluster_chat_server_soft.ChatService.State.{
  State, M, returned, ◌>>◌, pure, do_subs, set_group_members,
}
use cluster_chat_server_soft.ChatService.Session.{leave_groups, emptied, leave_all_groups}
use cluster_chat_server_soft.ChatService.Departure.{
  is_member, is_member-leave_groups, unsubscribed, unsubscribe_all_lem,
}

abbrev pub is_nil : List ℤ → Bool
is_nil [] = true
is_nil (m ∷ members) = false

-- The requests to end a subscription: one for each group that is empty without the user and that the
-- node is subscribed to.
unfoldable pub end_requests : ℤ → List ℤ → List (ℤ × List ℤ) → List SubTask
end_requests id set [] = []
end_requests id set ((g, members) ∷ rest) =
    if is_nil (IntSet.erase id members) && contains set g
    then SubTask.unsubscribe g ∷ end_requests id set rest
    else end_requests id set rest

module _ ⦃sql : SqlServer⦄ ⦃redis : RedisServer⦄ ⦃json : JsonLib⦄ where
  abbrev unsubscribe_if_empty : ℤ → List ℤ → M (Unit {0})
  unsubscribe_if_empty g [] = do_subs (unsubscribe_group_channel g)
  unsubscribe_if_empty g (m ∷ members) = pure tt

  -- A round for each entry, with the entries behind and in front of it.
  unfoldable pub leave_each : ℤ → List (ℤ × List ℤ) → List (ℤ × List ℤ) → M (Unit {0})
  leave_each id before [] = pure tt
  leave_each id before ((g, members) ∷ rest) = do
    set_group_members (λ _. before ++ (g, IntSet.erase id members) ∷ rest)
    unsubscribe_if_empty g (IntSet.erase id members)
    leave_each id (before ++ (g, IntSet.erase id members) ∷ []) rest

  abbrev left_all : List (ℤ × List ℤ) → List ℤ → State → State
  left_all groups gone s = record s {
    group_members = groups;
    redis = record s.redis { subs = unsubscribed gone s.redis.subs };
  }

  append_one :
      (before rest : List (ℤ × List ℤ)) (kv : ℤ × List ℤ)
      → (before ++ kv ∷ []) ++ rest ≡ before ++ kv ∷ rest
  append_one [] rest kv = refl
  append_one (b ∷ before) rest kv = ap (λ l. b ∷ l) (append_one before rest kv)

  append_nil : (before : List (ℤ × List ℤ)) → before ++ [] ≡ before
  append_nil [] = refl
  append_nil (b ∷ before) = ap (λ l. b ∷ l) (append_nil before)

  leave_each-left_all :
      (id : ℤ) (rest before : List (ℤ × List ℤ)) (s : State)
      → s.group_members ≡ before ++ rest
      → leave_each id before rest s
        ≡ returned (left_all (before ++ leave_groups id rest) (emptied (leave_groups id rest)) s) tt
  unfolding leave_each leave_groups emptied unsubscribed
  leave_each-left_all id [] before s e = ground (arith, e)
  leave_each-left_all id ((g, members) ∷ rest) before s e =
      let left = IntSet.erase id members in
      let before' = before ++ (g, left) ∷ [] in
      let s1 : State = record s { group_members = before ++ (g, left) ∷ rest } in
      let s2 : State = record s1 {
        redis = record s.redis { subs = unsubscribe_group_channel g s.redis.subs };
      } in
      let e' = sym (append_one before rest (g, left)) in
      elim (List-cases left) [
        | inl q ↦ ground (
          arith,
          leave_each-left_all id rest before' s2 e',
          append_one before (leave_groups id rest) (g, left),
        )
        | inr (m, ms, q) ↦ ground (
          arith,
          leave_each-left_all id rest before' s1 e',
          append_one before (leave_groups id rest) (g, left),
        )
      ]

  leave_each-two_passes :
      (id : ℤ) (s : State) → leave_each id [] s.group_members s ≡ leave_all_groups id s
  unfolding leave_all_groups
  leave_each-two_passes id s =
      leave_each-left_all id s.group_members [] s refl
      ∙ sym (
          unsubscribe_all_lem (emptied (leave_groups id s.group_members))
            (record s { group_members = leave_groups id s.group_members }))

  unsubscribed-end_requests :
      (id : ℤ) (m : List (ℤ × List ℤ)) (subs : Subs)
      → unsubscribed (emptied (leave_groups id m)) subs
        ≡ record subs { sub_tasks = subs.sub_tasks ++ end_requests id subs.sub_group_set m }
  unfolding leave_groups emptied unsubscribed unsubscribe_group_channel end_requests
  unsubscribed-end_requests id [] subs = ground (arith, append-nil subs.sub_tasks)
  unsubscribed-end_requests id ((g, members) ∷ rest) subs =
      elim (List-cases (IntSet.erase id members)) [
        | inr (m, ms, q) ↦ ground (arith, unsubscribed-end_requests id rest subs)
        | inl q ↦ elim (Bool-cases (contains subs.sub_group_set g)) [
          | inr new ↦ ground (arith, unsubscribed-end_requests id rest subs)
          | inl old ↦
              let asked : Subs = record subs {
                sub_tasks = subs.sub_tasks ++ SubTask.unsubscribe g ∷ [];
              } in
              ground (
                arith,
                unsubscribed-end_requests id rest asked,
                append_assoc subs.sub_tasks (SubTask.unsubscribe g ∷ [])
                    (end_requests id subs.sub_group_set rest),
              )
        ]
      ]

  -- The loop over `groupMembers_` in `loginOut`, entry by entry as the code has it and in the two passes
  -- that the handlers of the model take, returns with the same state. The user is a local member of no
  -- group, and every other local member stays. The requests to end a subscription that were queued are,
  -- in the order of the entries and behind those that waited, one for each group whose set has nobody
  -- without the user and which is in `sub_group_set_`. Nothing else has changed.
  pub leave_each-leave_all_groups :
      (id g u : ℤ) (s : State)
      → (s' : State) × (leave_each id [] s.group_members s ≡ returned s' tt)
        × (leave_all_groups id s ≡ returned s' tt)
        × (is_member s'.group_members g u ≡ (not (eq_ℤ id u) && is_member s.group_members g u))
        × (s'.redis.subs.sub_tasks
            ≡ s.redis.subs.sub_tasks ++ end_requests id s.redis.subs.sub_group_set s.group_members)
        × (s' ≡ record s {
          group_members = s'.group_members;
          redis = record s.redis {
            subs = record s.redis.subs { sub_tasks = s'.redis.subs.sub_tasks };
          };
        })
  leave_each-leave_all_groups id g u s =
      let subs : Subs = record s.redis.subs {
        sub_tasks =
            s.redis.subs.sub_tasks ++ end_requests id s.redis.subs.sub_group_set s.group_members;
      } in
      let e =
        leave_each-left_all id s.group_members [] s refl
        ∙ ap
            (λ t.
              returned
                (record s {
                  group_members = leave_groups id s.group_members;
                  redis = record s.redis { subs = t };
                })
                tt)
            (unsubscribed-end_requests id s.group_members s.redis.subs) in
      (
        record s {
          group_members = leave_groups id s.group_members;
          redis = record s.redis { subs = subs };
        },
        e,
        sym (leave_each-two_passes id s) ∙ e,
        is_member-leave_groups id g u s.group_members,
        refl,
        refl,
      )
