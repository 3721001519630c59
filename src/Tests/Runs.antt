-- ===== src/Tests/Runs.antt =====
-- Sequences of events at concrete inputs.
use cluster_chat_server_soft.Prelude.{
  not, ◌&&◌, ◌++◌, ◌≡◌, refl, true, false, none, some, List, [], ◌∷◌, arith, if◌then◌else◌,
}
use cluster_chat_server_soft.Prelude.Int.{pos, negsuc, eq_ℤ}
use cluster_chat_server_soft.Prelude.Text.{codes}
use cluster_chat_server_soft.Prelude.IntMap.{lookup, HasUniqueKeys}
use cluster_chat_server_soft.ChatService.State.{State, returned}
use cluster_chat_server_soft.ChatService.Departure.{is_member}
use cluster_chat_server_soft.ChatService.Membership.{enter_group-HasJoined}
use cluster_chat_server_soft.ChatService.Registry.{Event, enters, joins, leaves, closes, DoesAll}
use cluster_chat_server_soft.ChatService.Refinement.{view, perform_all, perform_all-DoesAll}
use cluster_chat_server_soft.ChatService.Loops.{
  leave_each, end_requests, leave_each-leave_all_groups,
}
use cluster_chat_server_soft.ChatService.Session.{user_of, leave_all_groups, log_out}
use cluster_chat_server_soft.ChatService.Groups.{enter_group}
use cluster_chat_server_soft.ChatService.Stranded.{enter_group-stranded}
use cluster_chat_server_soft.RedisClient.Subscriber.{round}
use cluster_chat_server_soft.Prelude.IntSet.{contains}
use cluster_chat_server_soft.Tests.Cache.{
  cached_hash, cache-HashTable, cache-Serves, cache-Connected,
}
use cluster_chat_server_soft.RedisClient.Laws.{IsRunning}
use cluster_chat_server_soft.ChatService.Absence.{ReadsGone, client_quit-ReadsGone}
use cluster_chat_server_soft.ChatService.Inbox.{on_connection}
use cluster_chat_server_soft.Tests.Redis.{client, no_channels}
use cluster_chat_server_soft.ChatService.Origin.{MadeBy, is_joins, members-MadeBy}
use cluster_chat_server_soft.Tests.Rows.{anna}
use cluster_chat_server_soft.Tests.Requests.{mysql_server, redis_server, json_lib}
use cluster_chat_server_soft.Tests.Service.{conn, service, idle}

-- User 3 logs in and joins group 8, user 5 logs out, and the connection of user 3 closes.
abbrev day : List Event
day = enters (conn 30) (pos 3) anna ∷ joins (pos 3) (pos 8) ∷ leaves (pos 5) ∷ closes (conn 30) ∷ []

alone : HasUniqueKeys (service (7 ∷ [])).user_conn_map
unfolding lookup
alone = (refl, tt)

perform_all-DoesAll_example :
    (s' : State) × (perform_all day (service (7 ∷ [])) ≡ returned s' tt)
    × DoesAll day (view (service (7 ∷ []))) (view s')
    × HasUniqueKeys s'.user_conn_map
perform_all-DoesAll_example = perform_all-DoesAll day (service (7 ∷ [])) alone

one_join :
    (s' : State) × (perform_all (joins (pos 3) (pos 8) ∷ []) (idle (7 ∷ [])) ≡ returned s' tt)
    × (is_member s'.group_members (pos 8) (pos 3) ≡ true)
one_join =
    let (s', e, joined, m) = enter_group-HasJoined (pos 3) (pos 8) (idle (7 ∷ [])) in
    (s', ground (arith, e), joined.members (pos 8) (pos 3))

members-MadeBy_example : MadeBy (is_joins (pos 3) (pos 8)) (pos 3) (joins (pos 3) (pos 8) ∷ [])
members-MadeBy_example =
    members-MadeBy (joins (pos 3) (pos 8) ∷ []) (idle (7 ∷ [])) one_join.0 (pos 3) (pos 8) refl refl
      one_join.1 one_join.2

leave_each-leave_all_groups_example :
    let s = service [] in
    (s' : State) × (leave_each (pos 5) [] s.group_members s ≡ returned s' tt)
    × (leave_all_groups (pos 5) s ≡ returned s' tt)
    × (is_member s'.group_members (pos 8) (pos 5)
        ≡ (not (eq_ℤ (pos 5) (pos 5)) && is_member s.group_members (pos 8) (pos 5)))
    × (s'.redis.subs.sub_tasks
        ≡ s.redis.subs.sub_tasks ++ end_requests (pos 5) s.redis.subs.sub_group_set s.group_members)
    × (s' ≡ record s {
      group_members = s'.group_members;
      redis = record s.redis { subs = record s.redis.subs { sub_tasks = s'.redis.subs.sub_tasks } };
    })
leave_each-leave_all_groups_example =
    leave_each-leave_all_groups (pos 5) (pos 8) (pos 5) (service [])

-- User 5 is the only member of group 8, and the node is subscribed to its channel.
abbrev subscribed : State
subscribed = record (service []) {
  redis = record client {
    subs = record no_channels { sub = λ channel. true; sub_group_set = pos 8 ∷ [] };
  };
}

has_eight : contains subscribed.redis.subs.sub_group_set (pos 8) ≡ true
unfolding contains
has_eight = refl

enter_group-stranded_example :
    (s1 : State) × (s2 : State) × (log_out (pos 5) subscribed ≡ returned s1 tt)
    × (enter_group (pos 3) (pos 8) s1 ≡ returned s2 tt)
    × (is_member s2.group_members (pos 8) (pos 3) ≡ true)
    × (contains (round s2.redis.subs).sub_group_set (pos 8) ≡ false)
enter_group-stranded_example =
    enter_group-stranded cache-Connected (pos 5) (pos 3) (pos 8) subscribed refl has_eight refl

-- User 3 is connected, and Redis reports everybody as online.
abbrev present : State
present = record (service (7 ∷ [])) {
  user_conn_map = (pos 3, conn 30) ∷ [];
  redis = record client {
    store = record {
      hashes = λ key field. some (codes "1");
      lists = λ key. [];
      texts = λ key. none;
    };
  };
}

present-IsRunning : IsRunning present.redis
present-IsRunning = record { runs = refl; free = λ e. cc }

three_found : user_of 30 present.user_conn_map ≡ some (pos 3)
unfolding user_of
three_found = refl

client_quit-ReadsGone_example :
    (s' : State) × (on_connection (conn 30) false present ≡ some s')
    × (lookup (pos 3) s'.user_conn_map ≡ none)
    × (if eq_ℤ (pos 3) (negsuc 0)
        then s'.redis ≡ present.redis
        else ReadsGone (pos 3) (pos 5) present s')
client_quit-ReadsGone_example =
    client_quit-ReadsGone cached_hash cache-HashTable cache-Serves (conn 30) (pos 3) (pos 5) present
      present-IsRunning three_found
