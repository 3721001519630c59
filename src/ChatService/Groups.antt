-- ===== src/ChatService/Groups.antt =====
-- `createGroup`, `joinGroup` and `groupChat` of chatservice.cpp.
use cluster_chat_server_soft.Prelude.{Option, none, some, List, [], ◌∷◌, ◌++◌, if◌then◌else◌}
use cluster_chat_server_soft.Prelude.Int.{ℤ, negsuc}
use cluster_chat_server_soft.Prelude.IntSet
use cluster_chat_server_soft.Prelude.IntMap.{lookup, update}
use cluster_chat_server_soft.Prelude.Text.{Str, codes, to_string}
use cluster_chat_server_soft.External.Sql.{SqlServer}
use cluster_chat_server_soft.External.Redis.{RedisServer}
use cluster_chat_server_soft.External.Json.{JsonLib}
use cluster_chat_server_soft.Model.User.{new_group}
use cluster_chat_server_soft.Model.GroupModel
use cluster_chat_server_soft.RedisClient.Commands
use cluster_chat_server_soft.RedisClient.Subscriber.{subscribe_group_channel}
use cluster_chat_server_soft.ChatService.State.{
  M, ◌>>=◌, ◌>>◌, pure, gets, on_mysql, do_mysql, do_redis, do_subs, set_group_members,
}
use cluster_chat_server_soft.ChatService.Protocol.{int_field, string_field, is_blank}

-- `groupMembers_[groupid].insert(id)` for each id.
unfoldable pub add_members : ℤ → List ℤ → List (ℤ × List ℤ) → List (ℤ × List ℤ)
add_members groupid [] m = m
add_members groupid (id ∷ ids) m = add_members groupid ids (update groupid [] (IntSet.insert id) m)

module _ ⦃sql : SqlServer⦄ ⦃redis : RedisServer⦄ ⦃json : JsonLib⦄ where
  abbrev pub members_key : ℤ → Str
  members_key groupid = codes "group_members:" ++ to_string groupid

  -- What `createGroup` and `joinGroup` do alike once the row is stored.
  unfoldable pub enter_group : ℤ → ℤ → M (Unit {0})
  enter_group userid groupid = do
    set_group_members (update groupid [] (IntSet.insert userid))
    do_redis (Commands.sadd (members_key groupid) (to_string userid))
    do_redis (Commands.expire (members_key groupid) 3600)
    do_subs (subscribe_group_channel groupid)

  unfoldable pub create_group : json.Json → M (Unit {0})
  unfolding enter_group
  create_group js = do
    userid ← int_field js (codes "id")
    groupname ← string_field js (codes "groupname")
    groupdesc ← string_field js (codes "groupdesc")
    group ← on_mysql (GroupModel.create_group (new_group (negsuc 0) groupname groupdesc))
    do_mysql (GroupModel.join_group userid group.id (codes "creator"))
    enter_group userid group.id

  unfoldable pub join_group : json.Json → M (Unit {0})
  unfolding enter_group
  join_group js = do
    userid ← int_field js (codes "id")
    groupid ← int_field js (codes "groupid")
    do_mysql (GroupModel.join_group userid groupid (codes "normal"))
    enter_group userid groupid

  -- "If we don't have local membership info, load from DB and update set."
  unfoldable pub load_members : ℤ → ℤ → Option (List ℤ) → M (Unit {0})
  unfolding add_members
  load_members userid groupid (some members) = pure tt
  load_members userid groupid none = do
    users ← on_mysql (GroupModel.query_group_users userid groupid)
    set_group_members (add_members groupid users)
    do_subs (subscribe_group_channel groupid)

  unfoldable pub chat_in : json.Json → ℤ → ℤ → M (Unit {0})
  unfolding load_members
  chat_in js userid groupid = do
    known ← gets (λ s. lookup groupid s.group_members)
    load_members userid groupid known
    do_redis (Commands.publish_group_message groupid (json.dump js))

  unfoldable pub group_chat : json.Json → M (Unit {0})
  unfolding chat_in
  group_chat js = do
    blank ← is_blank js
    if blank then pure tt else (do
      userid ← int_field js (codes "id")
      groupid ← int_field js (codes "groupid")
      chat_in js userid groupid)
