-- ===== src/Wire/Login.antt =====
-- The response to a login at the client: the lists that the server sends, read back.
use cluster_chat_server_soft.Prelude.{◌≡◌, refl, Bool, some, List, [], ◌∷◌, arith}
use cluster_chat_server_soft.Prelude.Text.{Str, codes, str_eq}
use cluster_chat_server_soft.External.Sql.{SqlServer}
use cluster_chat_server_soft.External.Redis.{RedisServer}
use cluster_chat_server_soft.External.Json.{JsonLib, JsonLaws}
use cluster_chat_server_soft.Model.User.{User, Group, GroupUser, default_user, default_group_user}
use cluster_chat_server_soft.ChatService.Session.{friend_text, member_text, group_text, state_text}
use cluster_chat_server_soft.Client.Response.{
  map_all, friend_of_text, member_of_text, group_of_text,
}
use cluster_chat_server_soft.External.Objects.{object, subscript-object}

module _ ⦃sql : SqlServer⦄ ⦃redis : RedisServer⦄ ⦃json : JsonLib⦄ (laws : JsonLaws json) where
  -- A friend that the server prints for the response to a login reads back at the client with its id
  -- and name, and with the presence as its state.
  pub friend_of_text-friend_text :
      (user : User) (online : Bool)
      → friend_of_text (friend_text user online)
        ≡ some (record default_user { id = user.id; name = user.name; state = state_text online })
  unfolding friend_of_text str_eq
  friend_of_text-friend_text user online =
      let fields : List (Str × json.Json) =
        (codes "state", json.string (state_text online))
        ∷ (codes "name", json.string user.name)
        ∷ (codes "id", json.int user.id)
        ∷ [] in
      ground (
        arith,
        laws.parse-dump (object fields),
        subscript-object laws (codes "id") (json.int user.id) fields refl,
        subscript-object laws (codes "name") (json.string user.name) fields refl,
        subscript-object laws (codes "state") (json.string (state_text online)) fields refl,
        laws.get_int-int user.id,
        laws.get_string-string user.name,
        laws.get_string-string (state_text online),
      )

  member_of_text-member_text :
      (user : GroupUser) (online : Bool)
      → member_of_text (member_text user online)
        ≡ some (record default_group_user {
          id = user.id;
          name = user.name;
          state = state_text online;
          role = user.role;
        })
  unfolding member_of_text str_eq
  member_of_text-member_text user online =
      let fields : List (Str × json.Json) =
        (codes "role", json.string user.role)
        ∷ (codes "state", json.string (state_text online))
        ∷ (codes "name", json.string user.name)
        ∷ (codes "id", json.int user.id)
        ∷ [] in
      ground (
        arith,
        laws.parse-dump (object fields),
        subscript-object laws (codes "id") (json.int user.id) fields refl,
        subscript-object laws (codes "name") (json.string user.name) fields refl,
        subscript-object laws (codes "state") (json.string (state_text online)) fields refl,
        subscript-object laws (codes "role") (json.string user.role) fields refl,
        laws.get_int-int user.id,
        laws.get_string-string user.name,
        laws.get_string-string (state_text online),
        laws.get_string-string user.role,
      )

  -- A group reads back with its id, name and description, and with the members that its texts read as.
  pub group_of_text-group_text :
      (group : Group) (texts : List Str) (users : List GroupUser)
      → map_all member_of_text texts ≡ some users
      → group_of_text (group_text group texts) ≡ some (record group { users = users })
  unfolding group_of_text str_eq
  group_of_text-group_text group texts users e =
      let fields : List (Str × json.Json) =
        (codes "users", json.strings texts)
        ∷ (codes "groupdesc", json.string group.desc)
        ∷ (codes "groupname", json.string group.name)
        ∷ (codes "id", json.int group.id)
        ∷ [] in
      ground (
        arith,
        laws.parse-dump (object fields),
        subscript-object laws (codes "id") (json.int group.id) fields refl,
        subscript-object laws (codes "groupname") (json.string group.name) fields refl,
        subscript-object laws (codes "groupdesc") (json.string group.desc) fields refl,
        subscript-object laws (codes "users") (json.strings texts) fields refl,
        laws.get_int-int group.id,
        laws.get_string-string group.name,
        laws.get_string-string group.desc,
        laws.get_strings-strings texts,
      )
