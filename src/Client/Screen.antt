-- ===== src/Client/Screen.antt =====
-- What the client prints of its user (`showCurrentUserData` of src/client/main.cpp), a line each, and the
-- time that it puts into a message (`getCurrentTime`).
use cluster_chat_server_soft.Prelude.{ℕ, ◌+◌, List, [], ◌∷◌, ◌++◌, map, ltb, if◌then◌else◌}
use cluster_chat_server_soft.Prelude.Text.{Str, codes, to_string, decimal}
use cluster_chat_server_soft.Model.User.{User, Group, GroupUser}
use cluster_chat_server_soft.Client.Commands.{ClientState}

abbrev pub user_line : User → Str
user_line user = to_string user.id ++ codes " " ++ user.name ++ codes " " ++ user.state

abbrev pub member_line : GroupUser → Str
member_line user =
    to_string user.id ++ codes " " ++ user.name ++ codes " " ++ user.state ++ codes " " ++ user.role

abbrev pub group_line : Group → Str
group_line group = to_string group.id ++ codes " " ++ group.name ++ codes " " ++ group.desc

-- The loop over the groups, each with its members.
unfoldable pub group_lines : List Group → List Str
group_lines [] = []
group_lines (group ∷ groups) =
    group_line group ∷ (map member_line group.users ++ group_lines groups)

unfoldable pub show_current_user_data : ClientState → List Str
unfolding group_lines
show_current_user_data s =
    codes "=============Current User================="
    ∷ (codes "Current User id: [ "
        ++ to_string s.current_user.id
        ++ codes " ] name: [ "
        ++ s.current_user.name
        ++ codes " ]")
    ∷ codes "-------------Friend List------------------"
    ∷ (map user_line s.friend_list
        ++ codes "-------------Group List-------------------"
          ∷ (group_lines s.group_list ++ codes "===========================================" ∷ []))

-- The fields of a `tm` that the code reads.
pub record Tm : Type 0 where
  pub tm_year : ℕ
  pub tm_mon : ℕ
  pub tm_mday : ℕ
  pub tm_hour : ℕ
  pub tm_min : ℕ
  pub tm_sec : ℕ

-- `%02d` of a number that is not negative.
unfoldable pub two_digits : ℕ → Str
two_digits n = if ltb n 10 then b'0' ∷ decimal n else decimal n

unfoldable pub get_current_time : Tm → Str
unfolding two_digits
get_current_time t =
    decimal (t.tm_year + 1900)
    ++ codes "-"
    ++ two_digits (t.tm_mon + 1)
    ++ codes "-"
    ++ two_digits t.tm_mday
    ++ codes " "
    ++ two_digits t.tm_hour
    ++ codes ":"
    ++ two_digits t.tm_min
    ++ codes ":"
    ++ two_digits t.tm_sec
