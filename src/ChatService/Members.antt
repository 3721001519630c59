-- ===== src/ChatService/Members.antt =====
-- What the handlers make of `groupMembers_` keeps its keys unique and its sets increasing.
use cluster_chat_server_soft.Prelude.{◌≡◌, List, [], ◌∷◌, none, Bool-cases, inl, inr, arith}
use cluster_chat_server_soft.Prelude.Int.{ℤ, eq_ℤ}
use cluster_chat_server_soft.Prelude.IntSet
use cluster_chat_server_soft.Prelude.Increasing.{
  IsIncreasing, insert-IsIncreasing, erase-IsIncreasing,
}
use cluster_chat_server_soft.Prelude.IntMap.{lookup, update, update-HasUniqueKeys}
use cluster_chat_server_soft.Model.User.{GroupUser}
use cluster_chat_server_soft.ChatService.Session.{leave_groups, add_if_listed}
use cluster_chat_server_soft.ChatService.Groups.{add_members}
use cluster_chat_server_soft.ChatService.Sound.{AreIncreasing, AreMembers}

update-AreIncreasing :
    (g : ℤ) (f : List ℤ → List ℤ) (m : List (ℤ × List ℤ))
    → ((xs : List ℤ) → IsIncreasing xs → IsIncreasing (f xs))
    → AreIncreasing m
    → AreIncreasing (update g [] f m)
unfolding update
update-AreIncreasing g f [] keeps h = (keeps [] tt, tt)
update-AreIncreasing g f ((j, members) ∷ m) keeps h = elim (Bool-cases (eq_ℤ j g)) [
  | inl e ↦ rw (e, AreIncreasing) (keeps members h.0, h.1)
  | inr e ↦ rw (e, AreIncreasing) (h.0, update-AreIncreasing g f m keeps h.1)
]

pub update-AreMembers :
    (g : ℤ) (f : List ℤ → List ℤ)
    → ((xs : List ℤ) → IsIncreasing xs → IsIncreasing (f xs))
    → (m : List (ℤ × List ℤ)) → AreMembers m
    → AreMembers (update g [] f m)
update-AreMembers g f keeps m h =
    (update-HasUniqueKeys g [] f m h.0, update-AreIncreasing g f m keeps h.1)

pub insert-AreMembers :
    (g id : ℤ) (m : List (ℤ × List ℤ))
    → AreMembers m
    → AreMembers (update g [] (IntSet.insert id) m)
insert-AreMembers g id = update-AreMembers g (IntSet.insert id) (insert-IsIncreasing id)

pub add_members-AreMembers :
    (g : ℤ) (ids : List ℤ) (m : List (ℤ × List ℤ)) → AreMembers m → AreMembers (add_members g ids m)
unfolding add_members
add_members-AreMembers g [] m h = h
add_members-AreMembers g (id ∷ ids) m h =
    add_members-AreMembers g ids _ (insert-AreMembers g id m h)

add_if_listed-IsIncreasing :
    (id : ℤ) (users : List GroupUser) (xs : List ℤ)
    → IsIncreasing xs
    → IsIncreasing (add_if_listed id users xs)
unfolding add_if_listed
add_if_listed-IsIncreasing id [] xs h = h
add_if_listed-IsIncreasing id (user ∷ users) xs h = elim (Bool-cases (eq_ℤ user.id id)) [
  | inl e ↦
      rw e (add_if_listed-IsIncreasing id users (IntSet.insert id xs) (insert-IsIncreasing id xs h))
  | inr e ↦ rw e (add_if_listed-IsIncreasing id users xs h)
]

pub listed-AreMembers :
    (g id : ℤ) (users : List GroupUser) (m : List (ℤ × List ℤ))
    → AreMembers m
    → AreMembers (update g [] (add_if_listed id users) m)
listed-AreMembers g id users =
    update-AreMembers g (add_if_listed id users) (add_if_listed-IsIncreasing id users)

leave_groups-none :
    (id j : ℤ) (m : List (ℤ × List ℤ)) → lookup j m ≡ none → lookup j (leave_groups id m) ≡ none
unfolding lookup leave_groups
leave_groups-none id j [] e = e
leave_groups-none id j ((g, members) ∷ m) e = ground (arith, leave_groups-none id j m)

pub leave_groups-AreMembers :
    (id : ℤ) (m : List (ℤ × List ℤ)) → AreMembers m → AreMembers (leave_groups id m)
unfolding leave_groups
leave_groups-AreMembers id [] h = h
leave_groups-AreMembers id ((g, members) ∷ m) h =
    let (unique, increasing) = leave_groups-AreMembers id m (h.0.1, h.1.1) in
    ((leave_groups-none id g m h.0.0, unique), (erase-IsIncreasing id members h.1.0, increasing))
