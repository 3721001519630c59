-- ===== src/Model/Groups.antt =====
-- What `GroupModel` hands to the service.
use cluster_chat_server_soft.Prelude.{
  ℕ, ◌≡◌, refl, ◌⊎◌, inl, inr, List, [], ◌∷◌, map, arith, All, List-cases,
}
use cluster_chat_server_soft.Prelude.Int.{ℤ}
use cluster_chat_server_soft.External.{done, Outcome-cases}
use cluster_chat_server_soft.External.Sql.{SqlServer, GroupRow, Update}
use cluster_chat_server_soft.Model.User.{Group}
use cluster_chat_server_soft.Model.Connection.{Mysql}
use cluster_chat_server_soft.Model.GroupModel
use cluster_chat_server_soft.Model.GroupModel.{group_of_row, with_last_id, load_users}

abbrev pub HasNoUsers : List Group → Type 0
HasNoUsers = All (λ g. g.users ≡ [])

HasNoUsers-rows : (rows : List GroupRow) → HasNoUsers (map group_of_row rows)
HasNoUsers-rows [] = tt
HasNoUsers-rows (r ∷ rows) = (refl, HasNoUsers-rows rows)

module _ ⦃sql : SqlServer⦄ where
  query_groups_rows :
      (userid : ℤ) (m : Mysql sql.Db)
      → ((GroupModel.query_groups userid m).1 ≡ [])
        ⊎ ((rows : List GroupRow) × ((GroupModel.query_groups userid m).1 ≡ map group_of_row rows))
  unfolding GroupModel.query_groups
  query_groups_rows userid m = elim (List-cases m.pool.connections) [
    | inl e ↦ inl (ground arith)
    | inr (c, rest, e) ↦ elim (Outcome-cases (sql.select_groups c userid m.db)) [
      | inr (db, q) ↦ inl (ground arith)
      | inl (db, rows, q) ↦ elim (Outcome-cases (load_users c (map group_of_row rows) db)) [
        | inr (db', q') ↦ inl (ground arith)
        | inl (db', copies, q') ↦ inr (rows, ground arith)
      ]
    ]
  ]

  -- No group that `queryGroups` returns has a user in it, whatever members the database lists: the
  -- loop over `vGroup` fills copies.
  pub query_groups-HasNoUsers :
      (userid : ℤ) (m : Mysql sql.Db) → HasNoUsers (GroupModel.query_groups userid m).1
  query_groups-HasNoUsers userid m = elim (query_groups_rows userid m) [
    | inl e ↦ rw e tt
    | inr (rows, e) ↦ rw e (HasNoUsers-rows rows)
  ]

  -- `createGroup` leaves the group alone but for its id, and the id is the one that it was given
  -- unless the insertion and the query of the last id both went through and gave one.
  pub create_group-id :
      (group : Group) (m : Mysql sql.Db)
      → let group' = (GroupModel.create_group group m).1 in
        (group' ≡ group)
        ⊎ ((c : ℕ) × (rest : List ℕ) × (db db' : sql.Db) × (id : ℤ) × (ids : List ℤ)
            × (m.pool.connections ≡ c ∷ rest)
            × (sql.execute_update c (Update.insert_group group.name group.desc) m.db ≡ done db tt)
            × (sql.select_last_id c db ≡ done db' (id ∷ ids))
            × (group' ≡ record group { id = id }))
  unfolding GroupModel.create_group
  create_group-id group m = elim (List-cases m.pool.connections) [
    | inl e ↦ inl (ground arith)
    | inr (c, rest, e) ↦
        elim (Outcome-cases
          (sql.execute_update c (Update.insert_group group.name group.desc) m.db)) [
            | inr (db, q) ↦ inl (ground arith)
            | inl (db, _, q) ↦ elim (Outcome-cases (sql.select_last_id c db)) [
              | inr (db', q') ↦ inl (ground arith)
              | inl (db', ids, q') ↦ elim (List-cases ids) [
                | inl z ↦ inl (ground arith)
                | inr (id, more, z) ↦
                    inr (c, rest, db, db', id, more, e, q, ground arith, ground arith)
              ]
            ]
          ]
  ]
