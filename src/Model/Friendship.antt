-- ===== src/Model/Friendship.antt =====
-- Who sees whom as a friend. `FriendModel::insert` stores one row for two users, as the CHECK of
-- sql/init_chat.sql wants, and `FriendModel::query` reads the rows of one column.
use cluster_chat_server_soft.Prelude.{
  append_ne_nil, ℕ, ◌≡◌, refl, ◌∙◌, ◌≢◌, inl, inr, Bool, true, false, ◌||◌, ◌&&◌, List, [], ◌∷◌,
  ◌++◌, map, arith, Bool-cases,
}
use cluster_chat_server_soft.Prelude.Int.{ℤ, eq_ℤ, ltb_ℤ, ltb_ℤ_antisym, eq_ℤ_refl}
use cluster_chat_server_soft.External.{done}
use cluster_chat_server_soft.External.Sql.{SqlServer, Update, FriendRow}
use cluster_chat_server_soft.Model.User.{User}
use cluster_chat_server_soft.Model.Connection.{Mysql}
use cluster_chat_server_soft.Model.FriendModel
use cluster_chat_server_soft.Model.FriendModel.{friend_row, friend_of_row}

-- Is there a friend with this id? The loop of `ChatService::oneChat` over the friends.
unfoldable pub has_friend : List User → ℤ → Bool
has_friend [] to = false
has_friend (user ∷ users) to = eq_ℤ user.id to || has_friend users to

abbrev pub lists_id : List FriendRow → ℤ → Bool
lists_id [] to = false
lists_id (r ∷ rows) to = eq_ℤ r.id to || lists_id rows to

has_friend-map :
    (rows : List FriendRow) (to : ℤ) → has_friend (map friend_of_row rows) to ≡ lists_id rows to
unfolding has_friend
has_friend-map [] to = refl
has_friend-map (r ∷ rows) to = ground (arith, has_friend-map rows to)

-- What MySQL does with the table `Friend`. `stored db a b`: the row (a, b) is in it.
pub record FriendTable ⦃sql : SqlServer⦄ (stored : sql.Db → ℤ → ℤ → Bool) : Type 0 where
  -- CHECK (userid < friendid)
  pub checked : (db : sql.Db) (a b : ℤ) → stored db a b ≡ true → ltb_ℤ a b ≡ true
  pub insert_stores :
      (conn : ℕ) (a b c d : ℤ) (db db' : sql.Db)
      → sql.execute_update conn (Update.insert_friend a b) db ≡ done db' tt
      → stored db' c d ≡ ((eq_ℤ a c && eq_ℤ b d) || stored db c d)
  pub select_reads :
      (conn : ℕ) (a b : ℤ) (db db' : sql.Db) (rows : List FriendRow)
      → sql.select_friends conn a db ≡ done db' rows
      → lists_id rows b ≡ stored db a b

-- No friend query throws.
abbrev pub ReadsFriends : SqlServer → Type 0
ReadsFriends sql =
    (conn : ℕ) (userid : ℤ) (db : sql.Db)
    → (db' : sql.Db) × (rows : List FriendRow) × (sql.select_friends conn userid db ≡ done db' rows)

friend_row_comm : (lo hi : ℤ) → ltb_ℤ lo hi ≡ true → friend_row hi lo ≡ Update.insert_friend lo hi
unfolding friend_row
friend_row_comm lo hi h = rw (ltb_ℤ_antisym lo hi h)

friend_row_ordered :
    (lo hi : ℤ) → ltb_ℤ lo hi ≡ true → friend_row lo hi ≡ Update.insert_friend lo hi
unfolding friend_row
friend_row_ordered lo hi h = rw h

module _ ⦃sql : SqlServer⦄ (stored : sql.Db → ℤ → ℤ → Bool) (table : FriendTable stored) where
  select-lists :
      (conn : ℕ) (userid friendid : ℤ) (db db' : sql.Db) (rows : List FriendRow)
      → sql.select_friends conn userid db ≡ done db' rows
      → has_friend (map friend_of_row rows) friendid ≡ stored db userid friendid
  select-lists conn userid friendid db db' rows e =
      has_friend-map rows friendid ∙ table.select_reads conn userid friendid db db' rows e

  -- A friend query lists only users whose id is greater than the asker's: whatever rows the table
  -- holds, the user with the greater id of two never sees the other as a friend.
  pub query-lists-greater :
      (userid friendid : ℤ) (m : Mysql sql.Db)
      → has_friend (FriendModel.query userid m).1 friendid ≡ true
      → ltb_ℤ userid friendid ≡ true
  unfolding FriendModel.query has_friend
  query-lists-greater userid friendid m h = grind (arith, select-lists, table.checked)

  query_found :
      (userid friendid : ℤ) (m : Mysql sql.Db) (cs : List ℕ)
      → m.pool.connections ≡ cs
      → cs ≢ []
      → ReadsFriends sql
      → stored m.db userid friendid ≡ true
      → has_friend (FriendModel.query userid m).1 friendid ≡ true
  unfolding FriendModel.query
  query_found userid friendid m [] e ne reads st = absurd (ne refl)
  query_found userid friendid m (c ∷ cs) e ne reads st =
      let (db', rows, q) = reads c userid m.db in
      ground (arith, select-lists c userid friendid m.db db' rows q)

  insert-stores :
      (userid friendid lo hi : ℤ) (m : Mysql sql.Db) (c : ℕ) (rest : List ℕ) (db' : sql.Db)
      → friend_row userid friendid ≡ Update.insert_friend lo hi
      → m.pool.connections ≡ c ∷ rest
      → sql.execute_update c (Update.insert_friend lo hi) m.db ≡ done db' tt
      → let m' = FriendModel.insert userid friendid m in
        (m'.pool.connections ≡ rest ++ c ∷ []) × (stored m'.db lo hi ≡ true)
  unfolding FriendModel.insert
  insert-stores userid friendid lo hi m c rest db' e ec ed =
      ground (arith, table.insert_stores c lo hi lo hi m.db db' ed, eq_ℤ_refl lo, eq_ℤ_refl hi)

  -- Two users are made friends, by either of them, while the pool has a free connection and the database
  -- stores the row; then, as long as friend queries do not throw, the one with the smaller id sees the
  -- other as a friend, and the one with the greater id does not.
  pub query-insert :
      (lo hi : ℤ) (m : Mysql sql.Db) (c : ℕ) (rest : List ℕ) (db' : sql.Db)
      → ltb_ℤ lo hi ≡ true
      → m.pool.connections ≡ c ∷ rest
      → sql.execute_update c (Update.insert_friend lo hi) m.db ≡ done db' tt
      → ReadsFriends sql
      → (has_friend (FriendModel.query lo (FriendModel.insert lo hi m)).1 hi ≡ true)
        × (has_friend (FriendModel.query lo (FriendModel.insert hi lo m)).1 hi ≡ true)
        × (has_friend (FriendModel.query hi (FriendModel.insert lo hi m)).1 lo ≡ false)
        × (has_friend (FriendModel.query hi (FriendModel.insert hi lo m)).1 lo ≡ false)
  query-insert lo hi m c rest db' h ec ed reads =
      (sees lo hi by_lo, sees hi lo by_hi, blind lo hi, blind hi lo)
    where
      by_lo : friend_row lo hi ≡ Update.insert_friend lo hi
      by_lo = friend_row_ordered lo hi h

      by_hi : friend_row hi lo ≡ Update.insert_friend lo hi
      by_hi = friend_row_comm lo hi h

      sees :
          (a b : ℤ)
          → friend_row a b ≡ Update.insert_friend lo hi
          → has_friend (FriendModel.query lo (FriendModel.insert a b m)).1 hi ≡ true
      sees a b e =
          let (ep, st) = insert-stores a b lo hi m c rest db' e ec ed in
          query_found lo hi (FriendModel.insert a b m) (rest ++ c ∷ []) ep (append_ne_nil rest c)
            reads st

      blind : (a b : ℤ) → has_friend (FriendModel.query hi (FriendModel.insert a b m)).1 lo ≡ false
      blind a b =
          elim (Bool-cases (has_friend (FriendModel.query hi (FriendModel.insert a b m)).1 lo)) [
            | inl t ↦
                cc (ltb_ℤ_antisym lo hi h, query-lists-greater hi lo (FriendModel.insert a b m) t)
            | inr f ↦ f
          ]
