-- ===== src/Lib.antt =====
-- The chat server of this repository: clients speak JSON over TCP with a node; the node keeps users,
-- friends, groups and offline messages in MySQL, presence and a cache in Redis, and passes group
-- messages to the other nodes by Redis publish and subscribe.
--
-- The parts, and the files that model them:
--   MysqlPool      src/server/mysqlconnectionpool: the deque of connections, from its construction to its
--                  destruction; MysqlPool/Race has the two steps of getConnection under several threads,
--                  MysqlPool/Instance those of getInstance
--   Model          src/server/model and include/server/model: User, Group and GroupUser; UserModel,
--                  FriendModel, GroupModel and OfflineMessage on the database and the pool
--   RedisPool      src/server/redisconnectionpool: init, acquire, release and stop
--   RedisClient    src/server/redisclient.cpp: Commands has its methods, Subscriber the requests to
--                  subscribe and a round of the subscriber thread, Thread the whole thread and the
--                  destructor
--   ChatService    src/server/chatservice.cpp and the callbacks of src/server/chatserver.cpp: State has
--                  the members and the monad of the handlers, Protocol include/public.hpp and the
--                  reading of fields, Chat oneChat and addFriend, Session login, reg, loginOut and
--                  clientQuitEcption, Groups createGroup, joinGroup and groupChat, Inbox the inbox
--                  callback, the subscriber's on_message, getHandler, onMessage and onConnection;
--                  Registry is an abstract specification of userConnMap_ and groupMembers_
--   Server         src/server/main.cpp: StartUp has main up to the server that listens, with the
--                  constructors that it reaches, and Run the events of src/server/chatserver.cpp and of the
--                  channels, with the states that the server comes to
--   Client         src/client/main.cpp: Commands the main menu and its commands, Start the start menu,
--                  Response a round of readTaskHandler with doLoginResponse and doRegResponse, Screen
--                  showCurrentUserData and getCurrentTime, and Process the moves of the main thread with
--                  the texts that the reading thread hears
--   Wire           client and server together: what one sends, read by the other
--   Config         include/config.hpp, and getLocalNodeId of src/server/redisclient.cpp
--   External       MySQL, Redis, redis++ and nlohmann::json, as records that the definitions take
--   Prelude        lists, integers, texts, std::set<int> and std::unordered_map<int, V>
--   Tests          servers in memory that meet the laws, and the theorems at concrete inputs
-- The other modules under these parts hold the theorems, by subject.
--
-- How the code corresponds. A function of the source has its name in lower case with underscores. A
-- model class works on the database and the pool together (Model/Connection); the service's state holds
-- both with the queue of OfflineMessage, the Redis client, userConnMap_, groupMembers_ and the list of
-- what was sent. A handler returns, throws or has not returned. An id is an unbounded integer: the code
-- only compares and prints its ids. A connection of a pool is a number.
--
-- Servers are parameters. A call of one gives the next state and a result, or the next state and an
-- exception; nothing is assumed about it unless a theorem takes a law, such as FriendTable, MessageTable,
-- Serves, HashTable, ListTable, SubscriberLaws or Connected, which say what MySQL and Redis document, or
-- JsonLaws, which says that a JSON value reads as what was assigned and survives dump and parse.
--
-- Fuel. The loop of OfflineMessage::insert runs on fuel, which counts its rounds: four are enough
-- without a connection, one where the database takes the messages. Where statements throw no fuel is
-- enough, which is a theorem. The other loops follow lists or counters.
--
-- The subscriber thread is given the turns of its loop: what was asked for during a call of consume,
-- how the call ended, and what an error of redis++ made of the subscriber. Where client and server meet, a text is
-- read alone and whole, as one read on the socket may give it; what else TCP makes of texts is left out.
--
-- Not modelled: the locks of the service, whose handlers are single steps; times to live, which take
-- effect later; logs and sleeps; muduo's event loop and its threads, and the signal that ends the
-- server; the terminal and the sockets of the client, and what its help prints; a copy of
-- nlohmann::json under thirdparty; the test programs.
pub mod Prelude
pub mod External
pub mod MysqlPool
pub mod Model
pub mod RedisPool
pub mod RedisClient
pub mod ChatService
pub mod Client
pub mod Wire
pub mod Config
pub mod Server
pub mod Tests
