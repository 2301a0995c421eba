-- ===== src/Lib.antt =====
-- myx-im: an instant messenger with private chats, friends and groups, a server in Rust over
-- PostgreSQL. This library models its database operations, its accounts and tokens, its online users,
-- its WebSocket commands and its HTTP handlers.
--
-- A request comes in by src/router.rs. An HTTP handler verifies the token (src/jwt.rs) and calls one
-- operation of src/dao.rs or src/service.rs; a WebSocket command does the same for the user of its
-- connection. What another user should know goes through `send_to_user` of src/state.rs into the
-- channel of that user's connection, which a task of the connection writes to the client. A message
-- is stored first, so a user who is offline gets it at the next connect.
--
-- Files, with the code that each is about:
--   Base         lists, Boolean tests, integers, sorting, and outcomes that carry a state
--   Model        src/model.rs; Model/Wire has the messages of a WebSocket, Model/Requests what the
--                HTTP handlers take
--   Db           the tables of init.sql; Db/Statement what sqlx makes of them: statements that may
--                fail, and transactions; Db/Keeps and Db/Inversion have the lemmas on these
--   Dao/Users    src/dao.rs: save_user, find_user_by_username, search_users
--   Dao/Chat     src/dao.rs: private messages, their history, conversations, read cursors
--   Dao/Friends  src/dao.rs: add_friend, list_friends
--   Dao/Groups   src/dao.rs: groups and their members
--   Dao/GroupMessages  src/dao.rs: persist_group_message, the history and the unseen messages
--   Dao/GroupRead      src/dao.rs: mark_group_read_and_get_delta, upsert_group_read_cursor
--   Dao/Delete   src/dao.rs: delete_user
--   Dao/Select   the clauses that the statements share
--   Dao/Keeps    the interface of what every statement and so every operation of src/dao.rs keeps;
--                Dao/Integrity fills it with the keys and references of init.sql, Dao/Graph with an
--                abstract graph of users, groups, members and friends
--   Dao/Writes   src/dao.rs as its writing statements in any order, those of operations that interleave;
--                what the tables and the messages keep then
--   Dao/GroupRead/Tasks  src/dao.rs: mark_group_read_and_get_delta statement by statement, with the
--                calls of several readers on the way at once
--   Jwt          src/jwt.rs, and the record of src/config.rs; Jwt/Load has Config::load
--   Service      src/service.rs
--   State        src/state.rs
--   Router/App   the state that the handlers of src/router.rs share
--   Router/Ws    src/router.rs, handle_biz_msg
--   Router/Delta src/router.rs, the pushes after a group has been read
--   Router/Sync  src/router.rs, what a new connection is sent
--   Router/Socket  src/router.rs, handle_im_websocket as steps of its tasks
--   Router/Http  src/router.rs, the HTTP handlers
--   Router/Trim    src/router.rs, the trimmed name of a new group
--   Router/Routes  src/router.rs, app_router: the table of routes
--   Router/Serve   src/router.rs: from a request to its handler and its answer, and websocket_handler
--   Router/Server  the whole server: requests, commands, new connections and failing statements
--   Start        src/main.rs, with init_app_state of src/state.rs
--   Tests        a small database, a small server, and the theorems applied to them
-- A module below one of these proves what its name says.
--
-- The model:
--   A UUID is a number, a text a String, a time of the database a number of microseconds. A table is
--   a list of rows, the newest first; where SQL leaves an order open it is that of the list, and
--   where a HashMap does, that of the first occurrence. A BIGSERIAL is a counter that a conflict or a
--   violated reference advances too.
--   A pool is the database and a schedule that says which of the next statements fail; `healthy`
--   is the one where none does. An operation of src/dao.rs takes a pool to an outcome, a result or an
--   error, with the pool it leaves. A transaction that fails leaves the database it found.
--   NOW(), the clock and the new UUIDs are arguments. ILIKE and the collation of PostgreSQL,
--   jsonwebtoken and bcrypt (the record Crypto), and serde_json (the record Json) are parameters.
--   A frame is its command, its number and the JSON of its data. Limits and cursors of a request are
--   signed, and so is the lifetime of a token; ids, counts and times are numbers without a bound, so
--   their overflow is not modelled (of a sum of times neither, which panics).
--   Every function is by structural recursion; nothing runs on fuel.
--   In Router/Server two operations of src/dao.rs run one after the other. In Dao/Writes the writing
--   statements of any operations follow one another in any order; what they hold there was read at any
--   time before. In Dao/GroupRead/Tasks the statements of mark_group_read_and_get_delta interleave with
--   those of other calls and with messages that are sent, whose rows may become visible in another
--   order than that of their ids. A statement is atomic, and so is the
--   transaction of add_friend. The tasks of the connections interleave in Router/Socket.
--   The extractors of axum (`Json`, `Query`, `WebSocketUpgrade`) are a parameter, the record Extract:
--   the value, or the status of the refusal. A route for GET answers HEAD as well; that axum drops the
--   body of such an answer is not modelled. A path without a route is answered 404, a method without
--   one 405.
--
-- Not modelled: the contents of the pages; the options of the pool, the logging and the loop of axum in
-- src/main.rs, and the work of the crate dotenv, a parameter of Start; the handshake of a WebSocket; a
-- mutex that is poisoned; the examples, which adapt those of axum and of tokio-tungstenite; the tests
-- and the web clients.
pub mod Base
pub mod Model
pub mod Db
pub mod Dao
pub mod State
pub mod Jwt
pub mod Service
pub mod Router
pub mod Start
mod Tests
