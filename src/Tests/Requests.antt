-- ===== src/Tests/Requests.antt =====
-- Requests to the server: the registration of Alice, her group, and requests for the history of group
-- 10, each as the extractors of axum may read it.
use myx_im.Base.{◌≡◌, [], ◌∷◌, map, ℕ, ◌≤◌, refl, String, Bool, true, false, inl, inr, none, some}
use myx_im.Base.Int.{pos}
use myx_im.Jwt.{Crypto, verify_token}
use myx_im.Service.{register_user}
use myx_im.Dao.Users.{save_user}
use myx_im.Dao.Groups.{create_group}
use myx_im.Router.Http.{user_register_handler, group_create_handler}
use myx_im.Router.App.{AppState}
use myx_im.Router.Ws.{handle_biz_msg}
use myx_im.Router.Routes.{Request, get, post, group_history}
use myx_im.Router.Serve.{Extract, Env, serve}
use myx_im.Router.Serve.Bounds.{page_size, page_size-serve}
use myx_im.Router.Serve.Tokens.{IsTurnedAway, serve-IsTurnedAway}
use myx_im.Router.Server.{started, Runs, here, then_next, serves, receives, falters}
use myx_im.Router.Server.Refinement.{Runs-Represents}
use myx_im.Dao.Graph.{Graph, Becomes, nobody, Represents}
use myx_im.Dao.Graph.Proper.{IsProper}
use myx_im.Router.Serve.Refusals.{serve-client_error}
use myx_im.Router.Serve.Privacy.{IsPrivate, serve-IsPrivate}
use myx_im.Router.Serve.{Reply, chats, conversations}
use myx_im.Router.Http.Privacy.{rows_of}
use myx_im.Router.Http.{conversations_handler}
use myx_im.Dao.Chat.{get_conversations}
use myx_im.Base.{List}
use myx_im.Router.Http.{message_history_handler}
use myx_im.Dao.Chat.{get_chat_history}
use myx_im.Dao.Groups.{join_group}
use myx_im.Router.Http.{group_join_handler}
use myx_im.Db.Statement.{healthy}
use myx_im.Router.Serve.{status_of}
use myx_im.Tests.Sockets.{both}
use myx_im.Tests.{db, crypto, config, json}
use myx_im.Tests.Pushes.{app}

-- Every body and query is read the same way.
abbrev pub extract : Extract ℕ
extract = record {
  register = λ r. inr (record { username = "alice"; password = "pw" });
  login = λ r. inr (record { username = "alice"; password = "pw" });
  delete = λ r. inr (record { token = "token" });
  add_friend = λ r. inr (record { token = "token"; peer_uid = 2 });
  create_group = λ r. inr (record { token = "token"; name = "club" });
  group_action = λ r. inr (record { token = "token"; group_id = 10 });
  token_query = λ r. inr (record { token = "token" });
  history_query = λ r. inr (record { token = "token"; peer_uid = 2; before = none; limit = none });
  search_query = λ r. inr (record { token = "token"; q = "bob"; limit = some (pos 1000) });
  group_query = λ r. inr (record { token = "token"; group_id = 10 });
  group_history_query =
      λ r. inr (record { token = "token"; group_id = 10; before = none; limit = some (pos 1000) });
  upgrade = λ r. inl 400;
  ws_query = λ r. inr (record { token = "token" });
}

abbrev pub text_order : String → String → Bool
text_order a b = true

-- Here every token is one of Bob's.
abbrev pub trusting : Crypto
trusting = record crypto {
  decode = λ secret now token. some (record { user_id = 2; exp = pos 90000; iat = 0 });
}

abbrev noon : Env
noon = record { secs = 43200; now = 0; fresh = 2 }

abbrev registration : Request ℕ
registration = record { method = post; path = "/api/user/register"; rest = 0 }

abbrev history : Request ℕ
history = record { method = get; path = "/api/group/history"; rest = 0 }

abbrev creation : Request ℕ
creation = record { method = post; path = "/api/group/create"; rest = 0 }

abbrev later : Env
later = record { secs = 43260; now = 60000000; fresh = 10 }

-- Alice registers as user 2, makes group 10, and sends something that is no message; then the
-- connection to the database fails, and her second group with it.
abbrev pub served :
    (s : AppState) × Runs extract json trusting config text_order text_order started s
served =
    let r = then_next (then_next here (serves noon registration)) (serves later creation) in
    let r2 = then_next (then_next r (receives 2 0 0 0 "?")) (falters (some "down" ∷ [])) in
    (_, then_next r2 (serves later creation))

her_group : map (λ m. m.group_id) served.0.pool.db.members ≡ 10 ∷ []
unfolding serve user_register_handler register_user save_user group_create_handler create_group
    verify_token handle_biz_msg
her_group = refl

Runs-Represents_example :
    (G : Graph) × Becomes nobody G × Represents G served.0.pool.db × IsProper G
Runs-Represents_example =
    Runs-Represents extract json trusting config text_order text_order served.1

page_size-serve_example :
    page_size (serve extract json trusting config text_order text_order noon history app).0 ≤ 100
page_size-serve_example =
    page_size-serve extract json trusting config text_order text_order noon history app

serve-IsTurnedAway_example :
    IsTurnedAway app (serve extract json crypto config text_order text_order noon history app)
unfolding verify_token
serve-IsTurnedAway_example =
    serve-IsTurnedAway extract json crypto config text_order text_order noon history app
      group_history refl refl (λ t e. refl)

-- Bob joins a group that he is a member of.
abbrev joining : Request ℕ
joining = record { method = post; path = "/api/group/join"; rest = 0 }

joined_before :
    status_of (serve extract json trusting config text_order text_order noon joining app).0 ≡ 409
unfolding serve group_join_handler join_group verify_token
joined_before = refl

serve-client_error_example :
    (serve extract json trusting config text_order text_order noon joining app).1.pool ≡ healthy db
unfolding serve group_join_handler join_group verify_token
serve-client_error_example =
    serve-client_error extract json trusting config text_order text_order db both.online noon
      joining refl

-- Bob asks for his messages with Alice, after she has written one to him.
abbrev with_alice : Extract ℕ
with_alice = record extract {
  history_query = λ r. inr (record { token = "token"; peer_uid = 1; before = none; limit = none });
}

abbrev exchange : Request ℕ
exchange = record { method = get; path = "/api/message/history"; rest = 0 }

abbrev written : AppState
written = record app {
  pool = record app.pool {
    db = record db {
      chat_messages =
          record {
            id = 7;
            from_uid = 1;
            to_uid = 2;
            content = "hi";
            msg_type = 0;
            created_at = 0;
            seen = false;
            client_msg_id = none;
          }
          ∷ [];
    };
  };
}

abbrev history_answer : Reply
history_answer =
    (serve with_alice json trusting config text_order text_order noon exchange written).0

abbrev overview : Request ℕ
overview = record { method = get; path = "/api/conversations"; rest = 0 }

abbrev overview_answer : Reply
overview_answer =
    (serve with_alice json trusting config text_order text_order noon overview written).0

abbrev shown : Reply → List String
shown (chats body) = map (λ i. i.content) (rows_of body.res.data_)
shown (conversations body) = map (λ i. i.last_msg) (rows_of body.res.data_)
shown _ = []

-- Both answers show him Alice's message.
his_message : (shown history_answer ≡ "hi" ∷ []) × (shown overview_answer ≡ "hi" ∷ [])
unfolding serve message_history_handler get_chat_history conversations_handler get_conversations
    verify_token
his_message = (refl, refl)

serve-IsPrivate_example :
    IsPrivate with_alice trusting config noon 0 written.pool.db.chat_messages overview_answer
serve-IsPrivate_example =
    serve-IsPrivate with_alice json trusting config text_order text_order noon overview written
