-- ===== src/Router/Routes.antt =====
-- src/router.rs, app_router: the table of routes, and which handler a request is for.
use myx_im.Base.{ℕ, String, Bool, true, false, ◌⊎◌, inl, inr, List, [], ◌∷◌, same, if◌then◌else◌}

-- A request: its method and path, and the rest of it, which only the extractors of axum read.
pub data Method : Type 0 where
  get : Method
  post : Method
  head : Method
  other : Method

pub record Request (R : Type 0) : Type 0 where
  pub method : Method
  pub path : String
  pub rest : R

-- The handlers by name.
pub data Endpoint : Type 0 where
  index : Endpoint
  debug : Endpoint
  websocket : Endpoint
  user_register : Endpoint
  user_login : Endpoint
  user_logout : Endpoint
  user_delete : Endpoint
  message_history : Endpoint
  conversation_list : Endpoint
  user_search : Endpoint
  group_create : Endpoint
  group_join : Endpoint
  group_leave : Endpoint
  group_list : Endpoint
  group_search : Endpoint
  group_members : Endpoint
  group_history : Endpoint
  friend_add : Endpoint
  friend_list : Endpoint

-- `.route(path, get(handler))` and `.route(path, post(handler))`
pub record Route : Type 0 where
  pub path : String
  pub method : Method
  pub endpoint : Endpoint

abbrev pub route : String → Method → Endpoint → Route
route path method endpoint = record { path = path; method = method; endpoint = endpoint }

abbrev pub routes : List Route
routes =
    route "/" get index
    ∷ route "/im/ws" get websocket
    ∷ route "/api/user/register" post user_register
    ∷ route "/api/user/login" post user_login
    ∷ route "/api/user/logout" post user_logout
    ∷ route "/api/user/delete" post user_delete
    ∷ route "/api/message/history" get message_history
    ∷ route "/api/conversations" get conversation_list
    ∷ route "/api/user/search" get user_search
    ∷ route "/api/group/create" post group_create
    ∷ route "/api/group/join" post group_join
    ∷ route "/api/group/leave" post group_leave
    ∷ route "/api/group/list" get group_list
    ∷ route "/api/group/search" get group_search
    ∷ route "/api/group/members" get group_members
    ∷ route "/api/group/history" get group_history
    ∷ route "/api/friend/add" post friend_add
    ∷ route "/api/friend/list" get friend_list
    ∷ route "/debug" get debug
    ∷ []

-- A route for GET answers HEAD too.
abbrev pub accepts : Method → Method → Bool
accepts get get = true
accepts get head = true
accepts post post = true
accepts _ _ = false

abbrev pub find_route : List Route → Method → String → ℕ ⊎ Endpoint
find_route [] method path = inl 404
find_route (r ∷ rs) method path =
    let others = find_route rs method path in
    if same r.path path
    then (if accepts r.method method then inr r.endpoint else inl 405)
    else others
