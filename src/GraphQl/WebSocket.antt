-- ===== src/GraphQl/WebSocket.antt =====
-- cmd/api-firewall/internal/handlers/graphql/wsHandler.go and internal/platform/proxy/ws.go: the
-- messages of a WebSocket client. What fastjson reads from a message is the parameter `parse`, and
-- whether the backend connection takes a message after others is the parameter `accepts`; a reply
-- to the client that cannot be written is only logged. The end of a session is WebSocket/Session.
pub mod Copies
pub mod Forwarding
pub mod Session
use api_firewall.Base.{
  ℕ, Bool, true, false, ◌&&◌, ◌||◌, not, Option, none, some, List, [], ◌∷◌, ◌++◌, Str, bytes,
  str_eq, equal_fold, length, ◌==◌, if◌then◌else◌,
}
use api_firewall.Web.{
  Http, Ctx, Handler, Outcome, respond_error, validation_disable, validation_block, validation_log,
}
use api_firewall.GraphQl.{Query, Reason, Stop, invalid, failed, crashed, validate_graphql_request}
use api_firewall.GraphQl.Handling.{GraphQlMode}

abbrev pub text_message : ℕ
text_message = 1

abbrev pub binary_message : ℕ
binary_message = 2

-- A message with its type.
pub record Frame : Type 0 where
  pub message_type : ℕ
  pub payload : Str

-- What is read from a message that can be parsed; `request` is made of its payload.
pub record GqlMessage : Type 0 where
  pub msg_type : Str
  pub msg_id : Str
  pub request : Query

pub data ReplyError : Type 0 where
  invalid_graphql_request : ReplyError
  validation_errors : Option (List Reason) → ReplyError

-- `SendError` and `SendComplete`; the id is written into the second as it is.
pub data Reply : Type 0 where
  error_reply : ℕ → Str → ReplyError → Reply
  complete_reply : ℕ → Str → Reply

unfoldable pub send_complete : ℕ → Str → Reply
send_complete message_type id =
    complete_reply message_type ((bytes "{\"id\":\"" ++ id) ++ bytes "\",\"type\":\"complete\"}")

-- The client's loop goes on, has returned, or has panicked, which ends the process.
pub data Activity : Type 0 where
  reading : Activity
  returned : Activity
  panicked : Activity

pub record Proxying : Type 0 where
  pub sent : List Frame  -- what the backend was sent, the first message first
  pub replies : List Reply
  pub activity : Activity

-- What reading from the client gives.
pub data Read : Type 0 where
  read_error : Read
  message : Frame → Read

-- Validation is off, the message is empty, or it is neither text nor binary.
unfoldable pub is_passed_over : GraphQlMode → Frame → Bool
is_passed_over cfg m =
    equal_fold cfg.request_validation validation_disable
    || length m.payload == 0
    || not (m.message_type == text_message) && not (m.message_type == binary_message)

unfoldable pub has_no_payload : GqlMessage → Bool
has_no_payload msg =
    not (str_eq msg.msg_type (bytes "subscribe")) && not (str_eq msg.msg_type (bytes "start"))

module _ (cfg : GraphQlMode) (parse : Str → Option GqlMessage)
    (accepts : List Frame → Frame → Bool) where
  write_backend : Proxying → Frame → Proxying
  write_backend s m =
      if accepts s.sent m
      then record s { sent = s.sent ++ m ∷ [] }
      else record s { activity = returned }

  settle_unparsed : Proxying → Frame → Proxying
  unfolding write_backend
  settle_unparsed s m =
      if equal_fold cfg.request_validation validation_log then write_backend s m else s

  refuse : Proxying → Frame → GqlMessage → ReplyError → Proxying
  unfolding send_complete
  refuse s m msg e = record s {
    replies =
        s.replies
        ++ error_reply m.message_type msg.msg_id e ∷ send_complete m.message_type msg.msg_id ∷ [];
  }

  write_again : Activity → Proxying → Frame → Proxying
  unfolding write_backend
  write_again reading s m = write_backend s m
  write_again returned s m = s
  write_again panicked s m = s

  -- Out of block mode a message whose validation returned an error is written, and then goes on
  -- to the test of the result, which is not valid, and is written again.
  settle_validation : Proxying → Frame → GqlMessage → Option Stop → Proxying
  unfolding write_backend refuse write_again
  settle_validation s m msg none = write_backend s m
  settle_validation s m msg (some (invalid errors)) =
      if equal_fold cfg.request_validation validation_block
      then refuse s m msg (validation_errors errors)
      else write_backend s m
  settle_validation s m msg (some failed) =
      let written = write_backend s m in
      if equal_fold cfg.request_validation validation_block
      then refuse s m msg invalid_graphql_request
      else write_again written.activity written m
  settle_validation s m msg (some crashed) = record s { activity = panicked }

  settle_parsed : Proxying → Frame → Option GqlMessage → Proxying
  unfolding settle_unparsed has_no_payload settle_validation write_backend
  settle_parsed s m none = settle_unparsed s m
  settle_parsed s m (some msg) =
      if has_no_payload msg
      then write_backend s m
      else settle_validation s m msg (validate_graphql_request cfg.graphql msg.request)

  on_message : Proxying → Frame → Proxying
  unfolding is_passed_over settle_parsed write_backend
  on_message s m =
      if is_passed_over cfg m then write_backend s m else settle_parsed s m (parse m.payload)

  on_read : Activity → Proxying → Read → Proxying
  unfolding on_message
  on_read reading s read_error = record s { activity = returned }
  on_read reading s (message m) = on_message s m
  on_read returned s r = s
  on_read panicked s r = s

  -- The loop of `HandleWebSocketProxy` over what the client's connection gives.
  unfoldable pub client_loop : List Read → Proxying → Proxying
  unfolding on_read
  client_loop [] s = s
  client_loop (r ∷ rs) s = client_loop rs (on_read s.activity s r)

-- The headers that go with the connection to the backend: those of the request that are not empty.
forward_one : Str → Option Str → List (Str × Str)
forward_one name none = []
forward_one name (some []) = []
forward_one name (some (b ∷ value)) = (name, b ∷ value) ∷ []

module _ (h : Http) where
  -- `builtinForwardHeaderHandler`
  unfoldable pub builtin_forward_header_handler : h.Request → List (Str × Str)
  unfolding forward_one
  builtin_forward_header_handler r =
      forward_one (bytes "Origin") (h.peek r (bytes "Origin"))
      ++ forward_one (bytes "Cookie") (h.peek r (bytes "Cookie"))

  -- What the connection to the backend gives: the context with the backend's response copied, or an
  -- error, and the upgrade of the client's connection, in which the session runs.
  pub record Connections : Type 0 where
    pub dial : List (Str × Str) → Ctx h → Ctx h × Bool
    pub upgrade : Ctx h → Ctx h

  module _ (connections : Connections) where
    settle_conn : Ctx h × Bool → Ctx h × Outcome
    settle_conn (c, false) = (respond_error h c 503 [], Outcome.returned none)
    settle_conn (c, true) = (connections.upgrade c, Outcome.returned none)

    -- `HandleWebSocketProxy`; an error of the upgrade is only logged.
    unfoldable pub handle_web_socket_proxy : Handler h
    unfolding settle_conn builtin_forward_header_handler
    handle_web_socket_proxy c =
        settle_conn (connections.dial (builtin_forward_header_handler c.request) c)
