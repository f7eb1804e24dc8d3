-- ===== src/GraphQl/Handling.antt =====
-- cmd/api-firewall/internal/handlers/graphql/httpHandler.go: the handler of GraphQL mode. The
-- parsing of the request, the WebSocket proxying and the texts of the errors are parameters; logging
-- is left out. A panic in one of the goroutines that validate, which ends the process, is the
-- outcome `panicked`, and any other result does not depend on their order.
pub mod Blocking
use api_firewall.Base.{
  ℕ, Bool, true, false, ◌&&◌, ◌||◌, not, Option, none, some, List, [], ◌∷◌, Str, bytes, str_eq,
  equal_fold, exists, length, ltb, ◌==◌, if◌then◌else◌,
}
use api_firewall.Web.{
  Http, Error, Outcome, returned, panicked, Ctx, Handler, respond_error, validation_disable,
  validation_block,
}
use api_firewall.Mid.{respond_graphql_errors}
use api_firewall.Pool.{PoolV2, Client, perform}
use api_firewall.GraphQl.{
  GraphQlConfig, Query, Stop, invalid, failed, crashed, validate_graphql_request,
}

pub record GraphQlMode : Type 0 where
  pub graphql : GraphQlConfig
  pub request_validation : Str
  pub batch_query_limit : ℕ
  pub request_host_header : Str

module _ (h : Http) where
  pub record GraphQlServices : Type 0 where
    pub pool : PoolV2
    pub client : Client h
    pub server_path : Str
    pub set_path : h.Request → Str → h.Request
    pub is_websocket_upgrade : h.Request → Bool
    pub handle_web_socket_proxy : Handler h
    pub query_argument : h.Request → Str
    pub parse_graphql_request : h.Request → Option (List Query)
    pub invalid_query : Str  -- the JSON of the error
    pub network_connection : Str

  module _ (cfg : GraphQlMode) (s : GraphQlServices) where
    unfoldable pub is_block : Bool
    is_block = equal_fold cfg.request_validation validation_block

    settle_proxy : Ctx h × Option Error → Ctx h × Outcome
    settle_proxy (c, none) = (c, returned none)
    settle_proxy (c, some e) = (
      record c {
        response = respond_graphql_errors h (h.set_status c.response 500) s.network_connection;
      },
      returned none,
    )

    unfoldable pub proxied : Ctx h → Ctx h × Outcome
    unfolding settle_proxy
    proxied c = settle_proxy (perform h s.pool s.client cfg.request_host_header c)

    respond_invalid : Ctx h → Ctx h × Outcome
    respond_invalid c =
        (record c { response = respond_graphql_errors h c.response s.invalid_query }, returned none)

    -- A result that is not valid and has no errors is passed over.
    is_objection : Option Stop → Bool
    is_objection none = false
    is_objection (some (invalid none)) = false
    is_objection (some (invalid (some rs))) = true
    is_objection (some failed) = true
    is_objection (some crashed) = false

    is_crash : Option Stop → Bool
    is_crash (some crashed) = true
    is_crash _ = false

    check_queries : Ctx h → List Query → Ctx h × Outcome
    unfolding is_objection is_crash respond_invalid is_block
    check_queries c qs =
        if exists (λ q. is_crash (validate_graphql_request cfg.graphql q)) qs
        then (c, panicked)
        else if exists (λ q. is_objection (validate_graphql_request cfg.graphql q)) qs && is_block
        then respond_invalid c
        else proxied c

    is_over_limit : List Query → Bool
    is_over_limit qs = ltb 0 cfg.batch_query_limit && ltb cfg.batch_query_limit (length qs)

    check_batch : Ctx h → List Query → Ctx h × Outcome
    unfolding check_queries respond_invalid is_over_limit is_block
    check_batch c qs =
        if is_over_limit qs && is_block then respond_invalid c else check_queries c qs

    -- With an error there are no queries.
    settle_parse : Ctx h → Option (List Query) → Ctx h × Outcome
    unfolding check_batch respond_invalid is_block
    settle_parse c none = if is_block then respond_invalid c else check_batch c []
    settle_parse c (some qs) = check_batch c qs

    unfoldable pub lacks_json : h.Request → Bool
    lacks_json r =
        str_eq (h.method r) (bytes "POST")
        && not (equal_fold (h.content_type r) (bytes "application/json"))

    unfoldable pub lacks_query : h.Request → Bool
    lacks_query r = str_eq (h.method r) (bytes "GET") && length (s.query_argument r) == 0

    serve_http : Ctx h → Ctx h × Outcome
    unfolding settle_parse lacks_json lacks_query
    serve_http c =
        if lacks_json c.request
        then (respond_error h c 403 [], returned none)
        else if lacks_query c.request
        then (
          record c {
            response = respond_graphql_errors h (h.set_status c.response 400) s.invalid_query;
          },
          returned none,
        )
        else if equal_fold cfg.request_validation validation_disable
        then proxied c
        else settle_parse c (s.parse_graphql_request c.request)

    unfoldable pub at_server_path : Ctx h → Ctx h
    at_server_path c = record c { request = s.set_path c.request s.server_path }

    -- `GraphQLHandle`
    unfoldable pub graphql_handle : Handler h
    unfolding serve_http at_server_path
    graphql_handle c =
        let moved = at_server_path c in
        if s.is_websocket_upgrade moved.request
        then s.handle_web_socket_proxy moved
        else serve_http moved
