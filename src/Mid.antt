-- ===== src/Mid.antt =====
-- internal/mid: the middleware around the handlers. What a middleware only logs is left out.
-- The caches of the IP allowlist and the token denylist are lookups, and `parse_ip` is
-- `net.ParseIP` followed by `String`.
pub mod Access
pub mod Recovery
pub mod Hops
use api_firewall.Base.{
  ℕ, ◌+◌, ◌<◌, Bool, true, false, not, ◌&&◌, ◌||◌, Option, none, some, is_some, List, [], ◌∷◌, ◌++◌,
  Str, bytes, str_eq, to_lower, equal_fold, trim_prefix, trim_space, split_first, exists, ltb, ◌==◌,
  if◌then◌else◌,
}
use api_firewall.Web.{
  Http, Error, shutdown_error, message, is_shutdown, Actions, UserValues, Outcome, returned,
  panicked, Ctx, Handler, Middleware, respond_error, validation_block,
}

abbrev pub internal_server_error : ℕ
internal_server_error = 500

abbrev pub api_mode : Str
api_mode = bytes "api"

abbrev pub graphql_mode : Str
graphql_mode = bytes "graphql"

abbrev pub x_forwarded_for : Str
x_forwarded_for = bytes "x-forwarded-for"

pub record IpAllowListOptions : Type 0 where
  pub mode : Str
  pub header_name : Str
  pub custom_block_status_code : ℕ
  pub loaded : Bool  -- `AllowedIPs` is not nil
  pub elements_num : ℕ
  pub cached : Str → Bool
  pub parse_ip : Str → Option Str
  pub denied_text : Str  -- errAccessDeniedIP as GraphQL errors

text_or_empty : Option Str → Str
text_or_empty none = []
text_or_empty (some s) = s

unfoldable pub allowed : IpAllowListOptions → Option Str → Bool
allowed o none = false
allowed o (some ip) = o.cached ip

pub record DenylistOptions : Type 0 where
  pub mode : Str
  pub cookie_name : Str
  pub header_name : Str
  pub trim_bearer_prefix : Bool
  pub custom_block_status_code : ℕ
  pub loaded : Bool  -- `DeniedTokens` is not nil
  pub elements_num : ℕ
  pub cached : Str → Bool
  pub denied_text : Str  -- errAccessDenied as GraphQL errors

abbrev pub is_set : Option Bool → Bool
is_set none = false
is_set (some b) = b

module _ (h : Http) where
  settle_errors : Ctx h × Outcome → Ctx h × Outcome
  settle_errors (c, returned none) = (c, returned none)
  settle_errors (c, returned (some e)) = (
    respond_error h c internal_server_error [],
    returned (if is_shutdown e then some e else none),
  )
  settle_errors (c, panicked) = (c, panicked)

  -- `Errors`
  unfoldable pub errors : Middleware h
  unfolding settle_errors
  errors before c = settle_errors (before c)

  settle_panics : Ctx h × Outcome → Ctx h × Outcome
  settle_panics (c, returned e) = (c, returned e)
  settle_panics (c, panicked) = (c, returned (some (message (bytes "panic"))))

  -- `Panics`
  unfoldable pub panics : Middleware h
  unfolding settle_panics
  panics after c = settle_panics (after c)

  -- `RespondGraphQLErrors`, with `text` the JSON of the errors.
  unfoldable pub respond_graphql_errors : h.Response → Str → h.Response
  respond_graphql_errors r text =
      h.write_body (h.set_resp_header r (bytes "Content-Type") (bytes "application/json")) text

  -- The address to check: the peer's, or a header.
  unfoldable pub ip_to_check : IpAllowListOptions → Ctx h → Str
  unfolding text_or_empty
  ip_to_check o c =
      let name = to_lower o.header_name in
      trim_space (
        if str_eq name []
        then text_or_empty c.remote_ip
        else if str_eq name x_forwarded_for
        then split_first (text_or_empty (h.peek c.request o.header_name)) b','
        else text_or_empty (h.peek c.request o.header_name))

  -- The answer to a request that is not allowed, by the mode.
  deny_ip : IpAllowListOptions → Ctx h → Ctx h × Outcome
  unfolding respond_graphql_errors
  deny_ip o c =
      if str_eq o.mode api_mode
      then (
        record c {
          values = record (c.values) {
            global_response_status_code = some o.custom_block_status_code;
          };
        },
        returned none,
      )
      else if str_eq o.mode graphql_mode
      then (
        record c {
          response =
              respond_graphql_errors (h.set_status c.response o.custom_block_status_code)
                o.denied_text;
        },
        returned none,
      )
      else (respond_error h c o.custom_block_status_code [], returned none)

  -- `IPAllowlist`
  unfoldable pub ip_allowlist : IpAllowListOptions → Middleware h
  unfolding ip_to_check deny_ip allowed
  ip_allowlist o before c =
      if o.loaded && ltb 0 o.elements_num
      then (if allowed o (o.parse_ip (ip_to_check o c)) then before c else deny_ip o c)
      else before c

  deny_token : DenylistOptions → Ctx h → Ctx h × Outcome
  unfolding respond_graphql_errors
  deny_token o c =
      if equal_fold o.mode graphql_mode
      then (
        record c {
          response =
              respond_graphql_errors (h.set_status c.response o.custom_block_status_code)
                o.denied_text;
        },
        returned none,
      )
      else (respond_error h c o.custom_block_status_code [], returned none)

  unfoldable pub cookie_denied : DenylistOptions → Ctx h → Bool
  cookie_denied o c = not (str_eq o.cookie_name []) && o.cached (h.cookie c.request o.cookie_name)

  header_token : DenylistOptions → Ctx h → Str
  unfolding text_or_empty
  header_token o c =
      let token = text_or_empty (h.peek c.request o.header_name) in
      if o.trim_bearer_prefix then trim_prefix token (bytes "Bearer ") else token

  unfoldable pub header_denied : DenylistOptions → Ctx h → Bool
  unfolding header_token
  header_denied o c = not (str_eq o.header_name []) && o.cached (header_token o c)

  -- `Denylist`
  unfoldable pub denylist : DenylistOptions → Middleware h
  unfolding deny_token cookie_denied header_denied
  denylist o before c =
      if o.loaded && ltb 0 o.elements_num
      then (if cookie_denied o c
          then deny_token o c
          else if header_denied o c
          then deny_token o c
          else before c)
      else before c

  -- The check of `ShadowAPIMonitor` after the handler; the log entry is counted.
  monitor : List ℕ → Ctx h → Ctx h
  monitor exclude c =
      if is_set c.values.request_proxy_failed
      then c
      else if is_set c.values.request_blocked
      then c
      else if is_set c.values.response_status_not_found
          && not (exists (λ code. code == h.status_code c.response) exclude)
      then record c { shadow = c.shadow + 1 }
      else c

  settle_shadow : List ℕ → Ctx h × Outcome → Ctx h × Outcome
  unfolding monitor
  settle_shadow exclude (c, returned e) = (monitor exclude c, returned e)
  settle_shadow exclude (c, panicked) = (c, panicked)

  -- `ShadowAPIMonitor`
  unfoldable pub shadow_api_monitor : List ℕ → Middleware h
  unfolding settle_shadow
  shadow_api_monitor exclude before c = settle_shadow exclude (before c)
