-- ===== src/Mid/Hops.antt =====
-- internal/mid/proxy.go: the rewriting of a request on its way to the backend, and of the response
-- on its way back.
pub mod Removing
use api_firewall.Base.{
  ◌≡◌, refl, subst, ap, ◌∙◌, sym, Bool, true, false, ◌&&◌, ◌||◌, Option, none, some, List, [], ◌∷◌,
  ◌++◌, Str, bytes, str_eq, str_eq_refl, to_lower, equal_fold, Option-cases, ◌⊎◌, if◌then◌else◌,
  All, Bool-cases, inl, inr, arith,
}
use api_firewall.Web.{Http, Outcome, returned, panicked, Ctx, Handler, Middleware, validation_block}
use api_firewall.Mid.{graphql_mode}

abbrev pub apifw_header_name : Str
apifw_header_name = bytes "APIFW-Request-Id"

abbrev pub hop_headers : List Str
hop_headers =
    bytes "Connection"
    ∷ bytes "Proxy-Connection"
    ∷ bytes "Keep-Alive"
    ∷ bytes "Proxy-Authenticate"
    ∷ bytes "Proxy-Authorization"
    ∷ bytes "Te"
    ∷ bytes "Trailer"
    ∷ bytes "Transfer-Encoding"
    ∷ bytes "Upgrade"
    ∷ []

abbrev pub ac_header : Str
ac_header = bytes "Accept-Encoding"

abbrev pub xff_header : Str
xff_header = bytes "X-Forwarded-For"

pub record ProxyOptions : Type 0 where
  pub mode : Str
  pub request_validation : Str
  pub delete_accept_encoding : Bool
  pub server_scheme : Str
  pub server_host : Str

is_websocket : Option Str → Bool
is_websocket none = false
is_websocket (some v) = equal_fold v (bytes "websocket")

-- `skip (not delete) ws required headers`
is_kept : Str → Bool → Option Str → Str → Bool
unfolding is_websocket
is_kept mode upgrade value k =
    str_eq mode graphql_mode
    && (str_eq k (bytes "Connection") && upgrade
        || str_eq k (bytes "Upgrade") && is_websocket value)

module _ (h : Http) where
  delete_hops : Str → List Str → h.Request → h.Request
  unfolding is_kept
  delete_hops mode [] r = r
  delete_hops mode (k ∷ ks) r = delete_hops mode ks (
      if is_kept mode (h.connection_upgrade r) (h.peek r (bytes "Upgrade")) k
      then r
      else h.del_header r k)

  delete_resp_hops : Str → List Str → h.Response → h.Response
  unfolding is_kept
  delete_resp_hops mode [] r = r
  delete_resp_hops mode (k ∷ ks) r = delete_resp_hops mode ks (
      if is_kept mode (h.resp_connection_upgrade r) (h.resp_peek r (bytes "Upgrade")) k
      then r
      else h.del_resp_header r k)

  update_uri : ProxyOptions → h.Request → h.Request
  update_uri o r =
      let r' = if str_eq o.server_scheme (h.scheme r) then r else h.set_scheme r o.server_scheme in
      if str_eq o.server_host (h.host r') then r' else h.set_uri_host r' o.server_host

  -- `ctx.RemoteIP().String()`, which is 0.0.0.0 where the peer has no IP address
  remote_ip : Ctx h → Str
  remote_ip c = elim (c.remote_ip) [ none ↦ bytes "0.0.0.0" | some ip ↦ ip ]

  forward : Str → h.Request → h.Request
  forward ip r = elim (h.peek r xff_header) [
    | none ↦ h.set_header r xff_header ip
    | some value ↦ h.set_header r xff_header (value ++ (bytes ", " ++ ip))
  ]

  accept : ProxyOptions → h.Request → h.Request
  accept o r = if o.delete_accept_encoding then h.del_header r ac_header else r

  -- The request as the next handler gets it, once its id is added.
  rewrite : ProxyOptions → Str → h.Request → h.Request
  unfolding update_uri forward accept
  rewrite o ip r = accept o (forward ip (update_uri o r))

  settle_hops : Str → Ctx h × Outcome → Ctx h × Outcome
  unfolding delete_resp_hops
  settle_hops mode (c, returned e) =
      (record c { response = delete_resp_hops mode hop_headers c.response }, returned e)
  settle_hops mode (c, panicked) = (c, panicked)

  go_on : ProxyOptions → Handler h → Ctx h → h.Request → Ctx h × Outcome
  unfolding rewrite settle_hops remote_ip
  go_on o before c r =
      settle_hops o.mode (before (record c { request = rewrite o (remote_ip c) r }))

  -- The type assertion on a missing request id panics.
  identify : ProxyOptions → Handler h → Ctx h → h.Request → Option Str → Ctx h × Outcome
  unfolding go_on
  identify o before c r none = (record c { request = r }, panicked)
  identify o before c r (some id) = go_on o before c (h.add_header r apifw_header_name id)

  -- `Proxy`
  unfoldable pub proxy : ProxyOptions → Middleware h
  unfolding delete_hops go_on identify
  proxy o before c =
      let r = delete_hops o.mode hop_headers c.request in
      if equal_fold o.request_validation validation_block
      then identify o before c r c.values.request_id
      else go_on o before c r
