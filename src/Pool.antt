-- ===== src/Pool.antt =====
-- internal/platform/proxy/pool_v2.go and proxy.go: the pool in front of the backends, and sending
-- one request to it. The resolver, address parsing, the TLS files and the HTTP client are
-- parameters; the options of the client that only tune connections are left out.
pub mod Lifecycle
pub mod Sending
use api_firewall.Base.{
  ℕ, ◌+◌, Bool, true, false, ◌||◌, Option, none, some, List, [], ◌∷◌, ◌++◌, Str, bytes, str_eq,
  exists, length, ◌==◌, if◌then◌else◌,
}
use api_firewall.Web.{
  Http, Error, dial_timeout, no_free_conns, pool_closed, no_backends, invalid_options, message, Ctx,
  respond_error,
}
use api_firewall.Balancer.{
  LoadBalancer, new_load_balancer, next, stop, get_backends, get_healthy_count,
}

pub record PoolV2 : Type 0 where
  pub lb : LoadBalancer
  pub closed : Bool
  pub idle_closes : ℕ  -- calls of CloseIdleConnections
  pub host : Str
  pub port : Str
  pub host_port : Str

pub record PoolV2Options : Type 0 where
  pub insecure_connection : Bool
  pub root_ca : Str
  pub backends : List Str
  pub health_check_interval : ℕ
  pub dial_timeout : ℕ

-- An address, with the text of its IPv4 and of its IPv6 form, where it has one.
pub record Ip : Type 0 where
  pub v4 : Option Str
  pub v6 : Option Str

pub record Net : Type 0 where
  pub split_host_port : Str → Option (Str × Str)
  pub lookup_ip : Str → Option (List Ip)
  pub build_tls : Bool → Str → Bool  -- whether the TLS configuration can be built

pub data Result {ℓ} (A : Type ℓ) : Type ℓ where
  ok : A → Result A
  err : Error → Result A

-- `net.JoinHostPort`
unfoldable pub join_host_port : Str → Str → Str
join_host_port host port =
    if exists (λ b. b == b':' || b == b'%') host
    then bytes "[" ++ (host ++ (bytes "]:" ++ port))
    else host ++ (bytes ":" ++ port)

cons_some : Option Str → Str → List Str → List Str
cons_some none port bs = bs
cons_some (some ip) port bs = join_host_port ip port ∷ bs

v4_backends : Str → List Ip → List Str
unfolding cons_some
v4_backends port [] = []
v4_backends port (ip ∷ ips) = cons_some ip.v4 port (v4_backends port ips)

v6_backends : Str → List Ip → List Str
unfolding cons_some
v6_backends port [] = []
v6_backends port (ip ∷ ips) = cons_some ip.v6 port (v6_backends port ips)

or_else : List Str → List Str → List Str
or_else [] bs = bs
or_else (a ∷ as') bs = a ∷ as'

-- All IPv4 addresses; if none, all IPv6 addresses; if none, the host as it was given.
resolved : Str → Str → List Ip → List Str
unfolding v4_backends v6_backends or_else
resolved host_addr port ips =
    or_else (v4_backends port ips) (or_else (v6_backends port ips) (host_addr ∷ []))

make_pool : PoolV2Options → Str → Str → List Str → PoolV2
make_pool o host port backends = record {
  lb = new_load_balancer backends o.health_check_interval o.dial_timeout;
  closed = false;
  idle_closes = 0;
  host = host;
  port = port;
  host_port = join_host_port host port;
}

single_backend : Net → Str → PoolV2Options → Str → Str → Result PoolV2
unfolding make_pool resolved
single_backend net host_addr o host port = elim (net.lookup_ip host) [
  | none ↦ err (message (bytes "failed to resolve host"))
  | some ips ↦ ok (make_pool o host port (resolved host_addr port ips))
]

build : Net → Str → PoolV2Options → Str × Str → Result PoolV2
unfolding make_pool single_backend
build net host_addr o (host, port) =
    if net.build_tls o.insecure_connection o.root_ca
    then (if length o.backends == 0
        then single_backend net host_addr o host port
        else ok (make_pool o host port o.backends))
    else err (message (bytes "failed to build TLS config"))

with_options : Net → Str → PoolV2Options → Result PoolV2
unfolding build
with_options net host_addr o = elim (net.split_host_port host_addr) [
  | none ↦ err (message (bytes "invalid host address"))
  | some hp ↦ build net host_addr o hp
]

unfoldable pub new_pool_v2 : Net → Str → Option PoolV2Options → Result PoolV2
unfolding with_options
new_pool_v2 net host_addr none = err invalid_options
new_pool_v2 net host_addr (some o) = with_options net host_addr o

-- What the client's dial function ends with; `crash` is a panic of `Next`.
pub data Dialled : Type 0 where
  dialled : Str → Dialled
  no_backend : Dialled
  crash : Dialled

dial_to : Option Str → Dialled
dial_to none = crash
dial_to (some []) = no_backend
dial_to (some (b ∷ backend)) = dialled (b ∷ backend)

unfoldable pub dial : PoolV2 → PoolV2 × Dialled
unfolding dial_to
dial p = let (lb', b) = next p.lb in (record p { lb = lb' }, dial_to b)

unfoldable pub get : PoolV2 → Result Str
get p = if p.closed then err pool_closed else ok p.host_port

-- `Put` does nothing.
unfoldable pub put : PoolV2 → Str → PoolV2
put p ip = p

unfoldable pub close : PoolV2 → PoolV2
close p =
    if p.closed
    then p
    else record p { closed = true; lb = stop p.lb; idle_closes = p.idle_closes + 1 }

module _ (h : Http) where
  -- `client.Do`: the response it leaves, and its error
  pub record Client : Type 0 where
    pub do_request : h.Request → h.Response → h.Response × Option Error

  error_status : Error → ℕ
  error_status dial_timeout = 504
  error_status no_free_conns = 503
  error_status _ = 502

  unfoldable pub set_host : Str → h.Request → h.Request
  set_host [] r = r
  set_host (b ∷ host) r = h.set_uri_host (h.set_host_header r (b ∷ host)) (b ∷ host)

  settle_do : Ctx h → h.Response × Option Error → Ctx h × Option Error
  unfolding error_status
  settle_do c (r, none) = (record c { response = r }, none)
  settle_do c (r, some e) =
      let failed : Ctx h = record c {
        response = r;
        values = record (c.values) { request_proxy_failed = some true };
      } in
      (respond_error h failed (error_status e) [], some e)

  -- The request is sent: it joins the requests that the backend was sent.
  send : Client → Str → Ctx h → Ctx h × Option Error
  unfolding set_host settle_do
  send client custom_host c =
      let r = set_host custom_host c.request in
      settle_do (record c { request = r; upstream = r ∷ c.upstream })
        (client.do_request r c.response)

  with_client : Client → Str → Ctx h → Result Str → Ctx h × Option Error
  unfolding send
  with_client client custom_host c (err e) = (c, some e)
  with_client client custom_host c (ok ip) = send client custom_host c

  -- `Perform`
  unfoldable pub perform : PoolV2 → Client → Str → Ctx h → Ctx h × Option Error
  unfolding with_client get put
  perform pool client custom_host c = with_client client custom_host c (get pool)
