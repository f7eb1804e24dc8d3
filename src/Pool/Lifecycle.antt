-- ===== src/Pool/Lifecycle.antt =====
-- Opening and closing the pool.
use api_firewall.Base.{
  ◌+◌, ◌<◌, ◌≡◌, refl, subst, ap, suc, replicate, true, false, Option, none, some, List, [], ◌∷◌,
  Str, length, arith, Bool-cases, Option-cases, inl, inr, ◌==◌,
}
use api_firewall.Web.{pool_closed}
use api_firewall.Balancer.{new_load_balancer, stop}
use api_firewall.Pool.{
  PoolV2, PoolV2Options, Ip, Net, Result, ok, err, new_pool_v2, with_options, build, single_backend,
  make_pool, resolved, or_else, v4_backends, v6_backends, get, close,
}

-- An open pool with at least one backend, each with its flag, and the stop channel open.
pub record IsOpen (p : PoolV2) : Type 0 where
  pub some_backend : 0 < length p.lb.backends
  pub matched : length p.lb.healthy ≡ length p.lb.backends
  pub open_pool : p.closed ≡ false
  pub running : p.lb.stopped ≡ false
  pub no_closes : p.lb.closes ≡ 0

abbrev Yields : (PoolV2 → Type 0) → Result PoolV2 → Type 0
Yields P (ok p) = P p
Yields P (err e) = Unit

length-replicate-true : (bs : List Str) → length (replicate (length bs) true) ≡ length bs
length-replicate-true [] = refl
length-replicate-true (b ∷ bs) = ap suc (length-replicate-true bs)

make_pool-IsOpen :
    (o : PoolV2Options) (host port : Str) (bs : List Str)
    → 0 < length bs
    → IsOpen (make_pool o host port bs)
unfolding make_pool new_load_balancer
make_pool-IsOpen o host port bs h = record {
  some_backend = h;
  matched = length-replicate-true bs;
  open_pool = refl;
  running = refl;
  no_closes = refl;
}

length-or_else : (as' bs : List Str) → 0 < length bs → 0 < length (or_else as' bs)
unfolding or_else
length-or_else [] bs h = h
length-or_else (a ∷ as') bs h = omega arith

length-resolved : (host_addr port : Str) (ips : List Ip) → 0 < length (resolved host_addr port ips)
unfolding resolved
length-resolved host_addr port ips =
    length-or_else (v4_backends port ips) _
      (length-or_else (v6_backends port ips) (host_addr ∷ []) (omega arith))

single_backend-IsOpen :
    (net : Net) (host_addr : Str) (o : PoolV2Options) (host port : Str)
    → Yields IsOpen (single_backend net host_addr o host port)
unfolding single_backend
single_backend-IsOpen net host_addr o host port = elim (Option-cases (net.lookup_ip host)) [
  | inl e ↦ rw (e, Yields) tt
  | inr (ips, e) ↦
      rw (e, Yields)
        (make_pool-IsOpen o host port (resolved host_addr port ips)
          (length-resolved host_addr port ips))
]

build-IsOpen :
    (net : Net) (host_addr : Str) (o : PoolV2Options) (hp : Str × Str)
    → Yields IsOpen (build net host_addr o hp)
unfolding build
build-IsOpen net host_addr o (host, port) =
    elim (Bool-cases (net.build_tls o.insecure_connection o.root_ca)) [
      | inr e ↦ rw e tt
      | inl e ↦ rw e (elim (Bool-cases (length o.backends == 0)) [
        | inl z ↦ rw z (single_backend-IsOpen net host_addr o host port)
        | inr z ↦ rw z (make_pool-IsOpen o host port o.backends (ground arith))
      ])
    ]

with_options-IsOpen :
    (net : Net) (host_addr : Str) (o : PoolV2Options) → Yields IsOpen (with_options net host_addr o)
unfolding with_options
with_options-IsOpen net host_addr o = elim (Option-cases (net.split_host_port host_addr)) [
  | inl e ↦ rw (e, Yields) tt
  | inr (hp, e) ↦ rw (e, Yields) (build-IsOpen net host_addr o hp)
]

new_pool_v2-Yields :
    (net : Net) (host_addr : Str) (o : Option PoolV2Options)
    → Yields IsOpen (new_pool_v2 net host_addr o)
unfolding new_pool_v2
new_pool_v2-Yields net host_addr none = tt
new_pool_v2-Yields net host_addr (some o) = with_options-IsOpen net host_addr o

-- A pool that could be made is open and has a backend, also when the resolver finds no address,
-- with a health flag for each and the balancer's stop channel open.
pub new_pool_v2-IsOpen :
    (net : Net) (host_addr : Str) (o : Option PoolV2Options) (p : PoolV2)
    → new_pool_v2 net host_addr o ≡ ok p
    → IsOpen p
new_pool_v2-IsOpen net host_addr o p e =
    subst (Yields IsOpen) e (new_pool_v2-Yields net host_addr o)

-- Closing an open pool stops its balancer and closes the stop channel and the idle connections,
-- once: to close it again changes nothing, and it gives out no client any more.
pub close_once :
    (p : PoolV2)
    → IsOpen p
    → (close (close p) ≡ close p)
      × (get p ≡ ok p.host_port)
      × (get (close p) ≡ err pool_closed)
      × ((close p).lb.closes ≡ 1)
      × ((close p).lb.stopped ≡ true)
      × ((close p).idle_closes ≡ p.idle_closes + 1)
unfolding close get stop
close_once p v = ground arith
