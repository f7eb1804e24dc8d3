-- ===== src/Tests/Backends.antt =====
-- Examples of internal/platform/proxy.
use api_firewall.Base.{
  ℕ, zero, suc, ◌+◌, ◌%◌, ◌≡◌, refl, Bool, true, false, ◌⊎◌, none, some, List, [], ◌∷◌, Str, bytes,
  get_elem?, str_eq, arith,
}
use api_firewall.Balancer.{LoadBalancer, new_load_balancer, next}
use api_firewall.Balancer.Choice.{IsValid, Chosen, next-Chosen}
use api_firewall.Balancer.Ring.{AllUp, after, next-healthy, next-after}
use api_firewall.Balancer.Health.{Op, next_op, set_op, check_op, stop_op}
use api_firewall.Web.{pool_closed, dial_timeout}
use api_firewall.Pool.{
  PoolV2, PoolV2Options, Net, ok, new_pool_v2, perform, Client, set_host, join_host_port,
}
use api_firewall.Pool.Lifecycle.{IsOpen}
use api_firewall.Pool.Sending.{Sent, perform-Sent}
use api_firewall.Samples.{http, ctx}

abbrev hosts : List Str
hosts = bytes "a:80" ∷ bytes "b:80" ∷ bytes "c:80" ∷ []

abbrev half_up : LoadBalancer
half_up = record {
  backends = hosts;
  healthy = false ∷ false ∷ true ∷ [];
  current = 3;
  health_check_interval = 5;
  health_check_timeout = 1;
  stopped = false;
  closes = 0;
}

abbrev all_up : LoadBalancer
all_up = record half_up { healthy = true ∷ true ∷ true ∷ [] }

half_up-IsValid : IsValid half_up
half_up-IsValid = record { matched = refl }

all_up-IsValid : IsValid all_up
all_up-IsValid = record { matched = refl }

all_up-AllUp : AllUp all_up
all_up-AllUp zero h = refl
all_up-AllUp (suc zero) h = refl
all_up-AllUp (suc (suc zero)) h = refl
all_up-AllUp (suc (suc (suc k))) h = absurd (omega arith)

next-Chosen_example :
    (b : Str) × (next half_up ≡ (record half_up { current = 3 + 1 }, some b))
    × Chosen half_up (3 + 1) b
next-Chosen_example = next-Chosen half_up half_up-IsValid (omega arith) (omega arith)

next-healthy_example :
    (i : ℕ) × (b : Str) × ((next half_up).1 ≡ some b)
    × (get_elem? half_up.healthy i ≡ some true)
    × (get_elem? half_up.backends i ≡ some b)
next-healthy_example =
    next-healthy half_up 2 half_up-IsValid (omega arith) (omega arith) (omega arith) refl

next-after_example : (next (after 4 all_up)).1 ≡ get_elem? hosts ((3 + 4 + 1) % 3)
next-after_example = next-after 4 all_up all_up-IsValid (omega arith) (omega arith) all_up-AllUp

abbrev is_b : Str → Bool
is_b b = str_eq b (bytes "b:80")

abbrev ops : List Op
ops = next_op ∷ set_op 1 false ∷ check_op is_b ∷ stop_op ∷ next_op ∷ stop_op ∷ []

abbrev net : Net
net = record {
  split_host_port = λ s. some (bytes "api.test", bytes "80");
  lookup_ip = λ s. some (record { v4 = none; v6 = some (bytes "::1") } ∷ []);
  build_tls = λ insecure ca. true;
}

abbrev options : PoolV2Options
options = record {
  insecure_connection = true;
  root_ca = [];
  backends = [];
  health_check_interval = 0;
  dial_timeout = 0;
}

abbrev pool : PoolV2
pool = record {
  lb = new_load_balancer (bytes "[::1]:80" ∷ []) 0 0;
  closed = false;
  idle_closes = 0;
  host = bytes "api.test";
  port = bytes "80";
  host_port = bytes "api.test:80";
}

made : new_pool_v2 net (bytes "api.test:80") (some options) ≡ ok pool
unfolding new_pool_v2 new_load_balancer join_host_port
made = refl

pool-IsOpen : IsOpen pool
unfolding new_load_balancer
pool-IsOpen = record {
  some_backend = omega arith;
  matched = refl;
  open_pool = refl;
  running = refl;
  no_closes = refl;
}

abbrev slow : Client http
slow = record { do_request = λ r resp. (resp, some dial_timeout) }

perform-Sent_example :
    ((false ≡ true) × (perform http pool slow (bytes "in.test") ctx ≡ (ctx, some pool_closed)))
    ⊎ ((false ≡ false)
        × Sent http ctx
            (set_host http (bytes "in.test") ctx.request)
            (ctx.response, some dial_timeout)
            (perform http pool slow (bytes "in.test") ctx))
perform-Sent_example = perform-Sent http pool slow (bytes "in.test") ctx
