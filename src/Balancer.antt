-- ===== src/Balancer.antt =====
-- internal/platform/proxy/loadbalancer.go: round-robin choice of a backend with health checks.
-- The counter is the uint64 of the source, with its conversion to int written out; a Go index
-- panic is `none`. The goroutine of the health checks is present as the operation that it repeats.
pub mod Choice
pub mod Health
pub mod Ring
use api_firewall.Base.{
  ℕ, zero, suc, ◌+◌, ◌-◌, ◌%◌, ◌^◌, ◌<◌, ◌≡◌, refl, Bool, true, false, ◌&&◌, not, Option, none,
  some, List, [], ◌∷◌, map, Str, length, get_elem?, set, replicate, ltb, leb, ◌==◌, if◌then◌else◌,
}

pub record LoadBalancer : Type 0 where
  pub backends : List Str
  pub healthy : List Bool
  pub current : ℕ  -- uint64
  pub health_check_interval : ℕ
  pub health_check_timeout : ℕ
  pub stopped : Bool
  pub closes : ℕ  -- how often stopCh was closed

abbrev pub second : ℕ
second = 1_000_000_000

unfoldable pub new_load_balancer : List Str → ℕ → ℕ → LoadBalancer
new_load_balancer backends interval timeout = record {
  backends = backends;
  healthy = replicate (length backends) true;
  current = 0;
  health_check_interval = interval;
  health_check_timeout = if timeout == 0 then second else timeout;
  stopped = false;
  closes = 0;
}

-- `(int(start) + i) % n` as an index: the sum wraps as an int64, `%` keeps the sign of the
-- dividend, and a negative index panics.
index_of : ℕ → ℕ → ℕ → Option ℕ
index_of start i n =
    let s = (start + i) % 2 ^ 64 in
    if ltb s (2 ^ 63) then some (s % n) else if (2 ^ 64 - s) % n == 0 then some 0 else none

pub data Scan : Type 0 where
  panic : Scan
  found : Str → Scan
  exhausted : Scan

-- One look of the loop: the backend at an index, if it is healthy.
look : LoadBalancer → Option ℕ → Scan
look lb none = panic
look lb (some idx) = elim (get_elem? lb.healthy idx) [
  | none ↦ panic
  | some false ↦ exhausted
  | some true ↦ elim (get_elem? lb.backends idx) [ none ↦ panic | some b ↦ found b ]
]

-- The loop of `Next`: rounds left, and `i`.
scan : LoadBalancer → ℕ → ℕ → ℕ → Scan
unfolding look index_of
scan lb start zero i = exhausted
scan lb start (suc k) i = elim (look lb (index_of start i (length lb.backends))) [
  | panic ↦ panic
  | found b ↦ found b
  | exhausted ↦ scan lb start k (i + 1)
]

fallback : LoadBalancer → Option ℕ → Option Str
fallback lb none = none
fallback lb (some idx) = get_elem? lb.backends idx

settle : LoadBalancer → ℕ → Scan → Option Str
unfolding fallback index_of
settle lb start panic = none
settle lb start (found b) = some b
settle lb start exhausted = fallback lb (index_of start 0 (length lb.backends))

-- What `Next` returns once the counter is drawn; `none` is a panic.
choose : LoadBalancer → ℕ → Option Str
unfolding scan settle
choose lb start = settle lb start (scan lb start (length lb.backends) 0)

unfoldable pub next : LoadBalancer → LoadBalancer × Option Str
unfolding choose
next lb =
    if length lb.backends == 0
    then (lb, some [])
    else if length lb.backends == 1
    then (lb, get_elem? lb.backends 0)
    else let start = (lb.current + 1) % 2 ^ 64 in (record lb { current = start }, choose lb start)

count_true : List Bool → ℕ
count_true [] = 0
count_true (true ∷ hs) = suc (count_true hs)
count_true (false ∷ hs) = count_true hs

unfoldable pub get_healthy_count : LoadBalancer → ℕ
unfolding count_true
get_healthy_count lb = count_true lb.healthy

unfoldable pub get_backends : LoadBalancer → List Str
get_backends lb = lb.backends

-- The index is not negative; the source answers false for a negative one.
unfoldable pub is_healthy : LoadBalancer → ℕ → Bool
is_healthy lb idx = elim (get_elem? lb.healthy idx) [ none ↦ false | some h ↦ h ]

unfoldable pub set_healthy : LoadBalancer → ℕ → Bool → LoadBalancer
set_healthy lb idx h =
    if ltb idx (length lb.healthy) then record lb { healthy = set lb.healthy idx h } else lb

-- The loop of `checkAll`: backends left, and the index `i`. `probe` is a TCP dial.
check_from : (Str → Bool) → List Str → ℕ → LoadBalancer → LoadBalancer
check_from probe [] i lb = lb
check_from probe (b ∷ bs) i lb =
    check_from probe bs (i + 1) (record lb { healthy = set lb.healthy i (probe b) })

unfoldable pub check_all : (Str → Bool) → LoadBalancer → LoadBalancer
unfolding check_from
check_all probe lb = check_from probe lb.backends 0 lb

unfoldable pub stop : LoadBalancer → LoadBalancer
stop lb = if lb.stopped then lb else record lb { stopped = true; closes = lb.closes + 1 }
