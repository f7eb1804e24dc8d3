-- ===== src/Dns.antt =====
-- internal/platform/proxy/dnscache.go: the DNS cache. The cache is a list of hosts with their
-- addresses in some order; what the resolver answers is a parameter of each operation, since it
-- changes over time. The goroutine of the ticker is `refresh`, which it repeats until `stop`.
pub mod Refreshing
use api_firewall.Base.{
  Bool, true, false, Option, none, some, List, [], ◌∷◌, map, Str, str_eq, if◌then◌else◌,
}

abbrev pub IpAddrs : Type 0
IpAddrs = List Str

-- `lookupIPAddrFn`; `none` is an error.
abbrev pub LookupFn : Type 0
LookupFn = Str → Option IpAddrs

-- `is_running` tells whether there is a closer, and so a ticker.
pub record Resolver : Type 0 where
  pub use_cache : Bool
  pub cache : List (Str × IpAddrs)
  pub is_running : Bool

-- `NewDNSResolver`; without options it is an error.
unfoldable pub new_dns_resolver : Option Bool → Option Resolver
new_dns_resolver none = none
new_dns_resolver (some use_cache) =
    some (record { use_cache = use_cache; cache = []; is_running = use_cache })

unfoldable pub cached : List (Str × IpAddrs) → Str → Option IpAddrs
cached [] addr = none
cached ((host, ips) ∷ rest) addr =
    let later = cached rest addr in if str_eq host addr then some ips else later

set_entry : Str → IpAddrs → List (Str × IpAddrs) → List (Str × IpAddrs)
set_entry addr ips [] = (addr, ips) ∷ []
set_entry addr ips ((host, old) ∷ rest) =
    let later = set_entry addr ips rest in
    if str_eq host addr then (host, ips) ∷ rest else (host, old) ∷ later

settle_lookup : Resolver → Str → Option IpAddrs → Resolver × Option IpAddrs
unfolding set_entry
settle_lookup r addr none = (r, none)
settle_lookup r addr (some ips) = (record r { cache = set_entry addr ips r.cache }, some ips)

-- `lookupIPAddrAndCache`
unfoldable pub lookup_ip_addr_and_cache : LookupFn → Resolver → Str → Resolver × Option IpAddrs
unfolding settle_lookup
lookup_ip_addr_and_cache lookup r addr = settle_lookup r addr (lookup addr)

settle_cached : LookupFn → Resolver → Str → Option IpAddrs → Resolver × Option IpAddrs
unfolding lookup_ip_addr_and_cache
settle_cached lookup r addr (some ips) = (r, some ips)
settle_cached lookup r addr none = lookup_ip_addr_and_cache lookup r addr

fetch : LookupFn → Resolver → Str → Resolver × Option IpAddrs
unfolding settle_cached cached
fetch lookup r addr =
    if r.use_cache then settle_cached lookup r addr (cached r.cache addr) else (r, lookup addr)

-- `LookupIPAddr`
unfoldable pub lookup_ip_addr : LookupFn → Resolver → Str → Resolver × Option IpAddrs
unfolding fetch
lookup_ip_addr lookup r addr = fetch lookup r addr

refresh_loop : LookupFn → List Str → Resolver → Resolver
unfolding lookup_ip_addr_and_cache
refresh_loop lookup [] r = r
refresh_loop lookup (addr ∷ addrs) r =
    refresh_loop lookup addrs (lookup_ip_addr_and_cache lookup r addr).0

hosts : List (Str × IpAddrs) → List Str
hosts [] = []
hosts ((host, ips) ∷ rest) = host ∷ hosts rest

-- `Refresh`; a failed lookup is only logged.
unfoldable pub refresh : LookupFn → Resolver → Resolver
unfolding refresh_loop hosts
refresh lookup r = refresh_loop lookup (hosts r.cache) r

-- `Stop`
unfoldable pub stop : Resolver → Resolver
stop r = if r.use_cache then record r { is_running = false } else r
