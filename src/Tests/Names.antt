-- ===== src/Tests/Names.antt =====
-- Examples of the DNS cache.
use api_firewall.Base.{◌≡◌, true, none, some, [], ◌∷◌, bytes, str_eq, if◌then◌else◌}
use api_firewall.Dns.{LookupFn, Resolver, cached, refresh}
use api_firewall.Dns.Refreshing.{expected, refresh-cached}

abbrev resolver : Resolver
resolver = record {
  use_cache = true;
  cache = (bytes "a", bytes "1" ∷ []) ∷ (bytes "b", bytes "2" ∷ []) ∷ [];
  is_running = true;
}

-- Only `b` can be resolved, to another address.
abbrev answers : LookupFn
answers host = if str_eq host (bytes "b") then some (bytes "3" ∷ []) else none

refresh-cached_example :
    cached (refresh answers resolver).cache (bytes "b")
    ≡ expected (answers (bytes "b")) (cached resolver.cache (bytes "b"))
refresh-cached_example = refresh-cached answers resolver (bytes "b")
