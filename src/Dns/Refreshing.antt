-- ===== src/Dns/Refreshing.antt =====
-- What a refresh leaves in the cache.
use api_firewall.Base.{
  ◌≡◌, refl, sym, ap, ◌∙◌, true, false, Option, none, some, List, [], ◌∷◌, Str, str_eq, str_eq_iff,
  exists, if◌then◌else◌, arith, Bool-cases, inl, inr,
}
use api_firewall.Dns.{
  IpAddrs, LookupFn, Resolver, cached, set_entry, settle_lookup, lookup_ip_addr_and_cache,
  refresh_loop, hosts, refresh,
}

not_same : (host k a : Str) → str_eq host k ≡ false → str_eq host a ≡ true → str_eq k a ≡ false
not_same host k a e t = elim (Bool-cases (str_eq k a)) [
  | inr u ↦ u
  | inl u ↦
      let same = (str_eq_iff host a).0 t ∙ sym ((str_eq_iff k a).0 u) in
      let equal = (str_eq_iff host k).1 same in absurd (ground (arith, equal, e))
]

cached-set_entry :
    (m : List (Str × IpAddrs)) (k : Str) (v : IpAddrs) (a : Str)
    → cached (set_entry k v m) a ≡ (if str_eq k a then some v else cached m a)
unfolding cached set_entry
cached-set_entry [] k v a = refl
cached-set_entry ((host, old) ∷ rest) k v a = elim (Bool-cases (str_eq host k)) [
  | inl e ↦
      let same : str_eq host a ≡ str_eq k a = ap (λ x. str_eq x a) ((str_eq_iff host k).0 e) in
      elim (Bool-cases (str_eq k a)) [
        | inl t ↦ let w = same ∙ t in rw (e, t, cached, w)
        | inr t ↦ let w = same ∙ t in rw (e, t, cached, w)
      ]
  | inr e ↦
      let ih = cached-set_entry rest k v a in
      elim (Bool-cases (str_eq host a)) [
        | inl t ↦ let other : str_eq k a ≡ false = not_same host k a e t in rw (e, cached, t, other)
        | inr t ↦ rw (e, cached, t) ih
      ]
]

-- What a refreshed host has: the resolver's answer, or what it had if there is none.
abbrev pub refreshed : Option IpAddrs → Option IpAddrs → Option IpAddrs
refreshed none old = old
refreshed (some ips) old = some ips

refreshed_twice : (x old : Option IpAddrs) → refreshed x (refreshed x old) ≡ refreshed x old
refreshed_twice none old = refl
refreshed_twice (some ips) old = refl

cached-settle_lookup :
    (r : Resolver) (k a : Str) (x : Option IpAddrs)
    → cached (settle_lookup r k x).0.cache a
      ≡ (if str_eq k a then refreshed x (cached r.cache a) else cached r.cache a)
unfolding settle_lookup
cached-settle_lookup r k a none = elim (Bool-cases (str_eq k a)) [ inl t ↦ rw t | inr t ↦ rw t ]
cached-settle_lookup r k a (some ips) = cached-set_entry r.cache k ips a

cached-lookup :
    (lookup : LookupFn) (r : Resolver) (k a : Str)
    → cached (lookup_ip_addr_and_cache lookup r k).0.cache a
      ≡ (if str_eq k a then refreshed (lookup a) (cached r.cache a) else cached r.cache a)
unfolding lookup_ip_addr_and_cache
cached-lookup lookup r k a =
    cached-settle_lookup r k a (lookup k) ∙ (elim (Bool-cases (str_eq k a)) [
      | inr t ↦ rw t
      | inl t ↦ rw t (ap (λ x. refreshed (lookup x) (cached r.cache a)) ((str_eq_iff k a).0 t))
    ])

refresh_loop-cached :
    (lookup : LookupFn) (ks : List Str) (r : Resolver) (a : Str)
    → cached (refresh_loop lookup ks r).cache a ≡ (
        if exists (λ k. str_eq k a) ks
        then refreshed (lookup a) (cached r.cache a)
        else cached r.cache a)
unfolding refresh_loop
refresh_loop-cached lookup [] r a = refl
refresh_loop-cached lookup (k ∷ ks) r a =
    let ih = refresh_loop-cached lookup ks (lookup_ip_addr_and_cache lookup r k).0 a in
    let here = cached-lookup lookup r k a in
    elim (Bool-cases (str_eq k a)) [
      | inl t ↦
          let now = rw t at here in
          elim (Bool-cases (exists (λ x. str_eq x a) ks)) [
            | inl u ↦ rw t (
                (rw u at ih)
                ∙ ap (refreshed (lookup a)) now
                ∙ refreshed_twice (lookup a) (cached r.cache a))
            | inr u ↦ rw t ((rw u at ih) ∙ now)
          ]
      | inr t ↦
          let now = rw t at here in
          elim (Bool-cases (exists (λ x. str_eq x a) ks)) [
            | inl u ↦ rw (t, u) ((rw u at ih) ∙ ap (refreshed (lookup a)) now)
            | inr u ↦ rw (t, u) ((rw u at ih) ∙ now)
          ]
    ]

hosts-cached :
    (m : List (Str × IpAddrs)) (a : Str)
    → exists (λ k. str_eq k a) (hosts m) ≡ false
    → cached m a ≡ none
unfolding hosts cached
hosts-cached [] a e = refl
hosts-cached ((host, ips) ∷ rest) a e =
    let ih = hosts-cached rest a (ground arith) in
    let other : str_eq host a ≡ false = ground arith in rw other ih

cached-hosts :
    (m : List (Str × IpAddrs)) (a : Str)
    → exists (λ k. str_eq k a) (hosts m) ≡ true
    → (ips : IpAddrs) × (cached m a ≡ some ips)
unfolding hosts cached
cached-hosts [] a e = absurd (ground arith)
cached-hosts ((host, ips) ∷ rest) a e = elim (Bool-cases (str_eq host a)) [
  | inl t ↦ (ips, rw t)
  | inr t ↦ let (x, q) = cached-hosts rest a (ground arith) in (x, rw t q)
]

-- A host that is not cached stays so, and one that is has the resolver's answer.
abbrev pub expected : Option IpAddrs → Option IpAddrs → Option IpAddrs
expected answer none = none
expected answer (some old) = refreshed answer (some old)

-- After a refresh the same hosts are in the cache as before, each with what the resolver answers
-- now, or with what it had if the resolver fails for it; no failure hinders the other hosts.
pub refresh-cached :
    (lookup : LookupFn) (r : Resolver) (a : Str)
    → cached (refresh lookup r).cache a ≡ expected (lookup a) (cached r.cache a)
unfolding refresh
refresh-cached lookup r a =
    let loop = refresh_loop-cached lookup (hosts r.cache) r a in
    elim (Bool-cases (exists (λ k. str_eq k a) (hosts r.cache))) [
      | inl e ↦ let (ips, q) = cached-hosts r.cache a e in loop ∙ rw (e, q)
      | inr e ↦ let q = hosts-cached r.cache a e in loop ∙ rw (e, q)
    ]
