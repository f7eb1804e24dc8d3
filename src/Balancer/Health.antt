-- ===== src/Balancer/Health.antt =====
-- The health flags: one flag, all flags by a round of probes, and the end of the checks.
use api_firewall.Base.{
  ℕ, zero, suc, ◌+◌, ◌≤◌, ◌<◌, ◌≡◌, refl, ap, sym, ◌∙◌, Bool, true, false, none, some, List, [],
  ◌∷◌, map, Str, length, get_elem?, set, ltb, ◌==◌, if◌then◌else◌, arith,
}
use native.Mathlib.Numerals.{add-one}
use api_firewall.Balancer.{
  LoadBalancer, is_healthy, set_healthy, check_from, check_all, count_true, stop, next,
}
use api_firewall.Balancer.Choice.{IsValid}

is_healthy-set :
    (hs : List Bool) (i j : ℕ) (b : Bool)
    → i < length hs
    → elim (get_elem? (set hs i b) j) [ none ↦ false | some h ↦ h ]
      ≡ (if i == j then b else elim (get_elem? hs j) [ none ↦ false | some h ↦ h ])
is_healthy-set [] i j b h = elim h [ ]
is_healthy-set (x ∷ hs) zero zero b h = refl
is_healthy-set (x ∷ hs) zero (suc j) b h = ground arith
is_healthy-set (x ∷ hs) (suc i) zero b h = ground arith
is_healthy-set (x ∷ hs) (suc i) (suc j) b h = ground (arith, is_healthy-set hs i j b)

-- After a flag is set, `IsHealthy` answers with it at its index and as before elsewhere; setting a
-- flag out of range changes nothing.
pub is_healthy-set_healthy :
    (lb : LoadBalancer) (i j : ℕ) (b : Bool)
    → is_healthy (set_healthy lb i b) j ≡ (
        if ltb i (length lb.healthy)
        then (if i == j then b else is_healthy lb j)
        else is_healthy lb j)
unfolding is_healthy set_healthy
is_healthy-set_healthy lb i j b = ground (arith, is_healthy-set lb.healthy i j b)

-- The flags from the front on, replaced by the probes.
write_from : ℕ → List Bool → List Bool → List Bool
write_from i [] hs = hs
write_from i (p ∷ ps) hs = write_from (i + 1) ps (set hs i p)

check_from_lem :
    (probe : Str → Bool) (bs : List Str) (i : ℕ) (lb : LoadBalancer)
    → check_from probe bs i lb ≡ record lb { healthy = write_from i (map probe bs) lb.healthy }
unfolding check_from write_from
check_from_lem probe [] i lb = refl
check_from_lem probe (b ∷ bs) i lb =
    check_from_lem probe bs (i + 1) (record lb { healthy = set lb.healthy i (probe b) })

set-cons : (h : Bool) (hs : List Bool) (i : ℕ) (p : Bool) → set (h ∷ hs) (i + 1) p ≡ h ∷ set hs i p
set-cons h hs i p = rw add-one

write_from-cons :
    (h : Bool) (ps hs : List Bool) (i : ℕ) → write_from (i + 1) ps (h ∷ hs) ≡ h ∷ write_from i ps hs
unfolding write_from
write_from-cons h [] hs i = refl
write_from-cons h (p ∷ ps) hs i = rw (set-cons h hs i p) (write_from-cons h ps (set hs i p) (i + 1))

write_from_all : (ps hs : List Bool) → length hs ≡ length ps → write_from 0 ps hs ≡ ps
unfolding write_from
write_from_all [] [] e = refl
write_from_all [] (h ∷ hs) e = ground arith
write_from_all (p ∷ ps) [] e = ground arith
write_from_all (p ∷ ps) (h ∷ hs) e =
    write_from-cons p ps hs 0 ∙ ap (λ t. p ∷ t) (write_from_all ps hs (omega arith))

length-map : (f : Str → Bool) (bs : List Str) → length (map f bs) ≡ length bs
length-map f [] = refl
length-map f (b ∷ bs) = ap suc (length-map f bs)

-- A round of health checks makes the flags the results of the probes, one for each backend in
-- order, and changes nothing else of the balancer.
pub check_all-map :
    (probe : Str → Bool) (lb : LoadBalancer)
    → IsValid lb
    → check_all probe lb ≡ record lb { healthy = map probe lb.backends }
unfolding check_all
check_all-map probe lb v =
    check_from_lem probe lb.backends 0 lb
    ∙ ap (λ hs. record lb { healthy = hs })
        (write_from_all _ _ (v.matched ∙ sym (length-map probe lb.backends)))

count_true-le : (hs : List Bool) → count_true hs ≤ length hs
unfolding count_true
count_true-le [] = omega arith
count_true-le (true ∷ hs) = omega (arith, count_true-le hs)
count_true-le (false ∷ hs) = omega (arith, count_true-le hs)

-- The operations of the balancer.
pub data Op : Type 0 where
  next_op : Op
  set_op : ℕ → Bool → Op
  check_op : (Str → Bool) → Op
  stop_op : Op

abbrev pub run_op : Op → LoadBalancer → LoadBalancer
run_op next_op lb = (next lb).0
run_op (set_op i b) lb = set_healthy lb i b
run_op (check_op probe) lb = check_all probe lb
run_op stop_op lb = stop lb

abbrev pub run_ops : List Op → LoadBalancer → LoadBalancer
run_ops [] lb = lb
run_ops (o ∷ os) lb = run_ops os (run_op o lb)

-- What holds of a balancer at any time: a flag for each backend, the backends as given, the stop
-- channel closed once if stopped and never otherwise.
pub record IsSound (bs : List Str) (lb : LoadBalancer) : Type 0 where
  pub matched : length lb.healthy ≡ length bs
  pub same : lb.backends ≡ bs
  pub closed : lb.closes ≡ (if lb.stopped then 1 else 0)
