-- ===== src/Balancer/Ring.antt =====
-- No healthy backend is passed over, and the rotation when all are healthy.
use native.Mathlib.Nat.{mod-add-mod, add-mod_right, mod-eq_of_lt, mod-lt}
use api_firewall.Base.{
  ℕ, zero, suc, ◌+◌, ◌-◌, ◌%◌, ◌^◌, ◌<◌, ◌≤◌, ◌≡◌, sym, ap, ◌∙◌, true, false, some, Str, length,
  get_elem?, arith, dec_lt,
}
use api_firewall.Balancer.{LoadBalancer, next}
use api_firewall.Balancer.Choice.{IsValid, Chosen, first_healthy, none_healthy, next-Chosen}

ring_at : (start n k x m : ℕ) → start % n + x ≡ m → m % n ≡ k → (start + x) % n ≡ k
ring_at start n k x m e h = sym (mod-add-mod start n x) ∙ ap (λ t. t % n) e ∙ h

-- Every index is met in one turn of the ring.
ring_round : (start n k : ℕ) → k < n → (i : ℕ) × (i < n) × ((start + i) % n ≡ k)
ring_round start n k h = elim (dec_lt k (start % n)) [
  | yes p ↦ (
    k + n - start % n,
    omega arith,
    ring_at start n k (k + n - start % n) (k + n) (omega (arith, mod-lt start {m = n}))
        (add-mod_right k n ∙ mod-eq_of_lt h),
  )
  | no p ↦ (
    k - start % n,
    omega arith,
    ring_at start n k (k - start % n) k (omega arith) (mod-eq_of_lt h),
  )
]

module _ {lb : LoadBalancer} {start : ℕ} {b : Str} where
  -- A choice is of a healthy backend as soon as there is one.
  Chosen-healthy :
      (k : ℕ)
      → k < length lb.backends
      → get_elem? lb.healthy k ≡ some true
      → Chosen lb start b
      → (i : ℕ) × (get_elem? lb.healthy i ≡ some true) × (get_elem? lb.backends i ≡ some b)
  Chosen-healthy k h up (first_healthy i r t eb before) = (_, t, eb)
  Chosen-healthy k h up (none_healthy all eb) =
      let (i, r, e) = ring_round start (length lb.backends) k h in
      let down : get_elem? lb.healthy k ≡ some false = rw e at (all i r) in cc

  -- With all healthy, the choice is the backend at the counter.
  Chosen-at :
      0 < length lb.backends
      → ((k : ℕ) → k < length lb.backends → get_elem? lb.healthy k ≡ some true)
      → Chosen lb start b
      → get_elem? lb.backends (start % length lb.backends) ≡ some b
  Chosen-at pos up (first_healthy zero r t eb before) =
      let e : start + 0 ≡ start = omega arith in rw e at eb
  Chosen-at pos up (first_healthy (suc i) r t eb before) =
      let down = before 0 (omega arith) in
      let high = up ((start + 0) % length lb.backends) (omega arith) in cc
  Chosen-at pos up (none_healthy all eb) = eb

-- As long as one backend is healthy, `Next` returns one whose flag says healthy: with two backends
-- or more, a flag for each, and the counter within the first 2^63 calls.
pub next-healthy :
    (lb : LoadBalancer) (k : ℕ)
    → IsValid lb
    → 1 < length lb.backends
    → lb.current + 1 + length lb.backends ≤ 2 ^ 63
    → k < length lb.backends
    → get_elem? lb.healthy k ≡ some true
    → (i : ℕ) × (b : Str) × ((next lb).1 ≡ some b)
      × (get_elem? lb.healthy i ≡ some true)
      × (get_elem? lb.backends i ≡ some b)
next-healthy lb k v many room h up =
    let (b, e, c) = next-Chosen lb v many room in
    let (i, t, eb) = Chosen-healthy k h up c in (i, b, ap (λ r. r.1) e, t, eb)

-- The balancer after some calls of `Next`.
abbrev pub after : ℕ → LoadBalancer → LoadBalancer
after zero lb = lb
after (suc m) lb = after m (next lb).0

abbrev pub AllUp : LoadBalancer → Type 0
AllUp lb = (k : ℕ) → k < length lb.backends → get_elem? lb.healthy k ≡ some true

-- A call with all healthy moves the counter, and answers with the backend at it.
next-AllUp :
    (lb : LoadBalancer)
    → IsValid lb
    → 1 < length lb.backends
    → lb.current + 1 + length lb.backends ≤ 2 ^ 63
    → AllUp lb
    → next lb ≡ (
      record lb { current = lb.current + 1 },
      get_elem? lb.backends ((lb.current + 1) % length lb.backends),
    )
next-AllUp lb v many room up =
    let (b, e, c) = next-Chosen lb v many room in
    e ∙ ap (λ o. (record lb { current = lb.current + 1 }, o)) (sym (Chosen-at (omega arith) up c))

-- With all of two backends or more healthy, call number m + 1 returns the backend m + 1 places
-- behind the counter's start, for as long as the counter is within the first 2^63 calls.
pub next-after :
    (m : ℕ) (lb : LoadBalancer)
    → IsValid lb
    → 1 < length lb.backends
    → lb.current + m + 1 + length lb.backends ≤ 2 ^ 63
    → AllUp lb
    → (next (after m lb)).1 ≡ get_elem? lb.backends ((lb.current + m + 1) % length lb.backends)
next-after zero lb v many room up =
    let e : lb.current + 0 ≡ lb.current = omega arith in
    rw (next-AllUp lb v many (omega arith) up, e)
next-after (suc m) lb v many room up =
    let moved : LoadBalancer = record lb { current = lb.current + 1 } in
    let e : lb.current + 1 + m + 1 ≡ lb.current + suc m + 1 = omega arith in
    let ih = next-after m moved (record { matched = v.matched }) many (omega arith) up in
    rw (next-AllUp lb v many (omega arith) up) (rw e at ih)
