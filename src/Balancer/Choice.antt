-- ===== src/Balancer/Choice.antt =====
-- Which backend `Next` returns.
use api_firewall.Base.{
  ℕ, zero, suc, ◌+◌, ◌%◌, ◌^◌, ◌<◌, ◌≤◌, ◌≡◌, refl, Bool, true, false, ◌⊎◌, inl, inr, some, Str,
  length, get_elem?, get_elem?-some, arith, Bool-cases, dec_lt,
}
use api_firewall.Balancer.{
  LoadBalancer, Scan, panic, found, exhausted, index_of, look, scan, fallback, settle, choose, next,
}

-- Each backend has its health flag.
pub record IsValid (lb : LoadBalancer) : Type 0 where
  pub matched : length lb.healthy ≡ length lb.backends

index_of_lem : (start i n : ℕ) → start + i < 2 ^ 63 → index_of start i n ≡ some ((start + i) % n)
unfolding index_of
index_of_lem start i n h = ground arith

mod-lt' : (a n : ℕ) → 0 < n → a % n < n
mod-lt' a n h = omega arith

-- The flag at the index of round `i`.
abbrev pub IsFlag : LoadBalancer → ℕ → ℕ → Bool → Type 0
IsFlag lb start i b = get_elem? lb.healthy ((start + i) % length lb.backends) ≡ some b

-- `b` is the first healthy backend in order from `start`, or all are unhealthy and it is the first.
pub data Chosen (lb : LoadBalancer) (start : ℕ) (b : Str) : Type 0 where
  first_healthy :
      (i : ℕ)
      → i < length lb.backends
      → IsFlag lb start i true
      → get_elem? lb.backends ((start + i) % length lb.backends) ≡ some b
      → ((j : ℕ) → j < i → IsFlag lb start j false)
      → Chosen lb start b
  none_healthy :
      ((j : ℕ) → j < length lb.backends → IsFlag lb start j false)
      → get_elem? lb.backends (start % length lb.backends) ≡ some b
      → Chosen lb start b

-- What the loop has found when it ends.
data Scanned (lb : LoadBalancer) (start : ℕ) : Scan → Type 0 where
  hit :
      {b : Str} (i : ℕ)
      → i < length lb.backends
      → IsFlag lb start i true
      → get_elem? lb.backends ((start + i) % length lb.backends) ≡ some b
      → ((j : ℕ) → j < i → IsFlag lb start j false)
      → Scanned lb start (found b)
  miss : ((j : ℕ) → j < length lb.backends → IsFlag lb start j false) → Scanned lb start exhausted

flags-suc :
    (lb : LoadBalancer) (start i : ℕ)
    → ((j : ℕ) → j < i → IsFlag lb start j false)
    → IsFlag lb start i false
    → (j : ℕ) → j < i + 1
    → IsFlag lb start j false
flags-suc lb start i before here j h = elim (dec_lt j i) [
  | yes p ↦ before j p
  | no p ↦ let e : j ≡ i = omega arith in rw e here
]

module _ (lb : LoadBalancer) (start : ℕ) (v : IsValid lb)
    (room : start + length lb.backends ≤ 2 ^ 63) where
  -- One look at an index in range finds the flag, and a backend behind a healthy one.
  look-IsFlag :
      (i : ℕ)
      → i < length lb.backends
      → (IsFlag lb start i false × (look lb (index_of start i (length lb.backends)) ≡ exhausted))
        ⊎ ((b : Str) × IsFlag lb start i true
            × (get_elem? lb.backends ((start + i) % length lb.backends) ≡ some b)
            × (look lb (index_of start i (length lb.backends)) ≡ found b))
  unfolding look
  look-IsFlag i h =
      let below : (start + i) % length lb.backends < length lb.backends = omega arith in
      let (b, eb) = get_elem?-some lb.backends _ below in
      let (f, ef) =
        get_elem?-some lb.healthy ((start + i) % length lb.backends) (omega (arith, v.matched)) in
      rw (index_of_lem start i (length lb.backends) (omega arith)) (elim (Bool-cases f) [
        | inl t ↦ inr (b, rw t at ef, eb, ground arith)
        | inr t ↦ inl (rw t at ef, ground arith)
      ])

  scan-Scanned :
      (k i : ℕ)
      → i + k ≡ length lb.backends
      → ((j : ℕ) → j < i → IsFlag lb start j false)
      → Scanned lb start (scan lb start k i)
  unfolding scan
  scan-Scanned zero i e before = miss (λ j h. before j (omega arith))
  scan-Scanned (suc k) i e before = elim (look-IsFlag i (omega arith)) [
    | inl (f, q) ↦
        rw (q, scan) (scan-Scanned k (i + 1) (omega arith) (flags-suc lb start i before f))
    | inr (b, t, eb, q) ↦ rw (q, scan) (hit i (omega arith) t eb before)
  ]

  settle-Chosen :
      (s : Scan)
      → 0 < length lb.backends
      → Scanned lb start s
      → (b : Str) × (settle lb start s ≡ some b) × Chosen lb start b
  unfolding settle fallback
  settle-Chosen panic pos x = elim x [ ]
  settle-Chosen (found b) pos (hit i h t eb before) = (b, refl, first_healthy i h t eb before)
  settle-Chosen exhausted pos (miss all) =
      let (b, eb) = get_elem?-some lb.backends (start % length lb.backends) (omega arith) in
      let e : start + 0 ≡ start = omega arith in
      (
        b,
        rw (index_of_lem start 0 (length lb.backends) (omega arith), e, fallback) eb,
        none_healthy all eb,
      )

  choose-Chosen :
      0 < length lb.backends → (b : Str) × (choose lb start ≡ some b) × Chosen lb start b
  unfolding choose
  choose-Chosen pos =
      settle-Chosen _ pos (scan-Scanned (length lb.backends) 0 (omega arith) (λ j h. elim h [ ]))

-- With two backends or more and a health flag for each, a call of `Next` within the first 2^63
-- draws the next counter value and returns, without a panic, the first healthy backend in ring
-- order from it, or the backend at it if all are unhealthy.
pub next-Chosen :
    (lb : LoadBalancer)
    → IsValid lb
    → 1 < length lb.backends
    → lb.current + 1 + length lb.backends ≤ 2 ^ 63
    → (b : Str) × (next lb ≡ (record lb { current = lb.current + 1 }, some b))
      × Chosen lb (lb.current + 1) b
unfolding next
next-Chosen lb v many room =
    let (b, e, c) = choose-Chosen lb (lb.current + 1) v (omega arith) (omega arith) in
    let same : (lb.current + 1) % 2 ^ 64 ≡ lb.current + 1 = omega arith in
    (b, ground (arith, same), c)
