-- ===== src/Waf/Header/Digits.antt =====
-- The decimal digits of a number.
use api_firewall.Base.{
  ◌≡◌, refl, ap, ◌∙◌, inl, inr, ℕ, zero, suc, ◌+◌, ◌*◌, ◌/◌, ◌%◌, ◌≤◌, ◌<◌, Bool-cases, Option, [],
  ◌∷◌, Str, All, ◌==◌, arith,
}
use api_firewall.Waf.Header.{digits_fuel, itoa}

abbrev pub IsDigit : ℕ → Type 0
IsDigit c = (b'0' ≤ c) × (c ≤ b'9')

digits_fuel-IsDigit : (f n : ℕ) (acc : Str) → All IsDigit acc → All IsDigit (digits_fuel f n acc)
unfolding digits_fuel
digits_fuel-IsDigit zero n acc p = p
digits_fuel-IsDigit (suc f) n acc p =
    let d : IsDigit (b'0' + n % 10) = (omega arith, omega arith) in
    elim (Bool-cases (n / 10 == 0)) [
      | inl e ↦ rw e (d, p)
      | inr e ↦ rw e (digits_fuel-IsDigit f (n / 10) ((b'0' + n % 10) ∷ acc) (d, p))
    ]

digits_fuel-cons :
    (f n c : ℕ) (acc : Str) → (a : ℕ) × (s : Str) × (digits_fuel f n (c ∷ acc) ≡ a ∷ s)
unfolding digits_fuel
digits_fuel-cons zero n c acc = (c, acc, refl)
digits_fuel-cons (suc f) n c acc = elim (Bool-cases (n / 10 == 0)) [
  | inl e ↦ (b'0' + n % 10, c ∷ acc, rw e refl)
  | inr e ↦ rw e (digits_fuel-cons f (n / 10) (b'0' + n % 10) (c ∷ acc))
]

pub itoa-IsDigit : (n : ℕ) → All IsDigit (itoa n)
unfolding itoa
itoa-IsDigit n = digits_fuel-IsDigit (suc n) n [] tt

pub itoa-cons : (n : ℕ) → (a : ℕ) × (s : Str) × (itoa n ≡ a ∷ s)
unfolding itoa digits_fuel
itoa-cons n = elim (Bool-cases (n / 10 == 0)) [
  | inl e ↦ (b'0' + n % 10, [], rw e refl)
  | inr e ↦ rw e (digits_fuel-cons n (n / 10) (b'0' + n % 10) [])
]

-- What reads digits from the left reads the digits of a number as the number.
module _ (value : ℕ → Str → Option ℕ)
    (value-cons : (m d : ℕ) (s : Str)
      → d < 10
      → value m ((b'0' + d) ∷ s) ≡ value (m * 10 + d) s) where
  digits_fuel-value : (f n : ℕ) (acc : Str) → n < f → value 0 (digits_fuel f n acc) ≡ value n acc
  unfolding digits_fuel
  digits_fuel-value zero n acc h = absurd (omega arith)
  digits_fuel-value (suc f) n acc h = elim (Bool-cases (n / 10 == 0)) [
    | inl e ↦ rw e (value-cons 0 (n % 10) acc (ground arith) ∙ ap (λ k. value k acc) (ground arith))
    | inr e ↦ rw e (
        digits_fuel-value f (n / 10) ((b'0' + n % 10) ∷ acc) (ground arith)
        ∙ value-cons (n / 10) (n % 10) acc (ground arith)
        ∙ ap (λ k. value k acc) (ground arith))
  ]

  pub itoa-value : (n : ℕ) → value 0 (itoa n) ≡ value n []
  unfolding itoa
  itoa-value n = digits_fuel-value (suc n) n [] (omega arith)
