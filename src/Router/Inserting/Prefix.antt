-- ===== src/Router/Inserting/Prefix.antt =====
-- The longest common prefix of a pattern and of a node.
use api_firewall.Base.{
  ℕ, zero, suc, ◌<◌, ◌≤◌, ◌≡◌, ◌≢◌, refl, ap, ◌∙◌, inl, inr, Bool-cases, [], ◌∷◌, Str, get_or,
  length, take, drop, ◌==◌, arith,
}
use api_firewall.Router.Groups.{longest_prefix}

-- What the longest common prefix tells.
pub record IsCommon (s p : Str) (k : ℕ) : Type 0 where
  pub within : k ≤ length p
  pub same : take k s ≡ take k p
  pub apart : (a b : ℕ) (s' p' : Str) → drop k s ≡ a ∷ s' → drop k p ≡ b ∷ p' → a ≢ b

pub longest_prefix-IsCommon : (s p : Str) → IsCommon s p (longest_prefix s p)
unfolding longest_prefix
longest_prefix-IsCommon [] p = record {
  within = omega arith;
  same = refl;
  apart = λ a b s' p' e f. absurd (ground (arith, e));
}
longest_prefix-IsCommon (a ∷ s) [] = record {
  within = omega arith;
  same = refl;
  apart = λ a b s' p' e f. absurd (ground (arith, f));
}
longest_prefix-IsCommon (a ∷ s) (b ∷ p) = elim (Bool-cases (a == b)) [
  | inl h ↦
      let r = longest_prefix-IsCommon s p in
      let eq : a ≡ b = ground (arith, h) in
      rw h (record {
        within = omega (arith, r.within);
        same = ap (λ c. c ∷ take (longest_prefix s p) s) eq ∙ ap (λ t. b ∷ t) r.same;
        apart = r.apart;
      })
  | inr h ↦ rw h (record {
    within = omega arith;
    same = refl;
    apart = λ c d s' p' e f. ground (arith, h, e, f);
  })
]

pub longest_prefix-first : (c : ℕ) (s p : Str) → (k : ℕ) × (longest_prefix (c ∷ s) (c ∷ p) ≡ suc k)
unfolding longest_prefix
longest_prefix-first c s p = (longest_prefix s p, ground arith)

pub drop-cons : (k : ℕ) (p : Str) → k < length p → (r : Str) × (drop k p ≡ get_or p k 0 ∷ r)
drop-cons k [] h = absurd (omega (arith, h))
drop-cons zero (a ∷ p) h = (p, refl)
drop-cons (suc k) (a ∷ p) h = drop-cons k p (omega (arith, h))
