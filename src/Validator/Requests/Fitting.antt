-- ===== src/Validator/Requests/Fitting.antt =====
-- What a parameter that is accepted has passed.
use api_firewall.Base.{
  ◌≡◌, refl, ◌⊎◌, inl, inr, Bool, true, false, Option, none, some, arith, Bool-cases, Option-cases,
}
use api_firewall.Validator.Requests.{
  Options, Schema, Parameter, Decoding, parsed, unparsed, Library, fill, check_value, check_schema,
  settle_value, settle_decoding, decoding_of, is_unchecked, validate_parameter,
}

module _ (R V : Type 0) (lib : Library R V) (o : Options) where
  -- A parameter that passes its check on a request: it has no schema and no content, or it was
  -- decoded, was found if it is required, and the value, or the default in its place, fits the schema.
  pub record IsFitting (p : Parameter R V) (r : R) (v : Option V) (s : Option (Schema R V))
      (found : Bool) : Type 0 where
    pub present : p.required ≡ true → found ≡ true
    pub fits :
        (w : V) (t : Schema R V)
        → (fill R V lib o p v s r).1 ≡ some w
        → lib.is_nil w ≡ false
        → s ≡ some t
        → t.visit o.multi_error w ≡ none

  abbrev pub Fits : Parameter R V → R → Type 0
  Fits p r =
      (is_unchecked R V lib o p ≡ true)
      ⊎ ((v : Option V) × (s : Option (Schema R V)) × (found : Bool) × (decoding_of R V lib o p r
            ≡ parsed v s found)
          × IsFitting p r v s found)

  check_schema-visit :
      (p : Parameter R V) (s : Option (Schema R V)) (w : V) (t : Schema R V)
      → check_schema R V lib o p s w ≡ none
      → s ≡ some t
      → t.visit o.multi_error w ≡ none
  unfolding check_schema
  check_schema-visit p s w t e q = elim (Option-cases (t.visit o.multi_error w)) [
    | inl ok ↦ ok
    | inr (x, bad) ↦ absurd (ground (arith, q, bad, e))
  ]

  settle_value-IsFitting :
      (p : Parameter R V) (r : R) (v : Option V) (s : Option (Schema R V)) (found : Bool)
      → (settle_value R V lib o p s found (fill R V lib o p v s r)).1 ≡ none
      → IsFitting p r v s found
  unfolding settle_value check_value
  settle_value-IsFitting p r v s found e = record {
    present = λ q. ground (arith, q, e);
    fits = λ w t at_w real at_t. check_schema-visit p s w t (ground (arith, at_w, real, e)) at_t;
  }

  settle_decoding-Fits :
      (p : Parameter R V) (r : R) (d : Decoding R V)
      → decoding_of R V lib o p r ≡ d
      → (settle_decoding R V lib o p r d).1 ≡ none
      → Fits p r
  unfolding settle_decoding
  settle_decoding-Fits p r (unparsed x) q e = absurd (ground arith)
  settle_decoding-Fits p r (parsed v s found) q e =
      inr (v, s, found, q, settle_value-IsFitting p r v s found e)

  pub validate_parameter-Fits :
      (p : Parameter R V) (r : R) → (validate_parameter R V lib o p r).1 ≡ none → Fits p r
  unfolding validate_parameter
  validate_parameter-Fits p r e = elim (Bool-cases (is_unchecked R V lib o p)) [
    | inl u ↦ inl u
    | inr u ↦ settle_decoding-Fits p r (decoding_of R V lib o p r) refl (rw u at e)
  ]
