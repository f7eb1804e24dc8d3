-- ===== src/Validator/Requests/Accepting.antt =====
-- What a request that is accepted has passed.
use api_firewall.Base.{
  ◌≡◌, refl, ap, subst, ◌∙◌, ◌⊎◌, inl, inr, Bool, true, false, ◌&&◌, Option, none, some, List, [],
  ◌∷◌, ◌++◌, Str, bytes, str_eq, if◌then◌else◌, arith, Bool-cases,
}
use api_firewall.Validator.Requests.{
  Options, Refusal, Verdict, valid, refused, Parameter, RequestBody, Library, Operation,
  validate_parameter, validate_request_body, Check, settle_security, is_overridden, path_checks,
  operation_checks, body_checks, checks_of, conclude, after_check, run_checks, validate_request,
}
use api_firewall.Validator.Requests.Fitting.{Fits, validate_parameter-Fits}
use api_firewall.Validator.Requests.Bodies.{BodyFits, validate_request_body-BodyFits}

module _ (R V : Type 0) (lib : Library R V) (o : Options) where
  -- The checks pass one after another, each on the request as the one before left it.
  abbrev Chain : List (Check R V lib o) → R → Type 0
  Chain [] r = Unit
  Chain (c ∷ cs) r = ((c r).1 ≡ none) × Chain cs (c r).0

  conclude-valid : (me : List Refusal) → conclude R V lib o me ≡ valid → me ≡ []
  unfolding conclude
  conclude-valid [] e = refl
  conclude-valid (x ∷ me) e = absurd (ground arith)

  append_one-empty : (me : List Refusal) (x : Refusal) → me ++ x ∷ [] ≡ [] → ⊥
  append_one-empty [] x e = ground arith
  append_one-empty (y ∷ me) x e = ground arith

  if-valid :
      (b : Bool) (x : R × Verdict) (r : R) (f : Refusal)
      → (if b then x else (r, refused f)).1 ≡ valid
      → x.1 ≡ valid
  if-valid true x r f e = e
  if-valid false x r f e = absurd (ground arith)

  after_check-Chain :
      (cs : List (Check R V lib o)) (me : List Refusal) (x : R × Option Refusal)
      → ((me' : List Refusal) (r' : R)
          → (run_checks R V lib o cs me' r').1 ≡ valid
          → (me' ≡ []) × Chain cs r')
      → (after_check R V lib o x
          (λ r'. run_checks R V lib o cs me r')
          (λ f r'. run_checks R V lib o cs (me ++ f ∷ []) r')).1
        ≡ valid
      → (me ≡ []) × ((x.1 ≡ none) × Chain cs x.0)
  unfolding after_check
  after_check-Chain cs me (r', none) rest e = let (nil, all) = rest me r' e in (nil, (refl, all))
  after_check-Chain cs me (r', some f) rest e =
      let (nil, all) = rest (me ++ f ∷ []) r' (if-valid o.multi_error _ r' f e) in
      absurd (append_one-empty me f nil)

  run_checks-Chain :
      (cs : List (Check R V lib o)) (me : List Refusal) (r : R)
      → (run_checks R V lib o cs me r).1 ≡ valid
      → (me ≡ []) × Chain cs r
  unfolding run_checks
  run_checks-Chain [] me r e = (conclude-valid me e, tt)
  run_checks-Chain (c ∷ cs) me r e =
      after_check-Chain cs me (c r) (λ me' r' h. run_checks-Chain cs me' r' h) e

  -- The parameters of a loop that are not left out fit one after another, each on the request as the
  -- checks before left it; the first request is that before the loop, the second that after it.
  abbrev pub Checked : (Parameter R V → Bool) → List (Parameter R V) → R → R → Type 0
  Checked is_left_out [] r r' = r ≡ r'
  Checked is_left_out (p ∷ ps) r r' =
      ((is_left_out p ≡ true) × Checked is_left_out ps r r')
      ⊎ ((is_left_out p ≡ false)
          × Fits R V lib o p r
          × Checked is_left_out ps (validate_parameter R V lib o p r).0 r')

  -- What a chain of checks gives that starts with those of a loop.
  abbrev Split : (Parameter R V → Bool) → List (Parameter R V) → List (Check R V lib o) → R → Type 0
  Split is_left_out ps rest r = (mid : R) × Checked is_left_out ps r mid × Chain rest mid

  Split-skip :
      (skip : Parameter R V → Bool) (p : Parameter R V) (ps : List (Parameter R V))
      (rest : List (Check R V lib o)) (r : R)
      → skip p ≡ true
      → Split skip ps rest r
      → Split skip (p ∷ ps) rest r
  Split-skip skip p ps rest r e (mid, c, q) = (mid, inl (e, c), q)

  Split-keep :
      (skip : Parameter R V → Bool) (p : Parameter R V) (ps : List (Parameter R V))
      (rest : List (Check R V lib o)) (r : R)
      → skip p ≡ false
      → (validate_parameter R V lib o p r).1 ≡ none
      → Split skip ps rest (validate_parameter R V lib o p r).0
      → Split skip (p ∷ ps) rest r
  Split-keep skip p ps rest r e fits (mid, c, q) =
      (mid, inr (e, validate_parameter-Fits R V lib o p r fits, c), q)

  path_checks-Split :
      (operation ps : List (Parameter R V)) (rest : List (Check R V lib o)) (r : R)
      → Chain (path_checks R V lib o operation ps ++ rest) r
      → Split (is_overridden R V lib o operation) ps rest r
  unfolding path_checks
  path_checks-Split operation [] rest r x = (r, refl, x)
  path_checks-Split operation (p ∷ ps) rest r x =
      elim (Bool-cases (is_overridden R V lib o operation p)) [
        | inl e ↦
            Split-skip _ p ps rest r e
              (path_checks-Split operation ps rest r (rw (e, path_checks) at x))
        | inr e ↦
            let y : Chain
                (validate_parameter R V lib o p ∷ (path_checks R V lib o operation ps ++ rest)) r =
              rw (e, path_checks) at x in
            Split-keep _ p ps rest r e y.0
              (path_checks-Split operation ps rest (validate_parameter R V lib o p r).0 y.1)
      ]

  -- A query parameter of the operation, where these are not checked.
  abbrev pub is_excluded : Parameter R V → Bool
  is_excluded p = o.exclude_request_query_params && str_eq p.place (bytes "query")

  operation_checks-kept :
      (p : Parameter R V) (ps : List (Parameter R V))
      → is_excluded p ≡ false
      → operation_checks R V lib o (p ∷ ps)
        ≡ validate_parameter R V lib o p ∷ operation_checks R V lib o ps
  unfolding operation_checks
  operation_checks-kept p ps e = ground arith

  operation_checks-excluded :
      (p : Parameter R V) (ps : List (Parameter R V))
      → is_excluded p ≡ true
      → operation_checks R V lib o (p ∷ ps) ≡ operation_checks R V lib o ps
  unfolding operation_checks
  operation_checks-excluded p ps e = ground arith

  operation_checks-Split :
      (ps : List (Parameter R V)) (rest : List (Check R V lib o)) (r : R)
      → Chain (operation_checks R V lib o ps ++ rest) r
      → Split is_excluded ps rest r
  unfolding operation_checks
  operation_checks-Split [] rest r x = (r, refl, x)
  operation_checks-Split (p ∷ ps) rest r x = elim (Bool-cases (is_excluded p)) [
    | inl e ↦ Split-skip is_excluded p ps rest r e (
        operation_checks-Split ps rest r
          (subst (λ cs. Chain (cs ++ rest) r) (operation_checks-excluded p ps e) x))
    | inr e ↦
        let y : Chain (validate_parameter R V lib o p ∷ (operation_checks R V lib o ps ++ rest)) r =
          subst (λ cs. Chain (cs ++ rest) r) (operation_checks-kept p ps e) x in
        Split-keep is_excluded p ps rest r e y.0
          (operation_checks-Split ps rest (validate_parameter R V lib o p r).0 y.1)
  ]

  body_checks-some :
      (b : RequestBody R V)
      → o.exclude_request_body ≡ false
      → body_checks R V lib o (some b) ≡ validate_request_body R V lib o b ∷ []
  unfolding body_checks
  body_checks-some b e = ground arith

  body_checks-BodyFits :
      (body : Option (RequestBody R V)) (b : RequestBody R V) (r : R)
      → body ≡ some b
      → o.exclude_request_body ≡ false
      → Chain (body_checks R V lib o body) r
      → BodyFits R V lib o b r
  body_checks-BodyFits body b r e x all =
      let y : Chain (validate_request_body R V lib o b ∷ []) r =
        subst (λ cs. Chain cs r) (ap (body_checks R V lib o) e ∙ body_checks-some b x) all in
      validate_request_body-BodyFits R V lib o b r y.0

  settle_security-none :
      (r : R) (e : Option (List Str))
      → (settle_security R V lib o r e).1 ≡ none
      → (e ≡ none) × ((settle_security R V lib o r e).0 ≡ r)
  unfolding settle_security
  settle_security-none r none q = (refl, refl)
  settle_security-none r (some errs) q = absurd (ground arith)

  -- What a request that is accepted has passed.
  pub record Accepted (op : Operation R V) (r : R) : Type 0 where
    pub secure : op.security r ≡ none
    pub after_path : R
    pub path_parameters :
        Checked (is_overridden R V lib o op.parameters) op.path_item_parameters r after_path
    pub after_parameters : R
    pub parameters : Checked is_excluded op.parameters after_path after_parameters
    pub body :
        (b : RequestBody R V)
        → op.request_body ≡ some b
        → o.exclude_request_body ≡ false
        → BodyFits R V lib o b after_parameters

  -- A request that is accepted, whether or not all errors are asked for, meets the security
  -- requirements as it came. Then, each on the request as the checks before left it, with the default
  -- values that they filled in: each parameter of the path item that the operation does not override,
  -- and after these each of the operation that is not excluded, was found if required and fits its
  -- schema; and last the body, unless excluded, is there if required, and has a known media type, for
  -- which it fits the schema.
  pub validate_request-Accepted :
      (op : Operation R V) (r : R) → (validate_request R V lib o op r).1 ≡ valid → Accepted op r
  unfolding validate_request checks_of
  validate_request-Accepted op r e =
      let all = (run_checks-Chain (checks_of R V lib o op) [] r e).1 in
      let (secure, same) = settle_security-none r (op.security r) all.0 in
      let rest = body_checks R V lib o op.request_body in
      let path =
        path_checks-Split op.parameters op.path_item_parameters
          (operation_checks R V lib o op.parameters ++ rest) r
          (subst
            (Chain (
              path_checks R V lib o op.parameters op.path_item_parameters
              ++ (operation_checks R V lib o op.parameters ++ rest)))
            same all.1) in
      let own = operation_checks-Split op.parameters rest path.0 path.2 in
      record {
        secure = secure;
        after_path = path.0;
        path_parameters = path.1;
        after_parameters = own.0;
        parameters = own.1;
        body = λ b q x. body_checks-BodyFits op.request_body b own.0 q x own.2;
      }
