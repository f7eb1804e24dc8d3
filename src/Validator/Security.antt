-- ===== src/Validator/Security.antt =====
-- The security requirements of internal/platform/validator/validate_request.go, and the
-- authentication function of cmd/api-firewall/internal/handlers/proxy/openapi.go. A Go map from
-- names to scopes is the list of its entries in the order of the names, which the source sorts.
use api_firewall.Base.{
  ◌≡◌, refl, ◌↔◌, ◌⊎◌, inl, inr, Bool, ◌||◌, not, Option, none, some, is_some, List, [], ◌∷◌, ◌++◌,
  Str, bytes, str_eq, to_lower, has_prefix, if◌then◌else◌, arith, Option-cases, All,
}

pub data SecurityError : Type 0 where
  missing_header : Str → SecurityError
  missing_query : Str → SecurityError
  missing_cookie : Str → SecurityError
  oauth_not_configured : SecurityError
  oauth_error : Str → SecurityError
  authentication_missing : SecurityError
  not_declared : Str → SecurityError

pub record Scheme : Type 0 where
  pub type_of : Str
  pub scheme : Str
  pub place : Str
  pub name : Str

-- What the authentication reads of a request; a header or query value that is not there is empty.
pub record Credentials : Type 0 where
  pub header : Str → Str
  pub query : Str → Str
  pub cookie : Str → Option Str

-- `oauthValidator.Validate` on a header and scopes
abbrev pub Oauth : Type 0
Oauth = Str → List Str → Option Str

-- `bHeader == "" || !HasPrefix(ToLower(bHeader), prefix)`
unfoldable pub lacks_prefix : Str → Str → Bool
lacks_prefix header prefix = str_eq header [] || not (has_prefix (to_lower header) prefix)

check_http : Str → Credentials → Option SecurityError
unfolding lacks_prefix
check_http scheme c =
    let header = c.header (bytes "Authorization") in
    if str_eq scheme (bytes "basic")
    then (if lacks_prefix header (bytes "basic ")
        then some (missing_header (bytes "basic"))
        else none)
    else if str_eq scheme (bytes "bearer")
    then (if lacks_prefix header (bytes "bearer ")
        then some (missing_header (bytes "bearer"))
        else none)
    else none

settle_oauth : Option Str → Option SecurityError
settle_oauth none = none
settle_oauth (some e) = some (oauth_error e)

check_oauth : Option Oauth → List Str → Credentials → Option SecurityError
unfolding settle_oauth
check_oauth none scopes c = some oauth_not_configured
check_oauth (some validate) scopes c =
    settle_oauth (validate (c.header (bytes "Authorization")) scopes)

check_key : Str → Str → Credentials → Option SecurityError
check_key place name c =
    if str_eq place (bytes "header")
    then (if str_eq (c.header name) [] then some (missing_header name) else none)
    else if str_eq place (bytes "query")
    then (if str_eq (c.query name) [] then some (missing_query name) else none)
    else if str_eq place (bytes "cookie")
    then (if is_some (c.cookie name) then none else some (missing_cookie name))
    else none

-- The `AuthenticationFunc`
unfoldable pub authenticate : Option Oauth → Credentials → Scheme → List Str → Option SecurityError
unfolding check_http check_oauth check_key
authenticate oauth c s scopes =
    if str_eq s.type_of (bytes "http")
    then check_http s.scheme c
    else if str_eq s.type_of (bytes "oauth2") || str_eq s.type_of (bytes "openIdConnect")
    then check_oauth oauth scopes c
    else if str_eq s.type_of (bytes "apiKey")
    then check_key s.place s.name c
    else none

abbrev pub Authenticate : Type 0
Authenticate = Scheme → List Str → Option SecurityError

abbrev pub Requirement : Type 0
Requirement = List (Str × List Str)

-- A name's scheme, with what the rest of the loop ends with.
check_scheme :
    Authenticate → Str → List Str → Option Scheme → Option SecurityError → Option SecurityError
check_scheme f name scopes none rest = some (not_declared name)
check_scheme f name scopes (some s) rest = elim (f s scopes) [ none ↦ rest | some e ↦ some e ]

-- The loop over the schemes of a requirement.
check_schemes : Authenticate → (Str → Option Scheme) → Requirement → Option SecurityError
unfolding check_scheme
check_schemes f schemes [] = none
check_schemes f schemes ((name, scopes) ∷ sr) =
    check_scheme f name scopes (schemes name) (check_schemes f schemes sr)

-- `validateSecurityRequirement`; with no authentication function it fails for any requirement.
unfoldable pub validate_security_requirement :
    Option Authenticate → (Str → Option Scheme) → Requirement → Option SecurityError
unfolding check_schemes
validate_security_requirement none schemes sr = some authentication_missing
validate_security_requirement (some f) schemes sr = check_schemes f schemes sr

-- The loop over the requirements, with the errors so far; the result is the errors of all.
requirements_loop :
    Option Authenticate
    → (Str → Option Scheme)
    → List Requirement
    → List SecurityError
    → Option (List SecurityError)
unfolding validate_security_requirement
requirements_loop f schemes [] errs = some errs
requirements_loop f schemes (sr ∷ srs) errs = elim (validate_security_requirement f schemes sr) [
  | some e ↦ requirements_loop f schemes srs (errs ++ e ∷ [])
  | none ↦ none
]

-- `ValidateSecurityRequirements`
unfoldable pub validate_security_requirements :
    Option Authenticate → (Str → Option Scheme) → List Requirement → Option (List SecurityError)
unfolding requirements_loop
validate_security_requirements f schemes [] = none
validate_security_requirements f schemes (sr ∷ srs) = requirements_loop f schemes (sr ∷ srs) []

-- A scheme is declared and its authentication passes.
abbrev pub Passes : Authenticate → (Str → Option Scheme) → Str × List Str → Type 0
Passes f schemes (name, scopes) = (s : Scheme) × (schemes name ≡ some s) × (f s scopes ≡ none)

-- All schemes of one of the requirements pass.
abbrev pub AnyPasses : Authenticate → (Str → Option Scheme) → List Requirement → Type 0
AnyPasses f schemes [] = ⊥
AnyPasses f schemes (sr ∷ srs) = All (Passes f schemes) sr ⊎ AnyPasses f schemes srs

module _ (f : Authenticate) (schemes : Str → Option Scheme) where
  check_scheme_iff :
      (name : Str) (scopes : List Str) (o : Option Scheme) (rest : Option SecurityError)
      → schemes name ≡ o
      → (check_scheme f name scopes o rest ≡ none)
        ↔ (Passes f schemes (name, scopes) × (rest ≡ none))
  unfolding check_scheme
  check_scheme_iff name scopes none rest e =
      (λ q. absurd (ground arith), λ ((s, at_s, ok), r). absurd (ground arith))
  check_scheme_iff name scopes (some s) rest e = elim (Option-cases (f s scopes)) [
    | inl ok ↦ (λ q. ((s, e, ok), rw (ok, check_scheme) at q), λ (p, r). rw (ok, check_scheme) r)
    | inr (x, bad) ↦ (
      λ q. absurd (ground arith),
      λ ((t, at_t, ok), r).
          let same : s ≡ t = ground arith in absurd (ground (arith, same, bad, ok)),
    )
  ]

  check_schemes_iff :
      (sr : Requirement) → (check_schemes f schemes sr ≡ none) ↔ All (Passes f schemes) sr
  unfolding check_schemes
  check_schemes_iff [] = (λ e. tt, λ p. refl)
  check_schemes_iff ((name, scopes) ∷ sr) =
      let here = check_scheme_iff name scopes (schemes name) (check_schemes f schemes sr) refl in
      let there = check_schemes_iff sr in
      (λ e. let (p, r) = here.0 e in (p, there.0 r), λ (p, ps). here.1 (p, there.1 ps))

  requirements_loop_iff :
      (srs : List Requirement) (errs : List SecurityError)
      → (requirements_loop (some f) schemes srs errs ≡ none) ↔ AnyPasses f schemes srs
  unfolding requirements_loop validate_security_requirement
  requirements_loop_iff [] errs = (λ e. absurd (ground arith), λ x. absurd x)
  requirements_loop_iff (sr ∷ srs) errs = elim (Option-cases (check_schemes f schemes sr)) [
    | inl ok ↦ (λ e. inl ((check_schemes_iff sr).0 ok), λ x. rw (ok, requirements_loop))
    | inr (x, bad) ↦
        let rest = requirements_loop_iff srs (errs ++ x ∷ []) in
        (
          λ e. inr (rest.0 (rw (bad, requirements_loop) at e)),
          λ p.
              rw (bad, requirements_loop)
                (elim p [
                  | inl all ↦
                      let ok = (check_schemes_iff sr).1 all in absurd (ground (arith, ok, bad))
                  | inr any ↦ rest.1 any
                ]),
        )
  ]

  -- The security requirements of an operation are met exactly if there are none, or each scheme of
  -- one of them is declared and passes its authentication.
  pub validate_security_requirements_iff :
      (srs : List Requirement)
      → (validate_security_requirements (some f) schemes srs ≡ none)
        ↔ ((srs ≡ []) ⊎ AnyPasses f schemes srs)
  unfolding validate_security_requirements
  validate_security_requirements_iff [] = (λ e. inl refl, λ p. refl)
  validate_security_requirements_iff (sr ∷ srs) =
      let loop = requirements_loop_iff (sr ∷ srs) [] in
      (λ e. inr (loop.0 e), λ p. elim p [ inl e ↦ absurd (ground arith) | inr any ↦ loop.1 any ])
