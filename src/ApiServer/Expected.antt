-- ===== src/ApiServer/Expected.antt =====
-- What the server of API mode is to answer for each schema.
use api_firewall.Base.{
  ◌≡◌, refl, ℕ, Bool, Option, none, some, List, [], ◌∷◌, map, Str, if◌then◌else◌,
}
use api_firewall.ApiMode.{
  ValidationError, Values, ended, Validation, validated, not_validated, validation_panic,
  method_and_path_not_found, with_id, RequestConfig,
}
use api_firewall.ApiServer.{
  Context, ServerHandler, not_found_values, handler, handle, passes_options,
}

-- A route that a router finds, with what the validation of the request against it ends with.
pub record Routed : Type 0 where
  pub has_route : Bool
  pub version : Str
  pub validation : Validation

abbrev pub no_values : Values
no_values = record { status = none; errors = none }

abbrev pub new_context : Context
new_context = record { global_status = none; values = λ i. no_values; signals = 0 }

abbrev pub validation_errors : ℕ → Str → Validation → List ValidationError
validation_errors id version (validated es) = map (with_id id version) es
validation_errors id version (not_validated e) = []
validation_errors id version (validation_panic e) = []

abbrev pub no_route_errors : ℕ → List ValidationError
no_route_errors id = record method_and_path_not_found { schema_id = some id } ∷ []

unfoldable pub validation_values : ℕ → Str → Validation → Values
validation_values id version (validated []) = record { status = some 200; errors = none }
validation_values id version (validated (e ∷ es)) = record {
  status = some 403;
  errors = some (map (with_id id version) (e ∷ es));
}
validation_values id version (not_validated e) = record { status = some 500; errors = none }
validation_values id version (validation_panic e) = no_values

unfoldable pub routed_values : ℕ → Routed → Option ℕ → Values
unfolding validation_values not_found_values
routed_values id r (some code) = no_values
routed_values id r none =
    if r.has_route then validation_values id r.version r.validation else not_found_values id

unfoldable pub global_after : Option ℕ → Option Routed → Option ℕ → Option ℕ
global_after none x g = g
global_after (some code) none g = g
global_after (some code) (some r) g = some code

pub global_after-same :
    (code : ℕ) (x : Option Routed) → global_after (some code) x (some code) ≡ some code
unfolding global_after
global_after-same code none = refl
global_after-same code (some r) = refl

pub global_after-none : (b g : Option ℕ) → g ≡ global_after b none g
unfolding global_after
global_after-none none g = refl
global_after-none (some code) g = refl

module _ (middleware : ServerHandler → ServerHandler) where
  abbrev pub found_handler : ℕ → Option Routed → Option ServerHandler
  found_handler id none = none
  found_handler id (some r) =
      some (handle middleware (handler id r.has_route r.version r.validation))

  -- What each schema's router finds.
  abbrev pub find : (ℕ → Option Routed) → ℕ → Option ServerHandler
  find routes id = found_handler id (routes id)

  -- A request that is blocked gets a status code for all schemas, and its handler is not called.
  abbrev pub IsGate : Option ℕ → Type 0
  IsGate blocks =
      (h : ServerHandler) (c : Context)
      → middleware h c ≡ elim blocks [
        | none ↦ h c
        | some code ↦ (record c { global_status = some code }, ended none)
      ]

module _ (cfg : RequestConfig) where
  abbrev pub validation_code : Validation → ℕ
  validation_code (validated []) = 200
  validation_code (validated (e ∷ es)) = 403
  validation_code (not_validated e) = 500
  validation_code (validation_panic e) = if passes_options cfg then 200 else 500

  -- The status code that is reported for a schema.
  abbrev pub code_of : Option Routed → ℕ
  code_of none = if passes_options cfg then 200 else 403
  code_of (some r) = if r.has_route then validation_code r.validation else 403

  -- The errors that are reported for a schema.
  abbrev pub errors_of : ℕ → Option Routed → List ValidationError
  errors_of id none = if passes_options cfg then [] else no_route_errors id
  errors_of id (some r) =
      if r.has_route then validation_errors id r.version r.validation else no_route_errors id

  unfoldable pub values_of : Option ℕ → ℕ → Option Routed → Values
  unfolding routed_values
  values_of blocks id none =
      if passes_options cfg
      then record { status = some 200; errors = none }
      else not_found_values id
  values_of blocks id (some r) = routed_values id r blocks
