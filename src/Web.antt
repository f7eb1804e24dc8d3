-- ===== src/Web.antt =====
-- internal/platform/web: the request context, the outcome of a handler, the error response, body
-- decompression and the middleware chain. fasthttp is the parameter `Http`: its request and
-- response types with the calls that the firewall makes, and the documented behaviour it needs.
pub mod App
pub mod Bodies
use api_firewall.Base.{
  ℕ, ◌≡◌, refl, Bool, true, false, Option, none, some, List, [], ◌∷◌, Str, bytes, str_eq, zero, suc,
  ◌∙◌, get_or, length, equal_fold, if◌then◌else◌,
}

pub record Http : Type 1 where
  pub Request : Type 0
  pub Response : Type 0
  pub method : Request → Str
  pub path : Request → Str
  pub peek : Request → Str → Option Str
  pub cookie : Request → Str → Str
  pub content_type : Request → Str
  pub content_encoding : Request → Str
  pub body : Request → Str
  pub scheme : Request → Str
  pub host : Request → Str
  pub connection_upgrade : Request → Bool
  pub set_header : Request → Str → Str → Request
  pub add_header : Request → Str → Str → Request
  pub del_header : Request → Str → Request
  pub set_content_type : Request → Str → Request
  pub set_scheme : Request → Str → Request
  pub set_uri_host : Request → Str → Request
  pub set_host_header : Request → Str → Request
  pub status_code : Response → ℕ
  pub resp_peek : Response → Str → Option Str
  pub resp_content_type : Response → Str
  pub resp_content_encoding : Response → Str
  pub resp_body : Response → Str
  pub resp_connection_upgrade : Response → Bool
  -- `ctx.Error`: resets the response, then sets the status code and the body
  pub error : Response → Str → ℕ → Response
  pub set_status : Response → ℕ → Response
  pub add_resp_header : Response → Str → Str → Response
  pub set_resp_header : Response → Str → Str → Response
  pub del_resp_header : Response → Str → Response
  pub write_body : Response → Str → Response
  pub status_code-error : (r : Response) (m : Str) (c : ℕ) → status_code (error r m c) ≡ c
  pub status_code-set : (r : Response) (c : ℕ) → status_code (set_status r c) ≡ c
  pub status_code-add :
      (r : Response) (k v : Str) → status_code (add_resp_header r k v) ≡ status_code r
  pub status_code-put :
      (r : Response) (k v : Str) → status_code (set_resp_header r k v) ≡ status_code r
  pub status_code-del : (r : Response) (k : Str) → status_code (del_resp_header r k) ≡ status_code r
  pub status_code-write : (r : Response) (b : Str) → status_code (write_body r b) ≡ status_code r
  -- nothing of the response that is reset is left
  pub error-resets : (r r' : Response) (m : Str) (c : ℕ) → error r m c ≡ error r' m c
  -- header names are compared without case
  pub peek-del :
      (r : Request) (k j : Str)
      → peek (del_header r k) j ≡ (if equal_fold k j then none else peek r j)
  pub peek-add :
      (r : Request) (k v j : Str) → equal_fold k j ≡ false → peek (add_header r k v) j ≡ peek r j
  pub peek-set :
      (r : Request) (k v j : Str)
      → peek (set_header r k v) j ≡ (if equal_fold k j then some v else peek r j)
  pub peek-scheme : (r : Request) (s j : Str) → peek (set_scheme r s) j ≡ peek r j
  pub peek-host :
      (r : Request) (s j : Str)
      → equal_fold (bytes "Host") j ≡ false
      → peek (set_uri_host r s) j ≡ peek r j

-- The errors that the code tells apart; `message` stands for any other.
pub data Error : Type 0 where
  shutdown_error : Str → Error
  dial_timeout no_free_conns encoding_unsupported zlib_header : Error
  pool_closed no_backends invalid_options : Error
  message : Str → Error

-- `web.IsShutdown`
unfoldable pub is_shutdown : Error → Bool
is_shutdown (shutdown_error s) = true
is_shutdown _ = false

pub record Actions : Type 0 where
  pub request : Str
  pub response : Str

-- The user values of a context that the firewall reads and writes; `none` is a missing key.
pub record UserValues : Type 0 where
  pub endpoint_actions : Option Actions
  pub pass_request_options : Option Bool
  pub request_proxy_failed : Option Bool
  pub request_proxy_no_route : Option Bool
  pub request_blocked : Option Bool
  pub response_blocked : Option Bool
  pub response_status_not_found : Option Bool
  pub global_response_status_code : Option ℕ
  pub request_id : Option Str
  pub route_params : Option (List (Str × Str))

-- What a handler ends with: an error value (nil is `none`) or a panic on its way up.
pub data Outcome : Type 0 where
  returned : Option Error → Outcome
  panicked : Outcome

abbrev pub validation_disable : Str
validation_disable = bytes "disable"

abbrev pub validation_block : Str
validation_block = bytes "block"

abbrev pub validation_log : Str
validation_log = bytes "log_only"

abbrev pub validation_status : Str
validation_status = bytes "APIFW-Validation-Status"

module _ (h : Http) where
  -- `upstream` records the requests sent to the backend so far, `shadow` counts the shadow API
  -- violations logged and `signals` the shutdown signals raised: what a caller can observe.
  pub record Ctx : Type 0 where
    pub request : h.Request
    pub response : h.Response
    pub values : UserValues
    pub remote_ip : Option Str
    pub upstream : List h.Request
    pub shadow : ℕ
    pub signals : ℕ

  abbrev pub Handler : Type 0
  Handler = Ctx → Ctx × Outcome

  abbrev pub Middleware : Type 0
  Middleware = Handler → Handler

  unfoldable pub add_status_header : h.Response → Str → h.Response
  add_status_header r [] = r
  add_status_header r (b ∷ header) = h.add_resp_header r validation_status (b ∷ header)

  -- `RespondError`; its result is always nil.
  unfoldable pub respond_error : Ctx → ℕ → Str → Ctx
  unfolding add_status_header
  respond_error c code header = record c {
    response = add_status_header (h.error c.response [] code) header;
  }

  pub status_code-respond_error :
      (c : Ctx) (code : ℕ) (header : Str)
      → h.status_code (respond_error c code header).response ≡ code
  unfolding respond_error
  status_code-respond_error c code [] = h.status_code-error c.response [] code
  status_code-respond_error c code (b ∷ header) =
      h.status_code-add (h.error c.response [] code) validation_status (b ∷ header)
      ∙ h.status_code-error c.response [] code

  -- Of the context only the response changes.
  pub respond_error_frame :
      (c : Ctx) (code : ℕ) (header : Str)
      → ((respond_error c code header).upstream ≡ c.upstream)
        × ((respond_error c code header).values ≡ c.values)
        × ((respond_error c code header).request ≡ c.request)
  unfolding respond_error
  respond_error_frame c code header = (refl, refl, refl)

  apply : Option Middleware → Handler → Handler
  apply none handler = handler
  apply (some m) handler = m handler

  -- The loop of `WrapMiddleware` from `i` = k - 1 down to 0; a nil middleware is left out.
  wrap_down : ℕ → List (Option Middleware) → Handler → Handler
  unfolding apply
  wrap_down zero mw handler = handler
  wrap_down (suc i) mw handler = wrap_down i mw (apply (get_or mw i none) handler)

  unfoldable pub wrap_middleware : List (Option Middleware) → Handler → Handler
  unfolding wrap_down
  wrap_middleware mw handler = wrap_down (length mw) mw handler
