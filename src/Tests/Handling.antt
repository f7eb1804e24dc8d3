-- ===== src/Tests/Handling.antt =====
-- Examples of the handler of proxy mode.
use api_firewall.Base.{
  ◌≡◌, refl, true, false, ◌&&◌, none, some, [], ◌∷◌, bytes, str_eq, to_lower, equal_fold,
}
use api_firewall.Web.{Ctx, validation_block}
use api_firewall.Web.Bodies.{readable, get_decompressed}
use api_firewall.Balancer.{new_load_balancer}
use api_firewall.Pool.{perform}
use api_firewall.Waf.{Config, Services, skips, modes, openapi_waf_handler}
use api_firewall.Waf.Header.{ValidationError, response_error, request_error}
use api_firewall.Waf.Passing.{SentOnce, openapi_waf_handler-SentOnce}
use api_firewall.Waf.Blocking.{is_objected, Blocked, block_mode-Blocked}
use api_firewall.Waf.Responses.{Replaced, block_mode-Replaced}
use api_firewall.Samples.{http, ctx}

abbrev cfg : Config
cfg = record {
  request_validation = bytes "BLOCK";
  response_validation = bytes "BLOCK";
  custom_block_status_code = 403;
  add_validation_status_header = true;
  unknown_parameters_detection = true;
  request_host_header = [];
}

abbrev objection : ValidationError
objection = request_error (bytes "bad") (some (bytes "id")) none false (bytes "text")

abbrev strict : Services http
strict = record {
  pool = record {
    lb = new_load_balancer (bytes "b:80" ∷ []) 0 0;
    closed = false;
    idle_closes = 0;
    host = bytes "b";
    port = bytes "80";
    host_port = bytes "b:80";
  };
  client = record { do_request = λ r resp. (resp, none) };
  codec = record { uncompress = λ encoding raw. readable raw; inflate = λ raw. raw };
  converts = λ r. true;
  validate_request = λ r b. some objection;
  unknown_parameters = λ r. 0;
  validate_response = λ r resp b. some (response_error (bytes "bad"));
}

-- The same service, whose requests all fit.
abbrev lenient : Services http
lenient = record strict { validate_request = λ r b. none }

in_force : skips http cfg strict ctx.values.pass_request_options (modes http cfg strict ctx) ≡ false
unfolding skips modes equal_fold str_eq to_lower
in_force = refl

blocks : str_eq (to_lower (modes http cfg strict ctx).0) validation_block ≡ true
unfolding modes str_eq to_lower
blocks = refl

no_body :
    get_decompressed strict.codec (http.body ctx.request) (http.content_encoding ctx.request)
    ≡ readable []
unfolding get_decompressed str_eq equal_fold to_lower
no_body = refl

block_mode-Blocked_example :
    (is_objected http cfg strict ctx [] ≡ true
      → Blocked http cfg strict ctx (openapi_waf_handler http cfg strict true ctx))
    × (is_objected http cfg strict ctx [] ≡ false
        → (openapi_waf_handler http cfg strict true ctx).0.upstream
          ≡ (perform http strict.pool strict.client [] ctx).0.upstream)
block_mode-Blocked_example = block_mode-Blocked http cfg strict ctx [] in_force refl no_body blocks

openapi_waf_handler-SentOnce_example :
    SentOnce http [] (openapi_waf_handler http cfg strict true ctx).0.upstream
openapi_waf_handler-SentOnce_example = openapi_waf_handler-SentOnce http cfg strict true ctx

lenient_no_body :
    get_decompressed lenient.codec (http.body ctx.request) (http.content_encoding ctx.request)
    ≡ readable []
unfolding get_decompressed str_eq equal_fold to_lower
lenient_no_body = refl

-- What the backend answers.
abbrev answered : Ctx http
answered = record ctx { upstream = ctx.request ∷ [] }

answers : perform http lenient.pool lenient.client [] ctx ≡ (answered, none)
unfolding perform
answers = refl

lenient_in_force :
    skips http cfg lenient ctx.values.pass_request_options (modes http cfg lenient ctx) ≡ false
unfolding skips modes equal_fold str_eq to_lower
lenient_in_force = refl

fits :
    (str_eq (to_lower (modes http cfg lenient ctx).0) validation_block
      && is_objected http cfg lenient ctx [])
    ≡ false
unfolding modes str_eq to_lower
fits = refl

response_blocks : str_eq (to_lower (modes http cfg lenient ctx).1) validation_block ≡ true
unfolding modes str_eq to_lower
response_blocks = refl

no_answer_body :
    get_decompressed lenient.codec
      (http.resp_body answered.response)
      (http.resp_content_encoding answered.response)
    ≡ readable []
unfolding get_decompressed str_eq
no_answer_body = refl

block_mode-Replaced_example :
    ((v : ValidationError)
      → lenient.validate_response answered.request answered.response [] ≡ some v
      → Replaced http cfg lenient answered v (openapi_waf_handler http cfg lenient true ctx).0)
    × (lenient.validate_response answered.request answered.response [] ≡ none
        → (openapi_waf_handler http cfg lenient true ctx).0 ≡ answered)
block_mode-Replaced_example =
    block_mode-Replaced http cfg lenient ctx answered [] [] lenient_in_force refl lenient_no_body
      fits answers no_answer_body response_blocks
