-- ===== src/Samples.antt =====
-- A small HTTP library for the tests: headers are functions of the name, whose case is ignored.
use api_firewall.Base.{
  ℕ, ◌≡◌, refl, false, Option, none, some, [], Str, bytes, equal_fold, if◌then◌else◌,
}
use api_firewall.Web.{Http, UserValues, Ctx}

pub record Req : Type 0 where
  pub verb : Str
  pub target : Str
  pub headers : Str → Option Str
  pub scheme : Str
  pub host : Str
  pub body : Str

pub record Resp : Type 0 where
  pub code : ℕ
  pub headers : Str → Option Str
  pub body : Str

abbrev pub put_header : Str → Option Str → (Str → Option Str) → Str → Option Str
put_header k v hs j = if equal_fold k j then v else hs j

abbrev pub text_of : Option Str → Str
text_of none = []
text_of (some s) = s

pub put_header_other :
    (k v j : Str) (hs : Str → Option Str)
    → equal_fold k j ≡ false
    → put_header k (some v) hs j ≡ hs j
put_header_other k v j hs e = rw e

abbrev pub http : Http
http = record {
  Request = Req;
  Response = Resp;
  method = λ r. r.verb;
  path = λ r. r.target;
  peek = λ r k. r.headers k;
  cookie = λ r k. [];
  content_type = λ r. text_of (r.headers (bytes "Content-Type"));
  content_encoding = λ r. text_of (r.headers (bytes "Content-Encoding"));
  body = λ r. r.body;
  scheme = λ r. r.scheme;
  host = λ r. r.host;
  connection_upgrade = λ r. equal_fold (text_of (r.headers (bytes "Connection"))) (bytes "upgrade");
  set_header = λ r k v. record r { headers = put_header k (some v) r.headers };
  add_header = λ r k v. record r { headers = put_header k (some v) r.headers };
  del_header = λ r k. record r { headers = put_header k none r.headers };
  set_content_type =
      λ r v. record r { headers = put_header (bytes "Content-Type") (some v) r.headers };
  set_scheme = λ r s. record r { scheme = s };
  set_uri_host =
      λ r s. record r { host = s; headers = put_header (bytes "Host") (some s) r.headers };
  set_host_header = λ r s. record r { headers = put_header (bytes "Host") (some s) r.headers };
  status_code = λ r. r.code;
  resp_peek = λ r k. r.headers k;
  resp_content_type = λ r. text_of (r.headers (bytes "Content-Type"));
  resp_content_encoding = λ r. text_of (r.headers (bytes "Content-Encoding"));
  resp_body = λ r. r.body;
  resp_connection_upgrade =
      λ r. equal_fold (text_of (r.headers (bytes "Connection"))) (bytes "upgrade");
  error = λ r m c. record { code = c; headers = λ k. none; body = m };
  set_status = λ r c. record r { code = c };
  add_resp_header = λ r k v. record r { headers = put_header k (some v) r.headers };
  set_resp_header = λ r k v. record r { headers = put_header k (some v) r.headers };
  del_resp_header = λ r k. record r { headers = put_header k none r.headers };
  write_body = λ r b. record r { body = b };
  status_code-error = λ r m c. refl;
  status_code-set = λ r c. refl;
  status_code-add = λ r k v. refl;
  status_code-put = λ r k v. refl;
  status_code-del = λ r k. refl;
  status_code-write = λ r b. refl;
  error-resets = λ r r' m c. refl;
  peek-del = λ r k j. refl;
  peek-add = λ r k v j e. put_header_other k v j r.headers e;
  peek-set = λ r k v j. refl;
  peek-scheme = λ r s j. refl;
  peek-host = λ r s j e. put_header_other (bytes "Host") s j r.headers e;
}

abbrev pub values : UserValues
values = record {
  endpoint_actions = none;
  pass_request_options = none;
  request_proxy_failed = none;
  request_proxy_no_route = none;
  request_blocked = none;
  response_blocked = none;
  response_status_not_found = none;
  global_response_status_code = none;
  request_id = some (bytes "7");
  route_params = none;
}

abbrev pub ctx : Ctx http
ctx = record {
  request = record {
    verb = bytes "GET";
    target = bytes "/users/4";
    headers = λ k. if equal_fold k (bytes "Connection") then some (bytes "close") else none;
    scheme = bytes "http";
    host = bytes "api.test";
    body = [];
  };
  response = record { code = 200; headers = λ k. none; body = [] };
  values = values;
  remote_ip = some (bytes "10.0.0.1");
  upstream = [];
  shadow = 0;
  signals = 0;
}
