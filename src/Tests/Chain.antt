-- ===== src/Tests/Chain.antt =====
-- Examples of internal/mid and internal/platform/web.
use api_firewall.Base.{◌≡◌, refl, true, false, ◌⊎◌, none, some, [], ◌∷◌, bytes, str_eq, equal_fold}
use api_firewall.Web.{Handler, returned, panicked, message, wrap_middleware}
use api_firewall.Web.App.{handle}
use api_firewall.Mid.{errors, panics, IpAllowListOptions, DenylistOptions, ip_allowlist, denylist}
use api_firewall.Mid.Recovery.{Contained, handle-Contained}
use api_firewall.Mid.Access.{Admission, access-Admission}
use api_firewall.Mid.Hops.{ProxyOptions, proxy, hop_headers}
use api_firewall.Mid.Hops.Removing.{NoHeaders, Ran, proxy-NoHeaders}
use api_firewall.Samples.{http, ctx}

-- A handler that marks the status as missing from the specification.
abbrev marking : Handler http
marking c = (
  record c { values = record (c.values) { response_status_not_found = some true } },
  returned none,
)

abbrev failing : Handler http
failing c = (c, returned (some (message (bytes "no"))))

handle-Contained_example :
    Contained http
      (wrap_middleware http [] failing ctx)
      (handle http (some (errors http) ∷ some (panics http) ∷ []) [] failing ctx)
handle-Contained_example = handle-Contained http [] failing ctx

abbrev allowlist : IpAllowListOptions
allowlist = record {
  mode = bytes "PROXY";
  header_name = [];
  custom_block_status_code = 403;
  loaded = true;
  elements_num = 1;
  cached = λ ip. str_eq ip (bytes "10.0.0.2");
  parse_ip = λ s. some s;
  denied_text = bytes "denied";
}

abbrev tokens : DenylistOptions
tokens = record {
  mode = bytes "PROXY";
  cookie_name = bytes "session";
  header_name = bytes "Authorization";
  trim_bearer_prefix = true;
  custom_block_status_code = 401;
  loaded = true;
  elements_num = 1;
  cached = λ t. str_eq t (bytes "stolen");
  denied_text = bytes "denied";
}

access-Admission_example :
    Admission http allowlist tokens marking ctx
      (ip_allowlist http allowlist (denylist http tokens marking) ctx)
access-Admission_example = access-Admission http allowlist tokens marking ctx

abbrev proxy_options : ProxyOptions
proxy_options = record {
  mode = bytes "PROXY";
  request_validation = bytes "BLOCK";
  delete_accept_encoding = true;
  server_scheme = bytes "https";
  server_host = bytes "backend.test";
}

not_graphql : str_eq (bytes "PROXY") (bytes "graphql") ≡ false
unfolding str_eq
not_graphql = refl

proxy-NoHeaders_example :
    ((r : http.Request) × NoHeaders http hop_headers r × Ran http proxy_options marking ctx r)
    ⊎ ((equal_fold (bytes "BLOCK") (bytes "block") ≡ true)
        × (ctx.values.request_id ≡ none)
        × ((proxy http proxy_options marking ctx).1 ≡ panicked))
proxy-NoHeaders_example = proxy-NoHeaders http proxy_options marking ctx not_graphql
