-- ===== src/Tests/Queries.antt =====
-- Examples of GraphQL mode.
use api_firewall.Base.{
  ◌≡◌, refl, ◌↔◌, ◌⊎◌, true, false, none, some, [], ◌∷◌, bytes, to_lower, equal_fold, str_eq, All,
}
use api_firewall.GraphQl.{
  GraphQlConfig, Field, Document, Query, successful, validate_duplicate_fields,
  validate_graphql_request,
}
use api_firewall.Balancer.{new_load_balancer}
use api_firewall.GraphQl.Handling.{
  GraphQlMode, GraphQlServices, is_block, at_server_path, graphql_handle,
}
use api_firewall.GraphQl.Handling.Blocking.{Decided, Admits, graphql_handle-Decided}
use api_firewall.Web.{returned}
use api_firewall.Samples.{http, ctx}
use api_firewall.GraphQl.Duplicates.{CountsDistinct, validate_duplicate_fields_iff}
use api_firewall.GraphQl.Accepting.{
  NoIntrospection, IsNamed, FewAliases, IsSimple, validate_graphql_request_iff,
}

abbrev limits : GraphQlConfig
limits = record {
  introspection = false;
  max_query_complexity = 5;
  max_query_depth = 0;
  node_count_limit = 0;
  max_aliases_num = 1;
  disable_field_duplication = true;
}

abbrev leaf : Field
leaf = record { name = bytes "id"; has_alias = false; has_selections = false }

-- `{ user { id id } }`
abbrev document : Document
document = record {
  fields = record leaf { name = bytes "user"; has_selections = true } ∷ leaf ∷ leaf ∷ [];
  selections = 0 ∷ 1 ∷ 2 ∷ [];
  selection_sets = (1 ∷ 2 ∷ []) ∷ (0 ∷ []) ∷ [];
  num_operations = 1;
  operation_name_exists = λ s. str_eq s [];
}

abbrev pub query : Query
query = record {
  operation_name = bytes " ";
  is_introspection = some false;
  document = document;
  calculated = some (record { complexity = 3; depth = 2; node_count = 2 });
  normalized = successful;
  valid_for_schema = successful;
}

validate_duplicate_fields_iff_example :
    (validate_duplicate_fields document ≡ none)
    ↔ All (CountsDistinct document) ((1 ∷ 2 ∷ []) ∷ (0 ∷ []) ∷ [])
validate_duplicate_fields_iff_example = validate_duplicate_fields_iff document

validate_graphql_request_iff_example : (validate_graphql_request limits query ≡ none) ↔ (
    NoIntrospection limits query
    × IsNamed limits query
    × FewAliases limits query
    × IsSimple limits query
    × (query.normalized ≡ successful)
    × (query.valid_for_schema ≡ successful)
    × ((limits.disable_field_duplication ≡ false)
        ⊎ All (CountsDistinct document) document.selection_sets))
validate_graphql_request_iff_example = validate_graphql_request_iff limits query

abbrev pub mode : GraphQlMode
mode = record {
  graphql = limits;
  request_validation = bytes "BLOCK";
  batch_query_limit = 1;
  request_host_header = [];
}

abbrev services : GraphQlServices http
services = record {
  pool = record {
    lb = new_load_balancer (bytes "b:80" ∷ []) 0 0;
    closed = false;
    idle_closes = 0;
    host = bytes "b";
    port = bytes "80";
    host_port = bytes "b:80";
  };
  client = record { do_request = λ r resp. (resp, none) };
  server_path = bytes "/graphql";
  set_path = λ r p. record r { target = p };
  is_websocket_upgrade = λ r. false;
  handle_web_socket_proxy = λ c. (c, returned none);
  query_argument = λ r. bytes "{a}";
  parse_graphql_request = λ r. some (query ∷ []);
  invalid_query = bytes "invalid query";
  network_connection = bytes "network connection error";
}

graphql_handle-Decided_example :
    Decided http mode services
      (Admits http mode services (at_server_path http mode services ctx))
      (at_server_path http mode services ctx)
      (graphql_handle http mode services ctx)
unfolding is_block equal_fold to_lower str_eq
graphql_handle-Decided_example = graphql_handle-Decided http mode services ctx refl refl refl
