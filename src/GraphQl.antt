-- ===== src/GraphQl.antt =====
-- GraphQL mode: `ValidateGraphQLRequest` of internal/platform/validator/graphql.go and
-- `ValidateQuery` of internal/platform/complexity/complexity.go. What the GraphQL library says of a
-- query, the parsed document among it, is the record `Query`; the limits are not negative.
pub mod Duplicates
pub mod Accepting
pub mod Handling
pub mod WebSocket
use api_firewall.Base.{
  trim_space, ℕ, ◌+◌, ◌<◌, Bool, true, false, ◌&&◌, ◌||◌, not, Option, none, some, List, [], ◌∷◌,
  ◌++◌, Str, bytes, str_eq, exists, length, get_elem?, ltb, ◌==◌, if◌then◌else◌,
}

pub record GraphQlConfig : Type 0 where
  pub introspection : Bool
  pub max_query_complexity : ℕ
  pub max_query_depth : ℕ
  pub node_count_limit : ℕ
  pub max_aliases_num : ℕ
  pub disable_field_duplication : Bool

pub record Field : Type 0 where
  pub name : Str
  pub has_alias : Bool
  pub has_selections : Bool

-- The parts of a document that are read: `selections` has the number `Ref` of each selection, and a
-- selection set has the numbers of its selections.
pub record Document : Type 0 where
  pub fields : List Field
  pub selections : List ℕ
  pub selection_sets : List (List ℕ)
  pub num_operations : ℕ
  pub operation_name_exists : Str → Bool

pub record Complexity : Type 0 where
  pub complexity : ℕ
  pub depth : ℕ
  pub node_count : ℕ

-- How a call of the library ends: with an error, with a negative result whose errors may be nil, or
-- successfully.
pub data LibraryResult : Type 0 where
  call_failed : LibraryResult
  unsuccessful : Option (List Str) → LibraryResult
  successful : LibraryResult

pub record Query : Type 0 where
  pub operation_name : Str
  pub is_introspection : Option Bool  -- `none` is an error
  pub document : Document
  pub calculated : Option Complexity
  pub normalized : LibraryResult
  pub valid_for_schema : LibraryResult  -- of the normalized query

pub data Reason : Type 0 where
  introspection_not_allowed : Reason
  operation_name_missing : Reason
  operation_name_not_found : Str → Reason
  too_many_aliases : Reason
  no_complexity : Reason
  too_complex : Reason
  too_deep : Reason
  too_many_nodes : Reason
  duplicate_fields : Reason
  library_reason : Str → Reason

-- How the validation of a query stops before its end: it is not valid, with errors or with nil; a
-- call returned an error; or an index was out of range. A valid query does not stop it.
pub data Stop : Type 0 where
  invalid : Option (List Reason) → Stop
  failed : Stop
  crashed : Stop

refused : Reason → Option Stop
refused r = some (invalid (some (r ∷ [])))

-- `validateOperationName`
unfoldable pub validate_operation_name : Document → Str → Option Stop
unfolding refused
validate_operation_name document operation_name =
    let name = trim_space operation_name in
    if str_eq name [] && ltb 1 document.num_operations
    then refused operation_name_missing
    else if not (document.operation_name_exists name)
    then refused (operation_name_not_found name)
    else none

-- `getNumOfAliases`
count_aliases : List Field → ℕ
count_aliases [] = 0
count_aliases (f ∷ fs) = let rest = count_aliases fs in if f.has_alias then 1 + rest else rest

unfoldable pub get_num_of_aliases : Document → ℕ
unfolding count_aliases
get_num_of_aliases document = count_aliases document.fields

-- `validateAliasesNum`
validate_aliases_num : Document → ℕ → Option Stop
unfolding refused
validate_aliases_num document max =
    if ltb max (get_num_of_aliases document) then refused too_many_aliases else none

check_aliases : ℕ → Document → Option Stop
unfolding validate_aliases_num
check_aliases max document = if ltb 0 max then validate_aliases_num document max else none

exceeds : ℕ → ℕ → Reason → List Reason
exceeds limit n r = if ltb 0 limit && ltb limit n then r ∷ [] else []

settle_complexity : GraphQlConfig → Option Complexity → List Reason
unfolding exceeds
settle_complexity cfg none = no_complexity ∷ []
settle_complexity cfg (some c) =
    exceeds cfg.max_query_complexity c.complexity too_complex
    ++ exceeds cfg.max_query_depth c.depth too_deep
    ++ exceeds cfg.node_count_limit c.node_count too_many_nodes

-- `ValidateQuery`
unfoldable pub validate_query : GraphQlConfig → Query → List Reason
unfolding settle_complexity
validate_query cfg q = settle_complexity cfg q.calculated

stop_on : List Reason → Option Stop
stop_on [] = none
stop_on (r ∷ rs) = some (invalid (some (r ∷ rs)))

check_complexity : GraphQlConfig → Query → Option Stop
unfolding stop_on
check_complexity cfg q =
    if ltb 0 cfg.node_count_limit || ltb 0 cfg.max_query_depth || ltb 0 cfg.max_query_complexity
    then stop_on (validate_query cfg q)
    else none

-- The names seen in a selection set, with how often.
count_name : Str → List (Str × ℕ) → List (Str × ℕ)
count_name f [] = (f, 1) ∷ []
count_name f ((g, n) ∷ rest) =
    let counted = count_name f rest in if str_eq g f then (g, n + 1) ∷ rest else (g, n) ∷ counted

unfoldable pub field_at : Document → ℕ → Option Field
field_at document cs = elim (get_elem? document.selections cs) [
  | none ↦ none
  | some ref ↦ get_elem? document.fields ref
]

count_field : Field → List (Str × ℕ) → List (Str × ℕ)
unfolding count_name
count_field f seen = if f.has_selections then seen else count_name f.name seen

-- `none` is an index that is out of range.
count_fields : Document → List ℕ → List (Str × ℕ) → Option (List (Str × ℕ))
unfolding field_at count_field
count_fields document [] seen = some seen
count_fields document (cs ∷ refs) seen = elim (field_at document cs) [
  | none ↦ none
  | some f ↦ count_fields document refs (count_field f seen)
]

check_counts : Option (List (Str × ℕ)) → Option Stop
unfolding refused
check_counts none = some crashed
check_counts (some seen) =
    if exists (λ (f, n). ltb 1 n) seen then refused duplicate_fields else none

pub or_else : Option Stop → Option Stop → Option Stop
or_else none next = next
or_else (some e) next = some e

duplicates_loop : Document → List (List ℕ) → Option Stop
unfolding count_fields check_counts or_else
duplicates_loop document [] = none
duplicates_loop document (ss ∷ sets) =
    or_else (check_counts (count_fields document ss [])) (duplicates_loop document sets)

-- `validateDuplicateFields`
unfoldable pub validate_duplicate_fields : Document → Option Stop
unfolding duplicates_loop
validate_duplicate_fields document = duplicates_loop document document.selection_sets

settle_introspection : Option Bool → Option Stop
unfolding refused
settle_introspection none = some failed
settle_introspection (some true) = refused introspection_not_allowed
settle_introspection (some false) = none

check_introspection : GraphQlConfig → Query → Option Stop
unfolding settle_introspection
check_introspection cfg q =
    if cfg.introspection then none else settle_introspection q.is_introspection

reasons : List Str → List Reason
reasons [] = []
reasons (s ∷ ss) = library_reason s ∷ reasons ss

settle_library : LibraryResult → Option Stop
unfolding reasons
settle_library call_failed = some failed
settle_library (unsuccessful none) = some (invalid none)
settle_library (unsuccessful (some ss)) = some (invalid (some (reasons ss)))
settle_library successful = none

check_duplicates : GraphQlConfig → Document → Option Stop
check_duplicates cfg document =
    if cfg.disable_field_duplication then validate_duplicate_fields document else none

-- `ValidateGraphQLRequest`; `none` is a valid query.
unfoldable pub validate_graphql_request : GraphQlConfig → Query → Option Stop
unfolding or_else check_introspection check_aliases check_complexity settle_library check_duplicates
validate_graphql_request cfg q = or_else (check_introspection cfg q) (
    or_else (validate_operation_name q.document q.operation_name) (
      or_else (check_aliases cfg.max_aliases_num q.document) (
        or_else (check_complexity cfg q) (
          or_else (settle_library q.normalized)
            (or_else (settle_library q.valid_for_schema) (check_duplicates cfg q.document))))))
