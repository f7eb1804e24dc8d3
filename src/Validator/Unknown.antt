-- ===== src/Validator/Unknown.antt =====
-- internal/platform/validator/unknown_parameters_request.go: the parameters of a request that the
-- specification does not define. Body decoding is a parameter; a media type has a schema, without
-- which the source panics. The number tests of strconv are the parameters `is_int` and `is_float`.
pub mod Finding
use api_firewall.Base.{
  ℕ, zero, suc, ◌+◌, ◌-◌, ◌<◌, Bool, true, false, ◌&&◌, ◌||◌, not, Option, none, some, List, [],
  ◌∷◌, ◌++◌, map, Str, bytes, str_eq, to_lower, exists, index_byte, split, split_first, trim_space,
  length, take, drop, ltb, ◌==◌, if◌then◌else◌, get_or,
}
use api_firewall.Validator.MediaType.{parse_media_type}

abbrev pub max_json_array_depth : ℕ
max_json_array_depth = 32

abbrev pub max_json_array_elements : ℕ
max_json_array_elements = 10000

-- A decoded body.
mutual
  pub data Json : Type 0 where
    object : Fields → Json
    array : Jsons → Json
    text : Str → Json
    number : Str → Json  -- `json.Number`
    boolean : Bool → Json
    null : Json

  pub data Jsons : Type 0 where
    no_more : Jsons
    and_then : Json → Jsons → Jsons

  pub data Fields : Type 0 where
    no_fields : Fields
    field : Str → Json → Fields → Fields

pub record RequestParameterDetails : Type 0 where
  pub name : Str
  pub placeholder : Str
  pub type_of : Str

pub data UnknownError : Type 0 where
  max_depth_exceeded decoding_failed : UnknownError
  decoder_error : Str → UnknownError

pub data Search : Type 0 where
  found : List RequestParameterDetails → Search
  failed : UnknownError → Search

-- The details found in front of what the rest of the loop ends with; an error ends the loop.
join : Search → Search → Search
join (failed e) rest = failed e
join (found ds) (failed e) = failed e
join (found ds) (found es) = found (ds ++ es)

pub record UnknownParameters : Type 0 where
  pub parameters : List RequestParameterDetails
  pub message : Str

abbrev pub unknown_query_message : Str
unknown_query_message = bytes "query parameter not defined in the OpenAPI specification"

abbrev pub unknown_body_message : Str
unknown_body_message = bytes "body parameter not defined in the OpenAPI specification"

-- A group of details joins the results unless it is empty.
add_group : List UnknownParameters → Str → List RequestParameterDetails → List UnknownParameters
add_group results message [] = results
add_group results message (d ∷ ds) =
    results ++ record { parameters = d ∷ ds; message = message } ∷ []

-- The content of a request body: the property names by media type.
pub record RequestBody : Type 0 where
  pub has_content : Bool
  pub properties_of : Str → Option (List Str)

pub data Decoded : Type 0 where
  decoded : Str → Json → Decoded
  not_decoded : Str → Decoded

-- What the function reads of a request.
pub record Input : Type 0 where
  pub query_args : List (Str × Str)
  pub post_args : List (Str × Str)
  pub body : Str
  pub content_type : Str

module _ (is_int is_float : Str → Bool) where
  identify_text : Str → Str
  identify_text s =
      if is_int s then bytes "integer" else if is_float s then bytes "float" else bytes "string"

  -- `identifyData`; a `json.Number` is none of the types that it knows.
  identify_data : Json → Str
  unfolding identify_text
  identify_data (text s) = identify_text s
  identify_data _ = bytes "unknown"

  body_details : Str → Str → RequestParameterDetails
  body_details name typ = record { name = name; placeholder = bytes "body"; type_of = typ }

  unknown_fields : List Str → Fields → List RequestParameterDetails
  unfolding identify_data body_details
  unknown_fields props no_fields = []
  unknown_fields props (field name v fs) =
      let rest = unknown_fields props fs in
      if exists (λ p. str_eq p name) props then rest else body_details name (identify_data v) ∷ rest

  guard_depth : ℕ → Search → Search
  guard_depth depth r = if ltb max_json_array_depth depth then failed max_depth_exceeded else r

  mutual
    unfolding join unknown_fields guard_depth

    -- `findUnknownParamsInJSONBody`
    pub find_unknown : List Str → Json → ℕ → Search
    find_unknown props (object fs) depth = guard_depth depth (found (unknown_fields props fs))
    find_unknown props (array js) depth =
        guard_depth depth (find_each props js max_json_array_elements (depth + 1))
    find_unknown props (text s) depth = guard_depth depth (failed decoding_failed)
    find_unknown props (number s) depth = guard_depth depth (failed decoding_failed)
    find_unknown props (boolean b) depth = guard_depth depth (failed decoding_failed)
    find_unknown props null depth = guard_depth depth (failed decoding_failed)

    -- The loop over the elements of an array, of which `left` more are processed.
    pub find_each : List Str → Jsons → ℕ → ℕ → Search
    find_each props no_more left depth = found []
    find_each props (and_then j js) zero depth = found []
    find_each props (and_then j js) (suc left) depth =
        join (find_unknown props j depth) (find_each props js left depth)

  -- The name in front of a bracket that is not the first byte.
  bracket_base : Str → Option ℕ → Option Str
  bracket_base key none = none
  bracket_base key (some zero) = none
  bracket_base key (some (suc i)) = some (take (suc i) key)

  is_base : List Str → Option Str → Bool
  is_base spec none = false
  is_base spec (some base) = exists (λ p. str_eq p (base ++ bytes "query")) spec

  -- A query key that the specification defines; `spec` holds the names joined with their places.
  unfoldable pub is_query_known : List Str → Str → Bool
  unfolding bracket_base is_base
  is_query_known spec key =
      is_base spec (bracket_base key (index_byte key b'['))
      || exists (λ p. str_eq p (key ++ bytes "query")) spec

  -- The visit of all query arguments.
  unfoldable pub unknown_query : List Str → List (Str × Str) → List RequestParameterDetails
  unfolding is_query_known identify_text
  unknown_query spec [] = []
  unknown_query spec ((key, value) ∷ args) =
      let rest = unknown_query spec args in
      if is_query_known spec key
      then rest
      else record { name = key; placeholder = bytes "query"; type_of = identify_text value } ∷ rest

  -- The names of the first row.
  unknown_titles : List Str → Str → List Str → List RequestParameterDetails
  unfolding body_details
  unknown_titles props typ [] = []
  unknown_titles props typ (name ∷ names) =
      let rest = unknown_titles props typ names in
      if exists (λ p. str_eq p name) props then rest else body_details name typ ∷ rest

  -- The visit of all arguments of a form, against the fields that were decoded.
  field_names : Fields → List Str
  field_names no_fields = []
  field_names (field name v fs) = name ∷ field_names fs

  unknown_form : List Str → List (Str × Str) → List RequestParameterDetails
  unfolding body_details identify_text
  unknown_form names [] = []
  unknown_form names ((key, value) ∷ args) =
      let rest = unknown_form names args in
      if exists (λ n. str_eq n key) names
      then rest
      else body_details key (identify_text value) ∷ rest

  -- XML names are compared without case; with one field, the names inside of it count.
  lower_unknown : List Str → Fields → List RequestParameterDetails
  unfolding body_details identify_data
  lower_unknown props no_fields = []
  lower_unknown props (field name v fs) =
      let rest = lower_unknown props fs in
      if exists (λ p. str_eq p (to_lower name)) props
      then rest
      else body_details name (identify_data v) ∷ rest

  inside : List Str → Json → List RequestParameterDetails
  unfolding lower_unknown
  inside props (object fs) = lower_unknown props fs
  inside props _ = []

  unknown_xml : List Str → Fields → List RequestParameterDetails
  unfolding inside lower_unknown
  unknown_xml props (field name v no_fields) = inside props v
  unknown_xml props no_fields = []
  unknown_xml props (field name v (field name' v' fs)) =
      lower_unknown props (field name v (field name' v' fs))

  csv_body : List Str → Json → Search
  unfolding unknown_titles identify_data
  csv_body props (text s) =
      found (unknown_titles props (identify_data (text s)) (split (split_first s 10) b','))
  csv_body props _ = failed decoding_failed

  form_body : List (Str × Str) → Json → Search
  unfolding unknown_form field_names
  form_body args (object fs) = found (unknown_form (field_names fs) args)
  form_body args _ = failed decoding_failed

  xml_body : List Str → Json → Search
  unfolding unknown_xml
  xml_body props (object fs) = found (unknown_xml (map to_lower props) fs)
  xml_body props _ = failed decoding_failed

  -- The switch on the media type and its suffix.
  unfoldable pub unknown_body : List Str → List (Str × Str) → Str → Str → Json → Search
  unfolding csv_body form_body xml_body
  unknown_body props args mtype suffix value =
      if str_eq mtype (bytes "text/plain") || str_eq suffix (bytes "+plain")
      then found []
      else if str_eq mtype (bytes "text/csv") || str_eq suffix (bytes "+csv")
      then csv_body props value
      else if str_eq mtype (bytes "application/x-www-form-urlencoded")
      then form_body args value
      else if str_eq mtype (bytes "application/json")
          || str_eq mtype (bytes "multipart/form-data")
          || str_eq suffix (bytes "+json")
      then find_unknown props value 0
      else if str_eq mtype (bytes "application/xml") || str_eq suffix (bytes "+xml")
      then xml_body props value
      else failed decoding_failed

  settle_search : List UnknownParameters → Search → List UnknownParameters × Option UnknownError
  unfolding add_group
  settle_search results (failed e) = (results, some e)
  settle_search results (found ds) = (add_group results unknown_body_message ds, none)

  settle_decoded :
      List UnknownParameters
      → List Str
      → List (Str × Str)
      → Decoded
      → List UnknownParameters × Option UnknownError
  unfolding settle_search unknown_body parse_media_type
  settle_decoded results props args (not_decoded e) = (results, some (decoder_error e))
  settle_decoded results props args (decoded media_type value) =
      let (mtype, suffix) = parse_media_type media_type in
      settle_search results (unknown_body props args mtype suffix value)

  settle_content :
      List UnknownParameters
      → Input
      → Decoded
      → Option (List Str)
      → List UnknownParameters × Option UnknownError
  unfolding settle_decoded
  settle_content results input d none = (results, none)
  settle_content results input d (some props) = settle_decoded results props input.post_args d

  body_params :
      List UnknownParameters
      → Input
      → (Str → Decoded)
      → Option RequestBody
      → List UnknownParameters × Option UnknownError
  unfolding settle_content
  body_params results input decode none = (results, none)
  body_params results input decode (some b) =
      if not b.has_content
      then (results, none)
      else if length input.body == 0
      then (results, none)
      else settle_content results input (decode input.body) (b.properties_of input.content_type)

  -- `ValidateUnknownRequestParameters`
  unfoldable pub validate_unknown_request_parameters :
      List Str
      → Option RequestBody
      → (Str → Decoded)
      → Input
      → List UnknownParameters × Option UnknownError
  unfolding body_params add_group unknown_query
  validate_unknown_request_parameters spec body decode input =
      body_params (add_group [] unknown_query_message (unknown_query spec input.query_args)) input
        decode body
