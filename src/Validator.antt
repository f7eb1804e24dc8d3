-- ===== src/Validator.antt =====
-- internal/platform/validator: the checks of requests and responses against a specification. The
-- decoders and the schemas of kin-openapi are parameters.
pub mod MediaType
pub mod Security
pub mod Unknown
pub mod Refusals
pub mod ParameterErrors
pub mod ApiErrors
pub mod ApiRequests
pub mod Requests
pub mod Responses
