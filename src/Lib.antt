-- ===== src/Lib.antt =====
-- api-firewall: a reverse proxy that checks requests and responses against an OpenAPI or GraphQL
-- specification, and blocks or logs those that do not fit.
--
-- A request comes to the application (Web/App.antt: internal/platform/web/web.go), which looks up
-- its handler and runs it behind the chain of middleware (Mid.antt and its children: internal/mid).
-- In proxy mode the handler is the OpenAPI handler (Waf.antt and its children:
-- cmd/api-firewall/internal/handlers/proxy/openapi.go). It checks the request, sends it to a
-- backend through the pool (Pool.antt: internal/platform/proxy/pool_v2.go and proxy.go), whose
-- connections are spread by the load balancer (Balancer.antt: internal/platform/proxy/
-- loadbalancer.go), and checks the answer, whose body Web/Bodies.antt (internal/platform/web/
-- response.go) decompresses.
--
-- Dns.antt is the DNS cache (internal/platform/proxy/dnscache.go).
--
-- The application finds a handler by the router (Router.antt and its children:
-- internal/platform/router): the search in the routing tree (findRoute, Router.antt), the lookup
-- and the URL parameters (mux.go and context.go, Router/Lookup.antt), the binary search among
-- labels (Router/Edges.antt) and the parsing of patterns (Router/Segments.antt). Routes are added by
-- AddEndpoint (mux.go, Router/Adding.antt) and insertRoute (tree.go, Router/Inserting.antt), which
-- uses addChild (Router/Building.antt) and sorts the groups of nodes (Router/Groups.antt).
--
-- The validators that the OpenAPI handler calls are in Validator.antt and its children:
-- internal/platform/validator. Validator/Requests.antt has ValidateRequest with its parameters and
-- bodies, Validator/Security.antt the security requirements with the authentication function of the
-- handler, Validator/Unknown.antt the search for parameters that the specification lacks. In the
-- handler's model they are parameters, so that its theorems hold for any validator.
--
-- Validator/Responses.antt has ValidateResponse (validate_response.go).
--
-- In API mode, which is also a library (pkg/APIMode), a request is checked against several
-- specifications: ApiMode.antt has the handler of a schema (handler.go), ProcessRequest and
-- SampleSlice (validator) and ValidateRequest (apifw.go); the router and what the validation ends with
-- are parameters. Validator/ApiRequests.antt has APIModeValidateRequest (api_mode_validate_request.go),
-- which runs the two validators, and Validator/ApiErrors.antt the making of their errors into answers
-- (api_mode_errors.go), those for a parameter in Validator/ParameterErrors.antt. ApiServer.antt is the
-- server of the mode (cmd/api-firewall/internal/handlers/api/app.go and handler.go), with the reading
-- of the schema ids of a request in ApiServer/Ids.antt.
-- The specifications come from a database: Storage.antt has the loading, comparing and
-- marking of them (internal/platform/storage/dbv2.go) and UpdateSpecsStorage (pkg/APIMode/apifw.go),
-- with getRouters (pkg/APIMode/helpers.go); how the router of one schema is made is a parameter.
--
-- In GraphQL mode the handler is GraphQl/Handling.antt (cmd/api-firewall/internal/handlers/graphql/
-- httpHandler.go), and a query is validated by ValidateGraphQLRequest (GraphQl.antt:
-- internal/platform/validator/graphql.go and internal/platform/complexity/complexity.go). The
-- GraphQL library is a parameter: what it says of a query is a record. GraphQl/WebSocket.antt has the
-- WebSocket sessions (wsHandler.go; internal/platform/proxy/ws.go and wsClient.go): the messages of
-- a client, and in WebSocket/Session.antt the two goroutines as steps of a schedule.
--
-- State. A context (`Ctx` in Web.antt) holds the request, the response and the user values that the
-- firewall reads and writes; it also records the requests sent to the backend, the shadow API
-- violations logged and the shutdown signals, which is what an observer sees. A handler is a
-- function from a context to a context and an outcome: an error value, or a panic on its way up.
-- The balancer and the pool are records, their operations functions on them.
--
-- Names. Functions keep the source's names in snake case: openapi_waf_handler is openapiWafHandler,
-- wrap_middleware is WrapMiddleware. Strings are lists of bytes (Base/Text.antt).
--
-- Parameters. fasthttp is the record `Http`, with the documented laws that the theorems use: a
-- header that was set can be read and others are left, an error response has the status code it
-- was given and nothing of the response that it replaces. The resolver, the HTTP client, the decompressors and the OpenAPI validators are
-- parameters as well; Samples.antt has a small HTTP library for which the laws hold, and the modules
-- under Tests apply the theorems to it.
--
-- Bounds and fuel. The counter of the balancer is a uint64 with the conversion to int of a 64-bit
-- platform; the theorems on the order of backends hold within its first 2^63 values. Loops are
-- structural recursion, also the search over the tree; the binary search has the
-- number of labels as its fuel, the loop over the segments of a pattern one more than its length,
-- which a theorem shows to be enough; the digits of a number are made with more fuel than the number.
--
-- Not modelled: logging, metrics, locks, the start-up of the servers, ModSecurity, the reading and
-- writing of connections, the decoders of parameters and bodies (a copy of kin-openapi's), the
-- other kinds of storage, the parsing of GraphQL requests, and the panics of a validator in proxy
-- mode, which go up through the handler to the panics middleware.
pub mod Base
pub mod Balancer
pub mod Web
pub mod Mid
pub mod Pool
pub mod Waf
pub mod Router
pub mod Validator
pub mod ApiMode
pub mod ApiServer
pub mod Storage
pub mod GraphQl
pub mod Dns
mod Samples
mod Tests
