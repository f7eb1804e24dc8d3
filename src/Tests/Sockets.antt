-- ===== src/Tests/Sockets.antt =====
-- Examples of WebSocket sessions in GraphQL mode.
use api_firewall.Base.{
  ◌≡◌, inl, refl, sym, ap, ◌∙◌, true, Option, none, some, List, [], ◌∷◌, ◌++◌, map, Str, bytes,
  str_eq, to_lower, equal_fold, arith,
}
use api_firewall.GraphQl.{failed, crashed, validate_graphql_request}
use api_firewall.GraphQl.Handling.{GraphQlMode}
use api_firewall.GraphQl.WebSocket.{Frame, GqlMessage, reading, Proxying, message, client_loop}
use api_firewall.GraphQl.WebSocket.Copies.{validated, IsCalm, Forwarded, Logged}
use api_firewall.GraphQl.WebSocket.Forwarding.{client_loop-Forwarded, client_loop-Logged}
use api_firewall.GraphQl.WebSocket.Session.{start, run, client_turn, backend_turn, succeeds, fails}
use api_firewall.GraphQl.WebSocket.Session.Ending.{BothFinished, IsConsistent, run-ends}
use api_firewall.Tests.Queries.{mode, query}

-- The library cannot tell whether the query is an introspection.
abbrev unclear : GqlMessage
unclear = record {
  msg_type = bytes "start";
  msg_id = bytes "7";
  request = record query { is_introspection = none };
}

abbrev parse : Str → Option GqlMessage
parse s = some unclear

abbrev log_mode : GraphQlMode
log_mode = record mode { request_validation = bytes "LOG_ONLY" }

abbrev frame : Frame
frame = record { message_type = 1; payload = bytes "{}" }

abbrev ping : Frame
ping = record { message_type = 9; payload = [] }

abbrev fresh : Proxying
fresh = record { sent = []; replies = []; activity = reading }

unclear-failed : validated mode parse unclear ≡ some failed
unfolding validate_graphql_request
unclear-failed = refl

parse-IsCalm : IsCalm mode parse (some unclear)
parse-IsCalm msg e q =
    let eq : msg ≡ unclear = ground arith in
    let bad : some failed ≡ some crashed =
      sym unclear-failed ∙ ap (validated mode parse) (sym eq) ∙ q in
    absurd (ground (arith, bad))

client_loop-Forwarded_example :
    (out : List Frame) × ((client_loop mode parse
        (λ sent m. true)
        (map message (frame ∷ ping ∷ []))
        fresh).sent
      ≡ fresh.sent ++ out)
    × Forwarded mode parse (frame ∷ ping ∷ []) out
unfolding equal_fold to_lower str_eq
client_loop-Forwarded_example =
    client_loop-Forwarded mode parse (λ sent m. true) (λ sent m. refl) (frame ∷ ping ∷ []) fresh
      refl refl refl (parse-IsCalm, (parse-IsCalm, tt))

client_loop-Logged_example :
    (out : List Frame) × ((client_loop log_mode parse
        (λ sent m. true)
        (map message (frame ∷ ping ∷ []))
        fresh).sent
      ≡ fresh.sent ++ out)
    × Logged log_mode parse (frame ∷ ping ∷ []) out
unfolding equal_fold to_lower str_eq
client_loop-Logged_example =
    client_loop-Logged log_mode parse (λ sent m. true) (λ sent m. refl) (frame ∷ ping ∷ []) fresh
      refl refl refl (parse-IsCalm, (parse-IsCalm, tt))

-- The client's connection fails while the other goroutine waits for the backend.
run-ends_example :
    let s = run (client_turn succeeds ∷ backend_turn succeeds ∷ client_turn fails ∷ []) start in
    let t =
      run
        (backend_turn succeeds
          ∷ client_turn succeeds
          ∷ backend_turn succeeds
          ∷ client_turn succeeds
          ∷ [])
        s in
    BothFinished t × IsConsistent t
unfolding run
run-ends_example =
    run-ends (client_turn succeeds ∷ backend_turn succeeds ∷ client_turn fails ∷ [])
      (backend_turn succeeds
        ∷ client_turn succeeds
        ∷ backend_turn succeeds
        ∷ client_turn succeeds
        ∷ [])
      (inl refl) (omega arith) (omega arith)
