-- ===== src/Tests/Servers.antt =====
-- Examples of the server of API mode.
use api_firewall.Base.{
  ◌≡◌, refl, ℕ, true, Option, none, some, [], ◌∷◌, bytes, ◌==◌, if◌then◌else◌, arith,
}
use api_firewall.ApiMode.{validated}
use api_firewall.Storage.{Storage, is_loaded}
use api_firewall.ApiServer.{api_mode_main_handler}
use api_firewall.ApiServer.Ids.{pos, identified, has_id, add_key, get_wallarm_schema_id}
use api_firewall.ApiServer.Ids.Printing.{print_ids, get_wallarm_schema_id-print_ids}
use api_firewall.ApiServer.Expected.{Routed, new_context, find}
use api_firewall.ApiServer.Answering.{answer_to, api_mode_main_handler-answer}
use api_firewall.Tests.Modes.{config}

abbrev two_specs : Storage
two_specs = record { is_ready = true; raw_specs = []; open_api_spec = 3 ∷ 14 ∷ [] }

-- Schema 3 has a route, and the request is valid.
abbrev routes : ℕ → Option Routed
routes id =
    if id == 3
    then some (record { has_route = true; version = bytes "1.0"; validation = validated [] })
    else none

api_mode_main_handler-answer_example :
    api_mode_main_handler config
      (find (λ h. h) routes)
      two_specs
      (λ ids. ids)
      (bytes "14, 3,7")
      new_context
    ≡ answer_to config
        (λ h. h)
        none
        routes
        (get_wallarm_schema_id two_specs (λ ids. ids) (bytes "14, 3,7"))
api_mode_main_handler-answer_example =
    api_mode_main_handler-answer config (λ h. h) none routes (λ h c. refl) two_specs (λ ids. ids)
      (bytes "14, 3,7")

get_wallarm_schema_id-print_ids_example :
    get_wallarm_schema_id two_specs (λ ids. ids) (print_ids 14 (7 ∷ 3 ∷ 14 ∷ []))
    ≡ identified (14 ∷ 3 ∷ []) (pos 7 ∷ [])
unfolding is_loaded has_id add_key
get_wallarm_schema_id-print_ids_example =
    get_wallarm_schema_id-print_ids two_specs (λ ids. ids) 14 (7 ∷ 3 ∷ 14 ∷ []) refl
      (omega arith, (omega arith, (omega arith, (omega arith, tt))))
