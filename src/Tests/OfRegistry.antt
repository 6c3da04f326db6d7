-- ===== src/Tests/OfRegistry.antt =====
-- Two registries with the same clients, in two orders.
use upush_chat.Base.{◌≡◌, refl, arith, [], ◌∷◌, Bytes, codes}
use upush_chat.Strings.{same_string}
use upush_chat.Strings.Laws.{same_string_iff}
use upush_chat.Outcome.{image}
use upush_chat.Server.{Server, serve}
use upush_chat.Server.Clients.{find}
use upush_chat.Server.Registry.{IsRegistry}
use upush_chat.Server.Directory.{steps}
use upush_chat.Server.Refines.{view, serve_refines, serve_any_order}
use upush_chat.Tests.OfServer.{net, ida, peter, server, server-IsRegistry, events}

serve_refines_example : image view (serve net events server) ≡ steps net events (view server)
serve_refines_example = serve_refines net events server server-IsRegistry

abbrev ida_first : Server
ida_first = record { client_list = ida ∷ peter ∷ []; network = [] }

abbrev peter_first : Server
peter_first = record { client_list = peter ∷ ida ∷ []; network = [] }

ida_first-IsRegistry : IsRegistry ida_first.client_list
unfolding same_string
ida_first-IsRegistry = record { distinct = (refl, (refl, tt)); entries = omega arith }

peter_first-IsRegistry : IsRegistry peter_first.client_list
unfolding same_string
peter_first-IsRegistry = record { distinct = (refl, (refl, tt)); entries = omega arith }

same_clients : (nick : Bytes) → find nick (ida ∷ peter ∷ []) ≡ find nick (peter ∷ ida ∷ [])
same_clients nick =
    ground (arith, same_string_iff (codes "Ida") nick, same_string_iff (codes "Peter") nick)

serve_any_order_example :
    image view (serve net events ida_first) ≡ image view (serve net events peter_first)
serve_any_order_example =
    serve_any_order net events ida_first peter_first ida_first-IsRegistry peter_first-IsRegistry
      same_clients refl
