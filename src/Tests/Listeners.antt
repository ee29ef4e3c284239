-- ===== src/Tests/Listeners.antt =====
-- Runs of rec/rest/nodes/zeroconf_listeners.
use ma_sinafadavi_claude.Rest.Model.{Address}
use ma_sinafadavi_claude.Rest.Listeners.{
  ServiceInfo, Nodes, add_service, remove_service, answers_with,
}
use ma_sinafadavi_claude.Rest.Listeners.Discovered.{service_comes_and_goes}
use ma_sinafadavi_claude.Rest.Service.{zeroconf_service_name}
use ma_sinafadavi_claude.Prelude.{
  ◌≡◌, ◌∷◌, if◌then◌else◌, refl, true, none, some, [], str_eq, codes, Str, lookup,
}

abbrev some_id : Str
some_id = codes "12345678-1234-1234-1234-123456789012"

abbrev no_nodes : Nodes
no_nodes = []

abbrev service : ServiceInfo
service = record { addresses = codes "10.0.0.1" ∷ []; port = 8000 }

service_comes_and_goes_example :
    ((a : Address)
      → lookup some_id no_nodes ≡ none
      → lookup some_id
          (add_service
            (λ s. some s)
            (λ a. some (zeroconf_service_name (codes "broker") some_id))
            (some service)
            (zeroconf_service_name (codes "broker") some_id)
            no_nodes).1
        ≡ some a
      → answers_with
          (some (zeroconf_service_name (codes "broker") some_id))
          (zeroconf_service_name (codes "broker") some_id)
        ≡ true)
    × (lookup some_id
          (remove_service
            (λ s. some s)
            (zeroconf_service_name (codes "broker") some_id)
            (add_service
              (λ s. some s)
              (λ a. some (zeroconf_service_name (codes "broker") some_id))
              (some service)
              (zeroconf_service_name (codes "broker") some_id)
              no_nodes).1).1
        ≡ (if str_eq some_id some_id then none else lookup some_id no_nodes))
service_comes_and_goes_example =
    service_comes_and_goes (λ s. some s)
      (λ a. some (zeroconf_service_name (codes "broker") some_id)) (codes "broker") some_id refl
      refl (some service) no_nodes some_id
