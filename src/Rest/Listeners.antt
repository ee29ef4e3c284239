-- ===== src/Rest/Listeners.antt =====
-- rec/rest/nodes/zeroconf_listeners: the brokers or datastores that a node has discovered. Both
-- listeners are the same code but for the class of the nodes, which is an address here, by id. What
-- zeroconf knows of a service and what a node answers to a ping are arguments; `uuid` is what UUID
-- makes of a text, or none for a ValueError.
pub mod Discovered
use ma_sinafadavi_claude.Rest.Service.{id_text}
use ma_sinafadavi_claude.Rest.Model.{Address}
use ma_sinafadavi_claude.Prelude.{
  List, ◌∷◌, if◌then◌else◌, ℕ, Bool, false, Option, none, some, [], Str, Result, Exec, str_eq,
  after, remove, insert, err, ok, value_error,
}

abbrev pub Nodes : Type 0
Nodes = List (Str × Address)

-- the addresses of a service, and its port
pub record ServiceInfo : Type 0 where
  pub addresses : List Str
  pub port : ℕ

-- node.ping() == name
unfoldable pub answers_with : Option Str → Str → Bool
answers_with none name = false
answers_with (some answer) name = str_eq answer name

-- the first address at which a node answers with its name
unfoldable pub first_answering : (Address → Option Str) → Str → ℕ → List Str → Option Address
unfolding answers_with
first_answering ping name port [] = none
first_answering ping name port (host ∷ hosts) =
    let later = first_answering ping name port hosts in
    let here : Address = record { host = host; port = port } in
    if answers_with (ping here) name then some here else later

unfoldable pub id_or_error : Option Str → Result Str
id_or_error none = err value_error
id_or_error (some id) = ok id

unfoldable pub id_from_name : (Str → Option Str) → Str → Result Str
unfolding id_text id_or_error
id_from_name uuid name = id_or_error (uuid (id_text name))

-- the node at an address, if one answered
unfoldable pub note_node : Str → Option Address → Nodes → Nodes
note_node id none nodes = nodes
note_node id (some address) nodes = insert id address nodes

-- the loop over the addresses of a service, if zeroconf knows it
unfoldable pub note_service :
    (Address → Option Str) → Str → Str → Option ServiceInfo → Nodes → Nodes
unfolding first_answering note_node
note_service ping name id none nodes = nodes
note_service ping name id (some info) nodes =
    note_node id (first_answering ping name info.port info.addresses) nodes

-- def add_service
unfoldable pub add_service :
    (Str → Option Str) → (Address → Option Str) → Option ServiceInfo → Str → Exec Nodes (Unit {0})
unfolding id_from_name note_service
add_service uuid ping info name nodes =
    after (id_from_name uuid name, nodes) (λ id ns. (ok tt, note_service ping name id info ns))

-- def remove_service, by remove_broker or remove_datastore
unfoldable pub remove_service : (Str → Option Str) → Str → Exec Nodes (Unit {0})
unfolding id_from_name
remove_service uuid name nodes =
    after (id_from_name uuid name, nodes) (λ id ns. (ok tt, remove id ns))
