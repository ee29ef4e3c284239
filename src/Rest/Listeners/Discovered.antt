-- ===== src/Rest/Listeners/Discovered.antt =====
-- Services that come and go.
use ma_sinafadavi_claude.Rest.Model.{Address}
use ma_sinafadavi_claude.Rest.Listeners.{
  ServiceInfo, Nodes, add_service, remove_service, first_answering, answers_with, note_service,
  note_node, id_from_name, id_or_error,
}
use ma_sinafadavi_claude.Rest.Service.{zeroconf_service_name, id_text-zeroconf_service_name}
use ma_sinafadavi_claude.Prelude.{
  List, ◌≡◌, ◌∷◌, if◌then◌else◌, ℕ, refl, Bool, true, false, Option, some, [], arith, Str, length,
  ok, ◌∙◌, sym, ap, none, lookup, remove, lookup-insert, lookup-remove, str_eq_self, str_eq, after,
}

id_from_name-service :
    (uuid : Str → Option Str) (t id : Str)
    → length id ≡ 36
    → uuid id ≡ some id
    → id_from_name uuid (zeroconf_service_name t id) ≡ ok id
unfolding id_from_name id_or_error
id_from_name-service uuid t id l u =
    ap (λ s. id_or_error (uuid s)) (id_text-zeroconf_service_name t id l) ∙ ap id_or_error u

some_inj : (a b : Address) → some a ≡ some b → a ≡ b
some_inj a b h = ground arith

answered :
    (ping : Address → Option Str) (name : Str) (here a : Address) (b : Bool)
    (later : Option Address)
    → answers_with (ping here) name ≡ b
    → (later ≡ some a → answers_with (ping a) name ≡ true)
    → (if b then some here else later) ≡ some a
    → answers_with (ping a) name ≡ true
answered ping name here a true later e h k =
    ap (λ r. answers_with (ping r) name) (sym (some_inj here a k)) ∙ e
answered ping name here a false later e h k = h k

-- whatever is noted answered with the name
first_answering_sound :
    (ping : Address → Option Str) (name : Str) (port : ℕ) (hosts : List Str) (a : Address)
    → first_answering ping name port hosts ≡ some a
    → answers_with (ping a) name ≡ true
unfolding first_answering
first_answering_sound ping name port [] a h = absurd (ground arith)
first_answering_sound ping name port (host ∷ hosts) a h =
    answered ping name (record { host = host; port = port }) a
      (answers_with (ping (record { host = host; port = port })) name)
      (first_answering ping name port hosts) refl (first_answering_sound ping name port hosts a) h

note_node_sound :
    (ping : Address → Option Str) (name id : Str) (o : Option Address) (nodes : Nodes) (a : Address)
    → ((b : Address) → o ≡ some b → answers_with (ping b) name ≡ true)
    → lookup id nodes ≡ none
    → lookup id (note_node id o nodes) ≡ some a
    → answers_with (ping a) name ≡ true
unfolding note_node
note_node_sound ping name id none nodes a s n h = absurd (ground (arith, n, h))
note_node_sound ping name id (some b) nodes a s n h =
    s a (ground (arith, h, lookup-insert id id b nodes, str_eq_self id))

note_node-other :
    (x id : Str) (o : Option Address) (nodes : Nodes)
    → str_eq id x ≡ false
    → lookup x (note_node id o nodes) ≡ lookup x nodes
unfolding note_node
note_node-other x id none nodes h = refl
note_node-other x id (some b) nodes h = lookup-insert id x b nodes ∙ ground (arith, h)

module _ (uuid : Str → Option Str) (ping : Address → Option Str) (t id : Str)
    (size : length id ≡ 36) (is_uuid : uuid id ≡ some id) where
  add_service-noted :
      (info : Option ServiceInfo) (nodes : Nodes)
      → add_service uuid ping info (zeroconf_service_name t id) nodes
        ≡ (ok tt, note_service ping (zeroconf_service_name t id) id info nodes)
  unfolding add_service
  add_service-noted info nodes =
      ap
        (λ r.
          after {0, 0, 0} (r, nodes)
            (λ i ns. (ok (tt {0}), note_service ping (zeroconf_service_name t id) i info ns)))
        (id_from_name-service uuid t id size is_uuid)

  remove_service-removed :
      (nodes : Nodes)
      → remove_service uuid (zeroconf_service_name t id) nodes ≡ (ok tt, remove id nodes)
  unfolding remove_service
  remove_service-removed nodes =
      ap (λ r. after {0, 0, 0} (r, nodes) (λ i ns. (ok (tt {0}), remove i ns)))
        (id_from_name-service uuid t id size is_uuid)

  noted :
      (info : Option ServiceInfo) (nodes : Nodes) (x : Str)
      → ((a : Address)
          → lookup id nodes ≡ none
          → lookup id (note_service ping (zeroconf_service_name t id) id info nodes) ≡ some a
          → answers_with (ping a) (zeroconf_service_name t id) ≡ true)
        × (str_eq id x ≡ false
            → lookup x (note_service ping (zeroconf_service_name t id) id info nodes)
              ≡ lookup x nodes)
  unfolding note_service
  noted none nodes x = (λ a n h. absurd (ground (arith, n, h)), λ h. refl)
  noted (some info) nodes x =
      let name = zeroconf_service_name t id in
      let o = first_answering ping name info.port info.addresses in
      (
        λ a n h.
            note_node_sound ping name id o nodes a
              (first_answering_sound ping name info.port info.addresses) n h,
        note_node-other x id o nodes,
      )

  -- A service with a UUID in its name: when it is added and was not known, the node that is noted has
  -- answered a ping with this very name; and when it is added and then removed, its id is unknown
  -- and all other nodes are as they were, whatever zeroconf and the nodes answered.
  pub service_comes_and_goes :
      (info : Option ServiceInfo) (nodes : Nodes) (x : Str)
      → ((a : Address)
          → lookup id nodes ≡ none
          → lookup id (add_service uuid ping info (zeroconf_service_name t id) nodes).1 ≡ some a
          → answers_with (ping a) (zeroconf_service_name t id) ≡ true)
        × (lookup x
              (remove_service uuid
                (zeroconf_service_name t id)
                (add_service uuid ping info (zeroconf_service_name t id) nodes).1).1
            ≡ (if str_eq id x then none else lookup x nodes))
  service_comes_and_goes info nodes x =
      let name = zeroconf_service_name t id in
      let e = ap (λ r. r.1) (add_service-noted info nodes) in
      let added = note_service ping name id info nodes in
      (
        λ a n h. (noted info nodes x).0 a n (ap (lookup id) (sym e) ∙ h),
        ap (λ ns. lookup x (remove_service uuid name ns).1) e
            ∙ (ap (λ r. lookup x r.1) (remove_service-removed added)
                ∙ (lookup-remove id x added ∙ ground (arith, (noted info nodes x).1))),
      )
