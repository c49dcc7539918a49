-- ===== src/Core/Replies/Printed.antt =====
-- Answers as the core sends them, each value under its name, and what
-- apps/desktop/src/main/core-manager.ts reads of them.
use dolssh.Prelude.{
  ◌≡◌, refl, String, true, Option, none, some, List, [], ◌∷◌, String-discrete, value_or,
}
use dolssh.Core.Replies.Reading.{
  Json, null, boolean, number, text, array, object, Elements, last, element, Fields, end, field,
  Values, Reply, ok, read_item, read_each, as_text,
}
use dolssh.Core.Replies.Types.{
  HostContainerRuntime, docker, podman, HostContainerMountSummary, HostContainerNetworkSummary,
  KeyValue, HostContainerPortBinding, HostContainerPortOption, HostContainerDetails, runtime_of,
}
use dolssh.Core.Replies.Inspecting.{
  read_mount, read_network, read_binding, read_port, read_key_value, host_ip_of, host_port_of,
  containers_inspect,
}

abbrev runtime_name : HostContainerRuntime → String
runtime_name docker = "docker"
runtime_name podman = "podman"

module _ {N : Type 0} where
  -- An array whose items are what `print` prints.
  abbrev pub items : {A : Type 0} → (A → Json N) → List A → Elements N
  items print [] = last
  items print (x ∷ xs) = element (print x) (items print xs)

  abbrev pub print_text : String → String → Fields N → Fields N
  print_text k s fs = field k (text s) fs

  abbrev print_mount : HostContainerMountSummary → Json N
  print_mount m = object (
      print_text "type" m.type (
        print_text "source" m.source (
          print_text "destination" m.destination
            (print_text "mode" m.mode (field "readOnly" (boolean m.read_only) end)))))

  abbrev print_network : HostContainerNetworkSummary → Json N
  print_network n = object (
      print_text "name" n.name
        (print_text "ipAddress" n.ip_address (field "aliases" (array (items text n.aliases)) end)))

  abbrev print_ip : Option String → Json N
  print_ip none = null
  print_ip (some s) = text s

  abbrev print_port_number : Option N → Json N
  print_port_number none = null
  print_port_number (some n) = number n

  abbrev print_binding : HostContainerPortBinding N → Json N
  print_binding b =
      object
        (field "hostIp" (print_ip b.host_ip) (field "hostPort" (print_port_number b.host_port) end))

  abbrev print_port : HostContainerPortOption N → Json N
  print_port p = object (
      field "containerPort" (number p.container_port) (
        print_text "protocol" p.protocol
          (field "publishedBindings" (array (items print_binding p.published_bindings)) end)))

  abbrev print_key_value : KeyValue → Json N
  print_key_value e = object (print_text "key" e.key (print_text "value" e.value end))

  abbrev pub print_details : HostContainerDetails N → Fields N
  print_details d = print_text "id" d.id (
      print_text "name" d.name (
        print_text "runtime" (runtime_name d.runtime) (
          print_text "image" d.image (
            print_text "status" d.status (
              print_text "createdAt" d.created_at (
                print_text "command" d.command (
                  print_text "entrypoint" d.entrypoint (
                    field "mounts" (array (items print_mount d.mounts)) (
                      field "networks" (array (items print_network d.networks)) (
                        field "ports" (array (items print_port d.ports)) (
                          field "environment" (array (items print_key_value d.environment))
                            (field "labels" (array (items print_key_value d.labels)) end))))))))))))

module _ {A : Type 0} where
  abbrev pub AllOf : (A → Type 0) → List A → Type 0
  AllOf P [] = Unit
  AllOf P (x ∷ xs) = P x × AllOf P xs

module _ {N A : Type 0} (f : Json N → Reply A) (print : A → Json N) where
  -- What every item gives back, the array gives back.
  pub read_each-items :
      (P : A → Type 0)
      → ((x : A) → P x → f (print x) ≡ ok x)
      → (xs : List A) → AllOf P xs
      → read_each f (items print xs) ≡ ok xs
  read_each-items P h [] p = refl
  read_each-items P h (x ∷ xs) p = rw (h x p.0, read_each-items P h xs p.1) refl

  pub read_each-printed :
      ((x : A) → f (print x) ≡ ok x) → (xs : List A) → read_each f (items print xs) ≡ ok xs
  read_each-printed h [] = refl
  read_each-printed h (x ∷ xs) = rw (h x, read_each-printed h xs) refl

module _ {N : Type 0} (js : Values N) where
  -- A binding's port, if there is one, is a finite number.
  abbrev IsFinite : Option N → Type 0
  IsFinite none = Unit
  IsFinite (some n) = js.is_finite n ≡ true

  abbrev pub HasFinitePorts : HostContainerPortOption N → Type 0
  HasFinitePorts p = AllOf (λ b. IsFinite b.host_port) p.published_bindings

  host_ip-print : (o : Option String) → host_ip_of js (some (print_ip o)) ≡ o
  host_ip-print none = refl
  host_ip-print (some s) = refl

  host_port-print : (o : Option N) → IsFinite o → host_port_of js (some (print_port_number o)) ≡ o
  host_port-print none h = refl
  host_port-print (some n) h = rw h refl

  binding-print :
      (b : HostContainerPortBinding N)
      → IsFinite b.host_port
      → read_item (read_binding js) (print_binding b) ≡ ok b
  unfolding String-discrete
  binding-print b h = rw (host_ip-print b.host_ip, host_port-print b.host_port h) refl

  port-print :
      (p : HostContainerPortOption N)
      → HasFinitePorts p
      → read_item (read_port js) (print_port p) ≡ ok p
  unfolding String-discrete
  port-print p h =
      rw
        (read_each-items (read_item (read_binding js)) print_binding (λ b. IsFinite b.host_port)
          binding-print p.published_bindings h)
        refl

  network-print :
      (n : HostContainerNetworkSummary) → read_item (read_network js) (print_network n) ≡ ok n
  unfolding String-discrete
  network-print n = rw (read_each-printed (λ x. ok (as_text js x)) text (λ x. refl) n.aliases) refl

  mount-print : (m : HostContainerMountSummary) → read_item (read_mount js) (print_mount m) ≡ ok m
  unfolding String-discrete
  mount-print m = refl

  key_value-print : (e : KeyValue) → read_item (read_key_value js) (print_key_value e) ≡ ok e
  unfolding String-discrete
  key_value-print e = refl

  runtime-print :
      (r : HostContainerRuntime)
      → value_or (runtime_of {N = N} (some (text (runtime_name r)))) docker ≡ r
  unfolding String-discrete
  runtime-print docker = refl
  runtime-print podman = refl

  -- The details of a container that are sent under their names, every host port a finite number, are
  -- read back as they are.
  pub containers_inspect-print :
      (d : HostContainerDetails N)
      → AllOf HasFinitePorts d.ports
      → containers_inspect js (print_details d) ≡ ok d
  unfolding containers_inspect String-discrete
  containers_inspect-print d h =
      rw
        (
          read_each-printed (read_item (read_mount js)) print_mount mount-print d.mounts,
          read_each-printed (read_item (read_network js)) print_network network-print d.networks,
          read_each-items (read_item (read_port js)) print_port HasFinitePorts port-print d.ports h,
          read_each-printed (read_item (read_key_value js)) print_key_value key_value-print
              d.environment,
          read_each-printed (read_item (read_key_value js)) print_key_value key_value-print
              d.labels,
          runtime-print d.runtime,
        )
        refl
