-- ===== src/Core/Replies/Inspecting.antt =====
-- The details of a container: containersInspect of apps/desktop/src/main/core-manager.ts.
use dolssh.Prelude.{String, Option, none, some, if◌then◌else◌, value_or}
use dolssh.Core.Replies.Reading.{
  Json, null, boolean, number, text, array, object, Fields, Values, Reply, ok, ◌>>=◌, get_field,
  read_item, read_array, as_text, is_truthy,
}
use dolssh.Core.Replies.Types.{
  docker, HostContainerMountSummary, HostContainerNetworkSummary, KeyValue,
  HostContainerPortBinding, HostContainerPortOption, HostContainerDetails, runtime_of, text_at,
  number_at,
}

module _ {N : Type 0} (js : Values N) where
  abbrev pub read_mount : Fields N → Reply HostContainerMountSummary
  read_mount fs = ok record {
    type = text_at js "type" fs;
    source = text_at js "source" fs;
    destination = text_at js "destination" fs;
    mode = text_at js "mode" fs;
    read_only = is_truthy js (get_field "readOnly" fs);
  }

  abbrev pub read_network : Fields N → Reply HostContainerNetworkSummary
  read_network fs = do
    aliases ← read_array (λ x. ok (as_text js x)) (get_field "aliases" fs)
    ok record {
      name = text_at js "name" fs;
      ip_address = text_at js "ipAddress" fs;
      aliases = aliases;
    }

  abbrev pub host_ip_of : Option (Json N) → Option String
  host_ip_of none = none
  host_ip_of (some null) = none
  host_ip_of (some (boolean b)) = some (as_text js (boolean b))
  host_ip_of (some (number n)) = some (as_text js (number n))
  host_ip_of (some (text s)) = some s
  host_ip_of (some (array xs)) = some (as_text js (array xs))
  host_ip_of (some (object fs)) = some (as_text js (object fs))

  abbrev pub host_port_of : Option (Json N) → Option N
  host_port_of none = none
  host_port_of (some null) = none
  host_port_of (some (boolean b)) = none
  host_port_of (some (number n)) = if js.is_finite n then some n else none
  host_port_of (some (text s)) = none
  host_port_of (some (array xs)) = none
  host_port_of (some (object fs)) = none

  abbrev pub read_binding : Fields N → Reply (HostContainerPortBinding N)
  read_binding fs = ok record {
    host_ip = host_ip_of (get_field "hostIp" fs);
    host_port = host_port_of (get_field "hostPort" fs);
  }

  abbrev pub read_port : Fields N → Reply (HostContainerPortOption N)
  read_port fs = do
    bindings ← read_array (read_item read_binding) (get_field "publishedBindings" fs)
    ok record {
      container_port = number_at js "containerPort" fs;
      protocol = text_at js "protocol" fs;
      published_bindings = bindings;
    }

  abbrev pub read_key_value : Fields N → Reply KeyValue
  read_key_value fs = ok record { key = text_at js "key" fs; value = text_at js "value" fs }

  unfoldable pub containers_inspect : Fields N → Reply (HostContainerDetails N)
  containers_inspect response = do
    mounts ← read_array (read_item read_mount) (get_field "mounts" response)
    networks ← read_array (read_item read_network) (get_field "networks" response)
    ports ← read_array (read_item read_port) (get_field "ports" response)
    environment ← read_array (read_item read_key_value) (get_field "environment" response)
    labels ← read_array (read_item read_key_value) (get_field "labels" response)
    ok record {
      id = text_at js "id" response;
      name = text_at js "name" response;
      runtime = value_or (runtime_of (get_field "runtime" response)) docker;
      image = text_at js "image" response;
      status = text_at js "status" response;
      created_at = text_at js "createdAt" response;
      command = text_at js "command" response;
      entrypoint = text_at js "entrypoint" response;
      mounts = mounts;
      networks = networks;
      ports = ports;
      environment = environment;
      labels = labels;
    }
