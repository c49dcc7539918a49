-- ===== src/Core/Replies/Listing.antt =====
-- Lists of files and of containers: toDirectoryListing and containersList of
-- apps/desktop/src/main/core-manager.ts.
use dolssh.Prelude.{String, Option, none, some, if◌then◌else◌, value_or}
use dolssh.Core.Replies.Reading.{
  Json, Fields, Values, Reply, ok, ◌>>=◌, get_field, read_item, read_array, text_or, is_truthy,
}
use dolssh.Core.Replies.Types.{
  docker, HostContainerSummary, HostContainerListResult, FileEntry, DirectoryListing, runtime_of,
  kind_of, text_at, number_at,
}

module _ {N : Type 0} (js : Values N) where
  abbrev pub permissions_of : Option (Json N) → Option String
  permissions_of x = if is_truthy js x then some (text_or js "" x) else none

  abbrev pub read_entry : Fields N → Reply (FileEntry N)
  read_entry fs = ok record {
    name = text_at js "name" fs;
    path = text_at js "path" fs;
    is_directory = is_truthy js (get_field "isDirectory" fs);
    size = number_at js "size" fs;
    mtime = text_or js "1970-01-01T00:00:00.000Z" (get_field "mtime" fs);
    kind = kind_of (get_field "kind" fs);
    permissions = permissions_of (get_field "permissions" fs);
  }

  unfoldable pub to_directory_listing : Fields N → Reply (DirectoryListing N)
  to_directory_listing payload = do
    entries ← read_array (read_item read_entry) (get_field "entries" payload)
    ok record { path = text_or js "/" (get_field "path" payload); entries = entries }

  abbrev pub read_container : Fields N → Reply HostContainerSummary
  read_container fs = ok record {
    id = text_at js "id" fs;
    name = text_at js "name" fs;
    runtime = value_or (runtime_of (get_field "runtime" fs)) docker;
    image = text_at js "image" fs;
    status = text_at js "status" fs;
    created_at = text_at js "createdAt" fs;
    ports = text_at js "ports" fs;
  }

  -- `host_id` is the host of the endpoint, or the empty text.
  unfoldable pub containers_list : String → Fields N → Reply HostContainerListResult
  containers_list host_id response = do
    containers ← read_array (read_item read_container) (get_field "containers" response)
    ok record {
      host_id = host_id;
      runtime = runtime_of (get_field "runtime" response);
      containers = containers;
    }
