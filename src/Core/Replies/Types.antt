-- ===== src/Core/Replies/Types.antt =====
-- What apps/desktop/src/main/core-manager.ts reads answers into, and the words and fields that it reads.
use dolssh.Prelude.{String, Bool, false, Option, none, some, List, ◌==◌, if◌then◌else◌}
use dolssh.Core.Replies.Reading.{
  Json, null, boolean, number, text, array, object, Fields, Values, get_field, text_or, number_or,
}

pub data HostContainerRuntime : Type 0 where
  docker podman : HostContainerRuntime

pub data FileEntryKind : Type 0 where
  folder file symlink unknown : FileEntryKind

pub record HostContainerMountSummary : Type 0 where
  pub type : String
  pub source : String
  pub destination : String
  pub mode : String
  pub read_only : Bool

pub record HostContainerNetworkSummary : Type 0 where
  pub name : String
  pub ip_address : String
  pub aliases : List String

pub record KeyValue : Type 0 where
  pub key : String
  pub value : String

pub record HostContainerSummary : Type 0 where
  pub id : String
  pub name : String
  pub runtime : HostContainerRuntime
  pub image : String
  pub status : String
  pub created_at : String
  pub ports : String

-- `unsupportedReason` is never filled here.
pub record HostContainerListResult : Type 0 where
  pub host_id : String
  pub runtime : Option HostContainerRuntime
  pub containers : List HostContainerSummary

pub record HostContainerLogsSnapshot : Type 0 where
  pub host_id : String
  pub container_id : String
  pub runtime : HostContainerRuntime
  pub lines : List String
  pub cursor : Option String

module _ (N : Type 0) where
  pub record FileEntry : Type 0 where
    pub name : String
    pub path : String
    pub is_directory : Bool
    pub size : N
    pub mtime : String
    pub kind : FileEntryKind
    pub permissions : Option String

  -- `warnings` are never filled here.
  pub record DirectoryListing : Type 0 where
    pub path : String
    pub entries : List FileEntry

  pub record HostContainerPortBinding : Type 0 where
    pub host_ip : Option String
    pub host_port : Option N

  pub record HostContainerPortOption : Type 0 where
    pub container_port : N
    pub protocol : String
    pub published_bindings : List HostContainerPortBinding

  pub record HostContainerDetails : Type 0 where
    pub id : String
    pub name : String
    pub runtime : HostContainerRuntime
    pub image : String
    pub status : String
    pub created_at : String
    pub command : String
    pub entrypoint : String
    pub mounts : List HostContainerMountSummary
    pub networks : List HostContainerNetworkSummary
    pub ports : List HostContainerPortOption
    pub environment : List KeyValue
    pub labels : List KeyValue

  pub record HostContainerStatsSample : Type 0 where
    pub host_id : String
    pub container_id : String
    pub runtime : HostContainerRuntime
    pub recorded_at : String
    pub cpu_percent : N
    pub memory_used_bytes : N
    pub memory_limit_bytes : N
    pub memory_percent : N
    pub network_rx_bytes : N
    pub network_tx_bytes : N
    pub block_read_bytes : N
    pub block_write_bytes : N

  pub record HostContainerLogSearchResult : Type 0 where
    pub host_id : String
    pub container_id : String
    pub runtime : HostContainerRuntime
    pub query : String
    pub lines : List String
    pub match_count : N

module _ {N : Type 0} where
  -- `x === word`
  abbrev pub is_word : String → Option (Json N) → Bool
  is_word word none = false
  is_word word (some null) = false
  is_word word (some (boolean b)) = false
  is_word word (some (number n)) = false
  is_word word (some (text s)) = s == word
  is_word word (some (array xs)) = false
  is_word word (some (object fs)) = false

  abbrev pub runtime_of : Option (Json N) → Option HostContainerRuntime
  runtime_of x =
      if is_word "docker" x then some docker else (if is_word "podman" x then some podman else none)

  abbrev pub kind_of : Option (Json N) → FileEntryKind
  kind_of x =
      if is_word "folder" x
      then folder
      else (if is_word "file" x then file else (if is_word "symlink" x then symlink else unknown))

module _ {N : Type 0} (js : Values N) where
  abbrev pub text_at : String → Fields N → String
  text_at k fs = text_or js "" (get_field k fs)

  abbrev pub number_at : String → Fields N → N
  number_at k fs = number_or js js.zero (get_field k fs)
