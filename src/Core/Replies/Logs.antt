-- ===== src/Core/Replies/Logs.antt =====
-- A container's logs and its load: containersLogs, containersStats and containersSearchLogs of
-- apps/desktop/src/main/core-manager.ts.
use mathlib.Core.Option
use dolssh.Prelude.{
  String, Option, none, some, List, [], ◌∷◌, ◌==◌, if◌then◌else◌, length, value_or,
}
use dolssh.Core.Replies.Reading.{
  Json, null, boolean, number, text, array, object, Elements, last, element, Fields, Values,
  lines_not_texts, cursor_not_text, Reply, ok, threw, ◌>>=◌, get_field, text_or, number_or,
}
use dolssh.Core.Replies.Types.{
  docker, HostContainerLogsSnapshot, HostContainerStatsSample, HostContainerLogSearchResult,
  runtime_of, number_at,
}

abbrev pub texts_of : Option (List String) → Reply (List String)
texts_of none = threw lines_not_texts
texts_of (some lines) = ok lines

module _ {N : Type 0} where
  -- The texts of an array, if it is one and all its items are.
  abbrev pub text_items : Elements N → Option (List String)
  text_items last = some []
  text_items (element null xs) = none
  text_items (element (boolean b) xs) = none
  text_items (element (number n) xs) = none
  text_items (element (text s) xs) = Option.map (◌∷◌ s) (text_items xs)
  text_items (element (array ys) xs) = none
  text_items (element (object fs) xs) = none

  abbrev pub text_array : Option (Json N) → Option (List String)
  text_array none = none
  text_array (some null) = none
  text_array (some (boolean b)) = none
  text_array (some (number n)) = none
  text_array (some (text s)) = none
  text_array (some (array xs)) = text_items xs
  text_array (some (object fs)) = none

  abbrev pub texts : Option (Json N) → Reply (List String)
  texts x = texts_of (text_array x)

module _ {N : Type 0} (js : Values N) where
  -- A cursor that is missing, `null` or a text; one that is blank counts as missing.
  abbrev pub cursor_of : Option (Json N) → Reply (Option String)
  cursor_of none = ok none
  cursor_of (some null) = ok none
  cursor_of (some (boolean b)) = threw cursor_not_text
  cursor_of (some (number n)) = threw cursor_not_text
  cursor_of (some (text s)) = ok (if js.trim s == "" then none else some s)
  cursor_of (some (array xs)) = threw cursor_not_text
  cursor_of (some (object fs)) = threw cursor_not_text

  unfoldable pub containers_logs : String → String → Fields N → Reply HostContainerLogsSnapshot
  containers_logs host_id container_id response = do
    lines ← texts (get_field "lines" response)
    cursor ← cursor_of (get_field "cursor" response)
    ok record {
      host_id = host_id;
      container_id = text_or js container_id (get_field "containerId" response);
      runtime = value_or (runtime_of (get_field "runtime" response)) docker;
      lines = lines;
      cursor = cursor;
    }

  unfoldable pub containers_stats : String → String → String → Fields N → HostContainerStatsSample N
  containers_stats host_id container_id now response = record {
    host_id = host_id;
    container_id = text_or js container_id (get_field "containerId" response);
    runtime = value_or (runtime_of (get_field "runtime" response)) docker;
    recorded_at = text_or js now (get_field "recordedAt" response);
    cpu_percent = number_at js "cpuPercent" response;
    memory_used_bytes = number_at js "memoryUsedBytes" response;
    memory_limit_bytes = number_at js "memoryLimitBytes" response;
    memory_percent = number_at js "memoryPercent" response;
    network_rx_bytes = number_at js "networkRxBytes" response;
    network_tx_bytes = number_at js "networkTxBytes" response;
    block_read_bytes = number_at js "blockReadBytes" response;
    block_write_bytes = number_at js "blockWriteBytes" response;
  }

  unfoldable pub containers_search_logs :
      String → String → String → Fields N → Reply (HostContainerLogSearchResult N)
  containers_search_logs host_id container_id query response = do
    lines ← texts (get_field "lines" response)
    ok record {
      host_id = host_id;
      container_id = text_or js container_id (get_field "containerId" response);
      runtime = value_or (runtime_of (get_field "runtime" response)) docker;
      query = text_or js query (get_field "query" response);
      lines = lines;
      match_count = number_or js (js.of_count (length lines)) (get_field "matchCount" response);
    }
