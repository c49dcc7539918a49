-- ===== src/Core/Environment.antt =====
-- The environment of the core's process, up to buildCoreChildEnv of
-- apps/desktop/src/main/core-manager.ts. An environment is a `Map` from names to values. The methods of
-- texts and `path.win32.join` are the runtime's, and the model's parameter.
pub mod Merging
pub mod Again
pub mod Assigning
pub mod Child
mod Tests
use mathlib.Core.Option
use dolssh.Prelude.{
  String, Bool, true, false, not, ◌&&◌, ◌||◌, Option, none, some, List, [], ◌∷◌, ◌++◌, map, ◌==◌,
  if◌then◌else◌, or_else, value_or, filter_by, includes, Map, get, set, delete, keys, is_some,
}

pub record Runtime : Type 0 where
  pub trim : String → String
  pub to_lower_case : String → String
  pub split : String → String → List String
  pub join : String → List String → String
  pub win32_join : List String → String

-- Where names are compared without regard to case, the name that is used when there is none yet.
pub record AssignOptions : Type 0 where
  pub case_insensitive : Bool
  pub fallback_key : Option String

pub record WindowsCorePath : Type 0 where
  pub path_entries : List String
  pub cmd_executable_path : String
  pub windows_root : String

-- The entries of a path that are kept, and the set of their keys.
pub record UniqueEntries : Type 0 where
  pub entries : List String
  pub seen : List String

abbrev pub no_entries : UniqueEntries
no_entries = record { entries = []; seen = [] }

abbrev pub packaged_unix_core_path_entries : List String
packaged_unix_core_path_entries =
    "/opt/homebrew/bin" ∷ "/usr/local/bin" ∷ "/usr/bin" ∷ "/bin" ∷ "/usr/sbin" ∷ "/sbin" ∷ []

abbrev pub get_path_delimiter_for_platform : String → String
get_path_delimiter_for_platform platform = if platform == "win32" then ";" else ":"

abbrev pub is_given : String → Bool
is_given s = not (s == "")

abbrev pub any_case : Option String → AssignOptions
any_case fallback_key = record { case_insensitive = true; fallback_key = fallback_key }

module _ (js : Runtime) where
  abbrev pub split_path_entries : Option String → String → List String
  split_path_entries raw_path delimiter =
      filter_by is_given (map js.trim (js.split (value_or raw_path "") delimiter))

  abbrev pub seen_key : Bool → String → String
  seen_key case_insensitive normalized =
      if case_insensitive then js.to_lower_case normalized else normalized

  abbrev pub append_unique : Bool → String → UniqueEntries → UniqueEntries
  append_unique case_insensitive entry u =
      let normalized = js.trim entry in
      let key = seen_key case_insensitive normalized in
      if normalized == "" || includes key u.seen
      then u
      else record { entries = u.entries ++ normalized ∷ []; seen = key ∷ u.seen }

  unfoldable pub append_each : Bool → List String → UniqueEntries → UniqueEntries
  append_each case_insensitive [] u = u
  append_each case_insensitive (entry ∷ entries) u =
      append_each case_insensitive entries (append_unique case_insensitive entry u)

  abbrev pub unique_entries : List String → Option String → String → Bool → List String
  unique_entries preferred raw_path delimiter case_insensitive =
      (append_each case_insensitive (split_path_entries raw_path delimiter)
        (append_each case_insensitive preferred no_entries)).entries

  abbrev pub merge_unique_path_entries : List String → Option String → String → Bool → String
  merge_unique_path_entries preferred raw_path delimiter case_insensitive =
      js.join delimiter (unique_entries preferred raw_path delimiter case_insensitive)

  -- The first name that is `target` in lower case, with its value.
  unfoldable pub find_lower : String → Map String → Option (String × String)
  find_lower target [] = none
  find_lower target ((candidate, value) ∷ env) =
      if js.to_lower_case candidate == target
      then some (candidate, value)
      else find_lower target env

  abbrev pub lookup_env_value : Map String → String → Bool → Option String
  lookup_env_value env key case_insensitive =
      if case_insensitive
      then Option.map (λ p. p.1) (find_lower (js.to_lower_case key) env)
      else get key env

  abbrev pub resolve_existing_env_key : Map String → String → Bool → Option String
  resolve_existing_env_key env key case_insensitive =
      if case_insensitive
      then Option.map (λ p. p.0) (find_lower (js.to_lower_case key) env)
      else (if is_some (get key env) then some key else none)

  unfoldable pub delete_spellings : String → String → List String → Map String → Map String
  delete_spellings existing_key target [] env = env
  delete_spellings existing_key target (candidate ∷ candidates) env =
      delete_spellings existing_key target candidates (
        if not (candidate == existing_key) && js.to_lower_case candidate == target
        then delete candidate env
        else env)

  -- The name that a value is assigned to.
  abbrev pub assigned_key : Map String → String → AssignOptions → String
  assigned_key env key options =
      value_or
        (or_else (resolve_existing_env_key env key options.case_insensitive) options.fallback_key)
        key

  unfoldable pub assign_env_value : Map String → String → String → AssignOptions → Map String
  assign_env_value env key value options =
      let existing_key = assigned_key env key options in
      let assigned = set existing_key value env in
      if options.case_insensitive
      then delete_spellings existing_key (js.to_lower_case existing_key) (keys assigned) assigned
      else assigned

  abbrev pub powershell_candidate : Option String → Option String
  powershell_candidate none = none
  powershell_candidate (some root) =
      if js.trim root == ""
      then none
      else some (js.win32_join (js.trim root ∷ "PowerShell" ∷ "7" ∷ []))

  abbrev pub add_candidate : Option String → UniqueEntries → UniqueEntries
  add_candidate none u = u
  add_candidate (some candidate) u =
      let key = js.to_lower_case candidate in
      if includes key u.seen
      then u
      else record { entries = u.entries ++ candidate ∷ []; seen = key ∷ u.seen }

  abbrev pub add_roots : List (Option String) → UniqueEntries → UniqueEntries
  add_roots [] u = u
  add_roots (root ∷ roots) u = add_roots roots (add_candidate (powershell_candidate root) u)

  unfoldable pub build_windows_powershell7_path_entries : Map String → List String
  build_windows_powershell7_path_entries env =
      let roots =
        lookup_env_value env "ProgramFiles" true
        ∷ lookup_env_value env "ProgramW6432" true
        ∷ lookup_env_value env "ProgramFiles(x86)" true
        ∷ some "C:\\Program Files"
        ∷ some "C:\\Program Files (x86)"
        ∷ [] in
      (add_roots roots no_entries).entries

  unfoldable pub build_packaged_windows_core_path_entries : Map String → WindowsCorePath
  build_packaged_windows_core_path_entries env =
      let system_root =
        value_or
          (or_else (lookup_env_value env "SystemRoot" true) (lookup_env_value env "windir" true))
          "C:\\Windows" in
      let windows_root = if js.trim system_root == "" then "C:\\Windows" else js.trim system_root in
      record {
        path_entries =
            (js.win32_join (windows_root ∷ "System32" ∷ [])
              ∷ windows_root
              ∷ js.win32_join (windows_root ∷ "System32" ∷ "Wbem" ∷ [])
              ∷ [])
            ++ (build_windows_powershell7_path_entries env
                ++ js.win32_join (windows_root ∷ "System32" ∷ "WindowsPowerShell" ∷ "v1.0" ∷ [])
                  ∷ []);
        cmd_executable_path = js.win32_join (windows_root ∷ "System32" ∷ "cmd.exe" ∷ []);
        windows_root = windows_root;
      }

  -- What packaged Windows code assigns, one name after the other.
  abbrev pub assign_windows_path : WindowsCorePath → Map String → Map String
  assign_windows_path paths env =
      assign_env_value env "PATH"
        (merge_unique_path_entries paths.path_entries (lookup_env_value env "PATH" true)
          (get_path_delimiter_for_platform "win32") true)
        (any_case (some "Path"))

  abbrev pub assign_root : String → WindowsCorePath → Map String → Map String
  assign_root name paths env =
      if paths.windows_root == ""
      then env
      else assign_env_value env name (value_or (lookup_env_value env name true) paths.windows_root)
          (any_case (some name))

  abbrev pub assign_shell : WindowsCorePath → Map String → Map String
  assign_shell paths env =
      let is_set = is_given (value_or (lookup_env_value env "COMSPEC" true) "") in
      if not is_set && is_given paths.cmd_executable_path
      then assign_env_value env "COMSPEC" paths.cmd_executable_path (any_case (some "ComSpec"))
      else env

  unfoldable pub build_core_child_env : Map String → String → Bool → Map String
  build_core_child_env base_env platform is_packaged =
      let paths = build_packaged_windows_core_path_entries base_env in
      if not is_packaged
      then base_env
      else (if platform == "win32"
          then assign_shell paths (
              assign_root "windir" paths
                (assign_root "SystemRoot" paths (assign_windows_path paths base_env)))
          else set "PATH"
              (merge_unique_path_entries packaged_unix_core_path_entries (get "PATH" base_env)
                (get_path_delimiter_for_platform platform) false)
              base_env)
