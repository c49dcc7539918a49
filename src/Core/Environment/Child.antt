-- ===== src/Core/Environment/Child.antt =====
-- What the core's process finds in its environment: buildCoreChildEnv of
-- apps/desktop/src/main/core-manager.ts for packaged Windows code.
use dolssh.Prelude.{
  ◌≡◌, refl, sym, ◌∙◌, String, true, false, not, ◌&&◌, Option, some, ◌==◌, if◌then◌else◌,
  Bool-cases, inl, inr, or_else, value_or, Map, ==_iff, String-discrete,
}
use dolssh.Core.Environment.{
  Runtime, WindowsCorePath, is_given, merge_unique_path_entries, lookup_env_value,
  build_packaged_windows_core_path_entries, assign_windows_path, assign_root, assign_shell,
  build_core_child_env,
}
use dolssh.Core.Environment.Assigning.{lookup_env_value-assign_env_value}

-- What the names are in lower case.
pub record Spellings (js : Runtime) : Type 0 where
  pub path_upper : js.to_lower_case "PATH" ≡ "path"
  pub path : js.to_lower_case "Path" ≡ "path"
  pub system_root : js.to_lower_case "SystemRoot" ≡ "systemroot"
  pub windir : js.to_lower_case "windir" ≡ "windir"
  pub comspec_upper : js.to_lower_case "COMSPEC" ≡ "comspec"
  pub comspec : js.to_lower_case "ComSpec" ≡ "comspec"

-- What is found in the environment of packaged Windows code by a name in lower case.
abbrev pub windows_value : Runtime → Map String → String → Option String → Option String
windows_value js env name inherited =
    let paths = build_packaged_windows_core_path_entries js env in
    let shell = lookup_env_value js env "COMSPEC" true in
    if "comspec" == name
    then (if not (is_given (value_or shell "")) && is_given paths.cmd_executable_path
        then some paths.cmd_executable_path
        else shell)
    else (if "windir" == name
        then some (value_or (lookup_env_value js env "windir" true) paths.windows_root)
        else (if "systemroot" == name
            then some (value_or (lookup_env_value js env "SystemRoot" true) paths.windows_root)
            else (if "path" == name
                then some (
                    merge_unique_path_entries js paths.path_entries
                      (lookup_env_value js env "PATH" true) ";" true)
                else inherited)))

default-given :
    (x default : String)
    → (default == "") ≡ false
    → ((if x == "" then default else x) == "") ≡ false
default-given x default h = elim (Bool-cases (x == "")) [ inl e ↦ rw e h | inr e ↦ rw e e ]

windows_root-given :
    (js : Runtime) (env : Map String)
    → ((build_packaged_windows_core_path_entries js env).windows_root == "") ≡ false
unfolding build_packaged_windows_core_path_entries String-discrete
windows_root-given js env =
    default-given
      (js.trim (
        value_or
          (or_else (lookup_env_value js env "SystemRoot" true)
            (lookup_env_value js env "windir" true))
          "C:\\Windows"))
      "C:\\Windows" refl

module _ (js : Runtime) (s : Spellings js) (env : Map String) where
  path-lookup :
      (paths : WindowsCorePath) (j : String)
      → lookup_env_value js (assign_windows_path js paths env) j true ≡ (
          if "path" == js.to_lower_case j
          then some (
              merge_unique_path_entries js paths.path_entries
                (lookup_env_value js env "PATH" true)
                ";"
                true)
          else lookup_env_value js env j true)
  unfolding String-discrete
  path-lookup paths j =
      lookup_env_value-assign_env_value js env "PATH" _ (some "Path") (s.path ∙ sym s.path_upper) j
      ∙ rw s.path_upper refl

  root-lookup :
      (name lower : String) (paths : WindowsCorePath) (j : String)
      → js.to_lower_case name ≡ lower
      → (paths.windows_root == "") ≡ false
      → lookup_env_value js (assign_root js name paths env) j true ≡ (
          if lower == js.to_lower_case j
          then some (value_or (lookup_env_value js env name true) paths.windows_root)
          else lookup_env_value js env j true)
  root-lookup name lower paths j l h =
      rw h (lookup_env_value-assign_env_value js env name _ (some name) refl j ∙ rw l refl)

  shell-lookup :
      (paths : WindowsCorePath) (j : String)
      → lookup_env_value js (assign_shell js paths env) j true ≡ (
          if "comspec" == js.to_lower_case j
          then (if not (is_given (value_or (lookup_env_value js env "COMSPEC" true) ""))
                && is_given paths.cmd_executable_path
              then some paths.cmd_executable_path
              else lookup_env_value js env "COMSPEC" true)
          else lookup_env_value js env j true)
  shell-lookup paths j =
      let shell = lookup_env_value js env "COMSPEC" true in
      elim (Bool-cases (not (is_given (value_or shell "")) && is_given paths.cmd_executable_path)) [
        | inl c ↦ rw c (
            lookup_env_value-assign_env_value js env "COMSPEC" _ (some "ComSpec")
              (s.comspec ∙ sym s.comspec_upper) j
            ∙ rw s.comspec_upper refl)
        | inr c ↦ rw c (elim (Bool-cases ("comspec" == js.to_lower_case j)) [
          | inl e ↦ rw (e, s.comspec_upper, (==_iff "comspec" (js.to_lower_case j)).0 e) refl
          | inr e ↦ rw e refl
        ])
      ]

-- Where the four names have the lower case that they have, packaged Windows code runs the core with
-- the merged path, with the roots and the shell that were set or else the found ones, and with every
-- other name as it was, whatever the case in which the names are spelled.
pub lookup_env_value-build_core_child_env :
    (js : Runtime)
    → Spellings js
    → (env : Map String) (j : String)
    → lookup_env_value js (build_core_child_env js env "win32" true) j true
      ≡ windows_value js env (js.to_lower_case j) (lookup_env_value js env j true)
unfolding build_core_child_env String-discrete
lookup_env_value-build_core_child_env js s env j =
    let paths = build_packaged_windows_core_path_entries js env in
    let given = windows_root-given js env in
    let e1 = assign_windows_path js paths env in
    let e2 = assign_root js "SystemRoot" paths e1 in
    let e3 = assign_root js "windir" paths e2 in
    let l1 = path-lookup js s env paths in
    let l2 =
      λ (i : String). root-lookup js s e1 "SystemRoot" "systemroot" paths i s.system_root given in
    let l3 = λ (i : String). root-lookup js s e2 "windir" "windir" paths i s.windir given in
    let shell : lookup_env_value js e3 "COMSPEC" true ≡ lookup_env_value js env "COMSPEC" true =
      rw (l3 "COMSPEC", l2 "COMSPEC", l1 "COMSPEC", s.comspec_upper) refl in
    let windir : lookup_env_value js e2 "windir" true ≡ lookup_env_value js env "windir" true =
      rw (l2 "windir", l1 "windir", s.windir) refl in
    let root : lookup_env_value js e1 "SystemRoot" true
        ≡ lookup_env_value js env "SystemRoot" true =
      rw (l1 "SystemRoot", s.system_root) refl in
    shell-lookup js s e3 paths j ∙ rw (shell, l3 j, windir, l2 j, root, l1 j) refl
