-- ===== src/Core/Environment/Tests.antt =====
-- Small environments for apps/desktop/src/main/core-manager.ts, and the theorems at them. Texts are not
-- trimmed here, and those that the tests need have their lower case from a table.
use Prim.Native.Char.{code}
use Prim.Native.String.{String, ◌++◌ as append}
use dolssh.Prelude.{
  ℕ, ◌≡◌, refl, get, Bool, true, false, Option, none, some, List, [], ◌∷◌, ◌==◌, ◌=ℕ=◌,
  if◌then◌else◌, Map, set, delete, keys, String-discrete,
}
use dolssh.Core.Environment.{
  any_case, build_packaged_windows_core_path_entries, delete_spellings, Runtime, unique_entries,
  merge_unique_path_entries, find_lower, lookup_env_value, assign_env_value, build_core_child_env,
  append_each,
}
use dolssh.Core.Environment.Merging.{first_of_each, given_entries, unique_entries-first_of_each}
use dolssh.Core.Environment.Again.{merge_unique_path_entries-again}
use dolssh.Core.Environment.Assigning.{get-assign_env_value}
use dolssh.Core.Environment.Child.{Spellings, lookup_env_value-build_core_child_env}

abbrev splits_at : String → ℕ → Bool
splits_at String.[] c = false
splits_at (String.◌∷◌ d s) c = code d =ℕ= c

abbrev split_from : String → String → String → List String
split_from word String.[] delimiter = word ∷ []
split_from word (String.◌∷◌ c s) delimiter =
    if splits_at delimiter (code c)
    then word ∷ split_from "" s delimiter
    else split_from (append word (String.◌∷◌ c String.[])) s delimiter

abbrev join : String → List String → String
join delimiter [] = ""
join delimiter (x ∷ []) = x
join delimiter (x ∷ y ∷ xs) = append x (append delimiter (join delimiter (y ∷ xs)))

abbrev lower : String → String
lower s =
    if s == "PATH"
    then "path"
    else (if s == "Path"
        then "path"
        else (if s == "SystemRoot"
            then "systemroot"
            else (if s == "COMSPEC" then "comspec" else (if s == "ComSpec" then "comspec" else s))))

abbrev js : Runtime
js = record {
  trim = λ s. s;
  to_lower_case = lower;
  split = split_from "";
  join = join;
  win32_join = join "\\";
}

abbrev env : Map String
env = ("Path", "C:\\bin;C:\\tools") ∷ ("HOME", "C:\\me") ∷ ("PATH", "C:\\old") ∷ []

abbrev unix_path : Option String
unix_path = some "/opt:/bin::/opt"

abbrev preferred : List String
preferred = "/bin" ∷ "/usr/bin" ∷ []

three_entries : merge_unique_path_entries js preferred unix_path ":" false ≡ "/bin:/usr/bin:/opt"
unfolding append_each String-discrete
three_entries = refl

three_entries_split :
    split_from "" (merge_unique_path_entries js preferred unix_path ":" false) ":"
    ≡ unique_entries js preferred unix_path ":" false
unfolding append_each String-discrete
three_entries_split = refl

unique_entries-first_of_each_example :
    unique_entries js preferred unix_path ":" false
    ≡ first_of_each js false
        (given_entries js false ("/bin" ∷ "/usr/bin" ∷ "/opt" ∷ "/bin" ∷ "/opt" ∷ []))
unfolding String-discrete
unique_entries-first_of_each_example = unique_entries-first_of_each js false preferred unix_path ":"

merge_unique_path_entries-again_example :
    merge_unique_path_entries js preferred
      (some (merge_unique_path_entries js preferred unix_path ":" false))
      ":"
      false
    ≡ merge_unique_path_entries js preferred unix_path ":" false
merge_unique_path_entries-again_example =
    merge_unique_path_entries-again js false (λ s. refl) preferred unix_path ":" three_entries_split

get-assign_env_value_example :
    get "PATH" (assign_env_value js env "PATH" "C:\\new" (any_case (some "Path"))) ≡ none
unfolding String-discrete find_lower
get-assign_env_value_example =
    get-assign_env_value js env "PATH" "C:\\new" (some "Path") refl "PATH"

-- The other spelling is gone.
path_once :
    assign_env_value js env "PATH" "C:\\new" (any_case (some "Path"))
    ≡ ("Path", "C:\\new") ∷ ("HOME", "C:\\me") ∷ []
unfolding assign_env_value delete_spellings find_lower set delete keys String-discrete
path_once = refl

js-Spellings : Spellings js
unfolding String-discrete
js-Spellings = record {
  path_upper = refl;
  path = refl;
  system_root = refl;
  windir = refl;
  comspec_upper = refl;
  comspec = refl;
}

lookup_env_value-build_core_child_env_example :
    lookup_env_value js (build_core_child_env js env "win32" true) "windir" true
    ≡ some "C:\\Windows"
unfolding String-discrete build_packaged_windows_core_path_entries find_lower
lookup_env_value-build_core_child_env_example =
    lookup_env_value-build_core_child_env js js-Spellings env "windir"
