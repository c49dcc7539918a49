-- ===== src/Core/Replies/Listed.antt =====
-- Lists of files as the core sends them, and what toDirectoryListing of
-- apps/desktop/src/main/core-manager.ts reads of them.
use dolssh.Prelude.{◌≡◌, refl, String, false, Option, none, some, ◌==◌, String-discrete}
use dolssh.Core.Replies.Reading.{
  Json, null, boolean, number, text, array, object, Fields, end, field, Values, ok, read_item,
}
use dolssh.Core.Replies.Types.{
  FileEntryKind, folder, file, symlink, unknown, FileEntry, DirectoryListing, kind_of,
}
use dolssh.Core.Replies.Listing.{read_entry, permissions_of, to_directory_listing}
use dolssh.Core.Replies.Printed.{items, AllOf, print_text, read_each-items}

abbrev kind_name : FileEntryKind → String
kind_name folder = "folder"
kind_name file = "file"
kind_name symlink = "symlink"
kind_name unknown = "unknown"

-- Permissions, if there are any, are not empty.
abbrev IsGiven : Option String → Type 0
IsGiven none = Unit
IsGiven (some s) = (s == "") ≡ false

module _ {N : Type 0} where
  abbrev print_permissions : Option String → Json N
  print_permissions none = null
  print_permissions (some s) = text s

  abbrev print_entry : FileEntry N → Json N
  print_entry e = object (
      print_text "name" e.name (
        print_text "path" e.path (
          field "isDirectory" (boolean e.is_directory) (
            field "size" (number e.size) (
              print_text "mtime" e.mtime (
                print_text "kind" (kind_name e.kind)
                  (field "permissions" (print_permissions e.permissions) end)))))))

  abbrev pub print_listing : DirectoryListing N → Fields N
  print_listing l =
      print_text "path" l.path (field "entries" (array (items print_entry l.entries)) end)

  abbrev pub HasPermissions : FileEntry N → Type 0
  HasPermissions e = IsGiven e.permissions

module _ {N : Type 0} (js : Values N) where
  permissions-print :
      (o : Option String) → IsGiven o → permissions_of js (some (print_permissions o)) ≡ o
  permissions-print none h = refl
  permissions-print (some s) h = rw h refl

  kind-print : (k : FileEntryKind) → kind_of {N = N} (some (text (kind_name k))) ≡ k
  unfolding String-discrete
  kind-print folder = refl
  kind-print file = refl
  kind-print symlink = refl
  kind-print unknown = refl

  entry-print :
      (e : FileEntry N) → HasPermissions e → read_item (read_entry js) (print_entry e) ≡ ok e
  unfolding String-discrete
  entry-print e h = rw (permissions-print e.permissions h, kind-print e.kind) refl

  -- A list of files that is sent under its names, none with empty permissions, is read back as it is.
  pub to_directory_listing-print :
      (l : DirectoryListing N)
      → AllOf HasPermissions l.entries
      → to_directory_listing js (print_listing l) ≡ ok l
  unfolding to_directory_listing String-discrete
  to_directory_listing-print l h =
      rw
        (read_each-items (read_item (read_entry js)) print_entry HasPermissions entry-print
          l.entries h)
        refl
