-- ===== src/Sftp/Tests.antt =====
-- A small pane, and the theorems at it. Texts are neither trimmed nor put in lower case here, and the
-- filter's test is equality.
use dolssh.Prelude.{
  arith, String-discrete, ◌≡◌, refl, String, Bool, true, false, some, [], ◌∷◌, ◌==◌, includes,
}
use dolssh.Prelude.Int.{pos}
use dolssh.Sftp.Pane.{
  FileEntry, SftpPaneState, SftpEntrySelectionInput, paths, resolve_next_sftp_selection,
  resolve_transfer_items_from_pane, push_history, navigate_sftp_back, navigate_sftp_forward,
}
use dolssh.Sftp.History.{push_history-back_forward}
use dolssh.Sftp.Selection.{AllIn, selection-AllIn, selection-range}

abbrev file : String → FileEntry
file s = record { name = s; path = s; is_directory = false }

abbrev same_text : String → String
same_text s = s

abbrev equal_text : String → String → Bool
equal_text s t = s == t

abbrev pane : SftpPaneState
pane = record {
  history = "/" ∷ "/a" ∷ "/b" ∷ [];
  history_index = pos 1;
  entries = file "p" ∷ file "q" ∷ file "r" ∷ file "s" ∷ [];
  selected_paths = "r" ∷ [];
  selection_anchor_path = some "r";
  filter_query = "";
}

abbrev shift_click : SftpEntrySelectionInput
shift_click = record {
  entry_path = some "p";
  visible_entry_paths = [];
  toggle = false;
  range = true;
}

pane_selected : AllIn pane.selected_paths (paths pane.entries)
unfolding String-discrete
pane_selected s h = ground arith

selection-AllIn_example :
    AllIn
      (resolve_next_sftp_selection same_text same_text equal_text pane shift_click).selected
      (paths pane.entries)
selection-AllIn_example =
    selection-AllIn same_text same_text equal_text pane shift_click pane_selected

clicked_paths :
    (resolve_next_sftp_selection same_text same_text equal_text pane shift_click).selected
    ≡ "p" ∷ "q" ∷ "r" ∷ []
unfolding resolve_next_sftp_selection String-discrete
clicked_paths = refl

selection-range_example :
    (includes "p"
        (resolve_next_sftp_selection same_text same_text equal_text pane shift_click).selected
      ≡ true)
    × (includes "r"
          (resolve_next_sftp_selection same_text same_text equal_text pane shift_click).selected
        ≡ true)
    × ((resolve_next_sftp_selection same_text same_text equal_text pane shift_click).anchor
        ≡ some "r")
unfolding resolve_next_sftp_selection String-discrete
selection-range_example =
    selection-range same_text same_text equal_text pane shift_click "p" "r" 2 0 refl refl refl refl
      refl refl refl refl

push_history-back_forward_example :
    (navigate_sftp_back (push_history pane "/c")
      ≡ some ("/a", record (push_history pane "/c") { history_index = pos 1 }))
    × (navigate_sftp_forward record (push_history pane "/c") { history_index = pos 1 }
        ≡ some ("/c", push_history pane "/c"))
unfolding String-discrete
push_history-back_forward_example = push_history-back_forward pane 1 "/a" "/c" refl refl refl

-- What is dragged from outside the selection goes alone.
dragged_alone : resolve_transfer_items_from_pane pane (some "q") ≡ file "q" ∷ []
unfolding resolve_transfer_items_from_pane String-discrete
dragged_alone = refl
