-- ===== src/Workspace/Store/Placement/Accepted.antt =====
-- Dropping a tab keeps the invariant of the store.
use dolssh.Prelude.{
  ℕ, suc, ◌+◌, ◌≤◌, ◌≡◌, refl, ap, sym, ◌∙◌, String, Bool, true, false, not, Option, none, some, [],
  ◌∷◌, ◌||◌, ◌==◌, find_by, filter_by, count, length, includes, arith, index_by, min, inl, inr,
  Option-cases, Bool-cases, leb,
}
use dolssh.Workspace.Layout.{
  WorkspaceDropDirection, list_workspace_session_ids, create_workspace_split,
  count_workspace_sessions, insert_session_into_workspace_layout,
}
use dolssh.Workspace.Layout.Insert.{
  list-create, list-insert, insert-inserted, length-insert_beside, includes-insert_beside,
}
use dolssh.Workspace.Layout.Ratios.{
  insert-RatiosInRange, create-RatiosInRange, create-next, insert-next,
}
use dolssh.Workspace.Strip.{
  DynamicTabStripItem, session, workspace, WorkspaceTab, is_session, has_id,
  resolve_adjacent_target,
}
use dolssh.Workspace.Store.State.{AppState, strip_workspaces, workspace_ids}
use dolssh.Workspace.Store.Drag.{
  pair_sessions, join_workspace, split_beside, split_session_into_workspace, resolve_target,
}
use dolssh.Workspace.Store.Counting.{
  one_if, workspaces-insert_at, workspaces-drop_two, workspaces-drop_session, ids-append,
  ids-update,
}
use dolssh.Workspace.Store.Placement.{
  IsShown, AllShown, WellPlaced, find-IsShown, append-AllShown, update-AllShown,
}
use dolssh.Workspace.Store.Placement.Dropped.{split-places}

module _ (uuid : ℕ → String) where
  -- The fields of the invariant but the first, for a state of any tabs.
  pub record IsListed (st : AppState) : Type 0 where
    pub unique : (a : String) → count a (workspace_ids st.workspaces) ≤ 1
    pub listed :
        (a : String)
        → count a (strip_workspaces st.tab_strip) ≡ count a (workspace_ids st.workspaces)
    pub fresh : (n : ℕ) → st.next_uuid ≤ n → count (uuid n) (workspace_ids st.workspaces) ≡ 0
    pub shown : AllShown st.workspaces

  as-IsListed : (st : AppState) → WellPlaced uuid st → IsListed st
  as-IsListed st v = record {
    unique = v.unique;
    listed = v.listed;
    fresh = v.fresh;
    shown = v.shown;
  }

  create-IsShown :
      (id title s t : String) (d : WorkspaceDropDirection) (n : ℕ)
      → IsShown (record {
        id = id;
        title = title;
        layout = (create_workspace_split uuid t s d n).0;
        active_session_id = s;
        broadcast_enabled = false;
      })
  create-IsShown id title s t d n = record {
    several = rw (list-create uuid t s d n) (ground (arith, length-insert_beside t s d (t ∷ [])));
    few = rw (list-create uuid t s d n) (ground (arith, length-insert_beside t s d (t ∷ [])));
    active = rw (list-create uuid t s d n) (includes-insert_beside t s d (t ∷ []) (ground arith));
    ratios = create-RatiosInRange uuid t s d n;
  }

  module _ (injective : (m n : ℕ) → uuid m ≡ uuid n → m ≡ n) (st : AppState) where
    pair-ids :
        (s t : String) (d : WorkspaceDropDirection) (i j : ℕ) (a : String)
        → count a (workspace_ids (pair_sessions uuid st s t d i j).workspaces)
          ≡ count a (workspace_ids st.workspaces) + one_if (uuid st.next_uuid == a)
    unfolding pair_sessions
    pair-ids s t d i j a = ids-append st.workspaces _ a

    pair-strip :
        (s t : String) (d : WorkspaceDropDirection) (i j : ℕ) (a : String)
        → count a (strip_workspaces (pair_sessions uuid st s t d i j).tab_strip)
          ≡ count a (strip_workspaces st.tab_strip) + one_if (uuid st.next_uuid == a)
    unfolding pair_sessions
    pair-strip s t d i j a =
        let strip = filter_by (λ item. not (is_session s item || is_session t item)) st.tab_strip in
        omega (
          arith,
          workspaces-insert_at a (min i j) (workspace (uuid st.next_uuid)) strip,
          ap (count a) (workspaces-drop_two s t st.tab_strip),
        )

    pair-next :
        (s t : String) (d : WorkspaceDropDirection) (i j : ℕ)
        → (pair_sessions uuid st s t d i j).next_uuid ≡ st.next_uuid + 4
    unfolding pair_sessions
    pair-next s t d i j = omega (arith, create-next uuid t s d (suc st.next_uuid))

    pair-shown :
        (s t : String) (d : WorkspaceDropDirection) (i j : ℕ)
        → AllShown st.workspaces
        → AllShown (pair_sessions uuid st s t d i j).workspaces
    unfolding pair_sessions
    pair-shown s t d i j h = append-AllShown st.workspaces _ h (create-IsShown _ _ s t d _)

    pair-IsListed :
        (s t : String) (d : WorkspaceDropDirection) (i j : ℕ)
        → IsListed st
        → IsListed (pair_sessions uuid st s t d i j)
    pair-IsListed s t d i j v = record {
      unique = λ a. ground (arith, v.unique a, v.fresh st.next_uuid, pair-ids s t d i j a);
      listed = λ a. ground (arith, v.listed a, pair-ids s t d i j a, pair-strip s t d i j a);
      fresh = λ n h. ground (
        arith,
        v.fresh n,
        pair-ids s t d i j (uuid n),
        injective st.next_uuid n,
        pair-next s t d i j,
      );
      shown = pair-shown s t d i j v.shown;
    }

    module _ (s : String) (d : WorkspaceDropDirection) (target : Option String)
        (w : WorkspaceTab) where
      join-ids :
          workspace_ids (join_workspace uuid st s d target (some w)).0.workspaces
          ≡ workspace_ids st.workspaces
      unfolding join_workspace
      join-ids =
          let r =
            insert_session_into_workspace_layout uuid w.layout (resolve_target target w) s d
              st.next_uuid in
          let f : WorkspaceTab → WorkspaceTab =
            λ item. record item { layout = r.layout; active_session_id = s } in
          ground (arith, ids-update w.id f st.workspaces (λ _. refl))

      join-strip :
          strip_workspaces (join_workspace uuid st s d target (some w)).0.tab_strip
          ≡ strip_workspaces st.tab_strip
      unfolding join_workspace
      join-strip = ground (arith, workspaces-drop_session s st.tab_strip)

      join-next : st.next_uuid ≤ (join_workspace uuid st s d target (some w)).0.next_uuid
      unfolding join_workspace
      join-next =
          ground (arith, insert-next uuid w.layout (resolve_target target w) s d st.next_uuid)

      -- The layout after an insertion is shown with the incoming session in front.
      insert-IsShown :
          (id title t : String) (b : Bool)
          → IsShown w
          → leb 4 (length (list_workspace_session_ids w.layout)) ≡ false
          → (insert_session_into_workspace_layout uuid w.layout t s d st.next_uuid).inserted ≡ true
          → IsShown (record {
            id = id;
            title = title;
            layout = (insert_session_into_workspace_layout uuid w.layout t s d st.next_uuid).layout;
            active_session_id = s;
            broadcast_enabled = b;
          })
      insert-IsShown id title t b v h k =
          let xs = list_workspace_session_ids w.layout in
          let there : includes t xs ≡ true =
            sym (insert-inserted uuid w.layout t s d st.next_uuid) ∙ k in
          record {
            several =
                rw (list-insert uuid w.layout t s d st.next_uuid)
                  (ground (arith, length-insert_beside t s d xs, v.several));
            few =
                rw (list-insert uuid w.layout t s d st.next_uuid)
                  (ground (arith, length-insert_beside t s d xs));
            active =
                rw (list-insert uuid w.layout t s d st.next_uuid)
                  (includes-insert_beside t s d xs there);
            ratios = insert-RatiosInRange uuid w.layout t s d st.next_uuid v.ratios;
          }

      join-shown :
          IsShown w
          → AllShown st.workspaces
          → AllShown (join_workspace uuid st s d target (some w)).0.workspaces
      unfolding join_workspace count_workspace_sessions
      join-shown v h =
          let t = resolve_target target w in
          let r = insert_session_into_workspace_layout uuid w.layout t s d st.next_uuid in
          let f : WorkspaceTab → WorkspaceTab =
            λ item. record item { layout = r.layout; active_session_id = s } in
          elim (Bool-cases (leb 4 (length (list_workspace_session_ids w.layout)))) [
            | inl full ↦ rw full h
            | inr room ↦ elim (Bool-cases r.inserted) [
              | inr missing ↦ rw (room, missing) h
              | inl there ↦
                  rw (room, there)
                    (update-AllShown w.id f st.workspaces
                      (λ item _.
                        insert-IsShown item.id item.title t item.broadcast_enabled v room there)
                      h)
            ]
          ]

      join-IsListed :
          IsShown w → IsListed st → IsListed (join_workspace uuid st s d target (some w)).0
      join-IsListed k v = record {
        unique = λ a. rw join-ids (v.unique a);
        listed = λ a. rw (join-ids, join-strip) (v.listed a);
        fresh = λ n h. rw join-ids (v.fresh n (omega (arith, join-next)));
        shown = join-shown k v.shown;
      }

    join_none-IsListed :
        (s : String) (d : WorkspaceDropDirection) (target : Option String)
        → IsListed st
        → IsListed (join_workspace uuid st s d target none).0
    unfolding join_workspace
    join_none-IsListed s d target v = v

    split_beside-IsListed :
        (s : String) (d : WorkspaceDropDirection) (target : Option String)
        (o : Option DynamicTabStripItem)
        → IsListed st
        → IsListed (split_beside uuid st s d target o).0
    split_beside-IsListed s d target none v = v
    split_beside-IsListed s d target (some (session t)) v =
        elim (Option-cases (index_by (is_session s) st.tab_strip)) [
          | inl e ↦ rw (e, split_beside) v
          | inr (i, e) ↦ elim (Option-cases (index_by (is_session t) st.tab_strip)) [
            | inl f ↦ rw (e, f, split_beside) v
            | inr (j, f) ↦ rw (e, f, split_beside) (pair-IsListed s t d i j v)
          ]
        ]
    split_beside-IsListed s d target (some (workspace id)) v =
        elim (Option-cases (find_by (has_id id) st.workspaces)) [
          | inl e ↦ rw (e, split_beside) (join_none-IsListed s d target v)
          | inr (w, e) ↦
              rw (e, split_beside)
                (join-IsListed s d target w (find-IsShown id st.workspaces w e v.shown) v)
        ]

    split-IsListed :
        (s : String) (d : WorkspaceDropDirection) (target : Option String)
        → IsListed st
        → IsListed (split_session_into_workspace uuid st s d target).0
    unfolding split_session_into_workspace
    split-IsListed s d target v =
        split_beside-IsListed s d target (resolve_adjacent_target st.tab_strip st.workspaces s) v

    -- Dropping a tab beside the next one keeps the invariant, where ids are never drawn twice:
    -- every session keeps its one place, and each workspace has two to four panes.
    pub split-WellPlaced :
        (s : String) (d : WorkspaceDropDirection) (target : Option String)
        → WellPlaced uuid st
        → WellPlaced uuid (split_session_into_workspace uuid st s d target).0
    split-WellPlaced s d target v =
        let l = split-IsListed s d target (as-IsListed st v) in
        record {
          once = λ a. rw (split-places uuid st s d target a v) (v.once a);
          unique = l.unique;
          listed = l.listed;
          fresh = l.fresh;
          shown = l.shown;
        }
