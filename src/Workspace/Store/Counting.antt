-- ===== src/Workspace/Store/Counting.antt =====
-- How the edits of the strip and of the list of workspaces change how often each session and each
-- workspace occurs.
use dolssh.Prelude.{
  ℕ, zero, suc, ◌+◌, ◌≤◌, ◌≡◌, refl, String, Bool, not, some, List, [], ◌∷◌, ◌++◌, ◌||◌, ◌==◌,
  if◌then◌else◌, find_by, filter_by, insert_at, count, count-append, arith, get_elem?, index_by,
}
use dolssh.Workspace.Layout.{list_workspace_session_ids}
use dolssh.Workspace.Strip.{
  DynamicTabStripItem, session, workspace, WorkspaceTab, is_session, has_id,
}
use dolssh.Workspace.Store.State.{strip_sessions, strip_workspaces, workspace_ids, pane_sessions}
use dolssh.Workspace.Store.Drag.{
  update_workspace, drop_workspace, drop_session_item, drop_workspace_item,
}

-- 1 where the two texts are one, else 0.
abbrev pub one_if : Bool → ℕ
one_if b = if b then 1 else 0

module _ (a : String) where
  pub sessions-insert_at :
      (i : ℕ) (x : DynamicTabStripItem) (xs : List DynamicTabStripItem)
      → count a (strip_sessions (insert_at i x xs))
        ≡ count a (strip_sessions (x ∷ [])) + count a (strip_sessions xs)
  sessions-insert_at zero (session s) xs = omega arith
  sessions-insert_at zero (workspace w) xs = omega arith
  sessions-insert_at (suc i) x [] = omega arith
  sessions-insert_at (suc i) x (session s ∷ xs) = omega (arith, sessions-insert_at i x xs)
  sessions-insert_at (suc i) x (workspace w ∷ xs) = sessions-insert_at i x xs

  pub workspaces-insert_at :
      (i : ℕ) (x : DynamicTabStripItem) (xs : List DynamicTabStripItem)
      → count a (strip_workspaces (insert_at i x xs))
        ≡ count a (strip_workspaces (x ∷ [])) + count a (strip_workspaces xs)
  workspaces-insert_at zero (session s) xs = omega arith
  workspaces-insert_at zero (workspace w) xs = omega arith
  workspaces-insert_at (suc i) x [] = omega arith
  workspaces-insert_at (suc i) x (workspace w ∷ xs) = omega (arith, workspaces-insert_at i x xs)
  workspaces-insert_at (suc i) x (session s ∷ xs) = workspaces-insert_at i x xs

  pub sessions-insert_workspace :
      (i : ℕ) (id : String) (xs : List DynamicTabStripItem)
      → count a (strip_sessions (insert_at i (workspace id) xs)) ≡ count a (strip_sessions xs)
  sessions-insert_workspace i id xs = omega (arith, sessions-insert_at i (workspace id) xs)

  pub workspaces-insert_session :
      (i : ℕ) (s : String) (xs : List DynamicTabStripItem)
      → count a (strip_workspaces (insert_at i (session s) xs)) ≡ count a (strip_workspaces xs)
  workspaces-insert_session i s xs = omega (arith, workspaces-insert_at i (session s) xs)

  pub sessions-drop_two :
      (s t : String) (xs : List DynamicTabStripItem)
      → count a
          (strip_sessions (filter_by (λ item. not (is_session s item || is_session t item)) xs))
        ≡ (if s == a then 0 else (if t == a then 0 else count a (strip_sessions xs)))
  sessions-drop_two s t [] = ground arith
  sessions-drop_two s t (session x ∷ xs) = ground (arith, sessions-drop_two s t xs)
  sessions-drop_two s t (workspace w ∷ xs) = sessions-drop_two s t xs

  pub sessions-drop_session :
      (s : String) (xs : List DynamicTabStripItem)
      → count a (strip_sessions (drop_session_item s xs))
        ≡ (if s == a then 0 else count a (strip_sessions xs))
  sessions-drop_session s [] = ground arith
  sessions-drop_session s (session x ∷ xs) = ground (arith, sessions-drop_session s xs)
  sessions-drop_session s (workspace w ∷ xs) = sessions-drop_session s xs

  pub workspaces-drop_workspace :
      (id : String) (xs : List DynamicTabStripItem)
      → count a (strip_workspaces (drop_workspace_item id xs))
        ≡ (if id == a then 0 else count a (strip_workspaces xs))
  workspaces-drop_workspace id [] = ground arith
  workspaces-drop_workspace id (workspace x ∷ xs) = ground (arith, workspaces-drop_workspace id xs)
  workspaces-drop_workspace id (session s ∷ xs) = workspaces-drop_workspace id xs

pub workspaces-drop_two :
    (s t : String) (xs : List DynamicTabStripItem)
    → strip_workspaces (filter_by (λ item. not (is_session s item || is_session t item)) xs)
      ≡ strip_workspaces xs
workspaces-drop_two s t [] = refl
workspaces-drop_two s t (session x ∷ xs) = ground (arith, workspaces-drop_two s t xs)
workspaces-drop_two s t (workspace w ∷ xs) = ground (arith, workspaces-drop_two s t xs)

pub workspaces-drop_session :
    (s : String) (xs : List DynamicTabStripItem)
    → strip_workspaces (drop_session_item s xs) ≡ strip_workspaces xs
workspaces-drop_session s [] = refl
workspaces-drop_session s (session x ∷ xs) = ground (arith, workspaces-drop_session s xs)
workspaces-drop_session s (workspace w ∷ xs) = ground (arith, workspaces-drop_session s xs)

pub sessions-drop_workspace :
    (id : String) (xs : List DynamicTabStripItem)
    → strip_sessions (drop_workspace_item id xs) ≡ strip_sessions xs
sessions-drop_workspace id [] = refl
sessions-drop_workspace id (session x ∷ xs) = ground (arith, sessions-drop_workspace id xs)
sessions-drop_workspace id (workspace w ∷ xs) = ground (arith, sessions-drop_workspace id xs)

-- The tab found by its first occurrence, and a tab beside it, are two occurrences.
pub session-and-next :
    (s : String) (x : DynamicTabStripItem) (xs : List DynamicTabStripItem) (i : ℕ) (a : String)
    → index_by (is_session s) xs ≡ some i
    → get_elem? xs (suc i) ≡ some x
    → one_if (s == a) + count a (strip_sessions (x ∷ [])) ≤ count a (strip_sessions xs)
session-and-next s x [] i a h e = cc
session-and-next s x (session y ∷ []) i a h e = ground arith
session-and-next s x (workspace y ∷ []) i a h e = ground arith
session-and-next s x (session y ∷ session z ∷ xs) zero a h e = ground (arith)
session-and-next s x (session y ∷ workspace z ∷ xs) zero a h e = ground (arith)
session-and-next s x (workspace y ∷ z ∷ xs) zero a h e = ground (arith)
session-and-next s x (session y ∷ z ∷ xs) (suc i) a h e =
    ground (arith, session-and-next s x (z ∷ xs) i a)
session-and-next s x (workspace y ∷ z ∷ xs) (suc i) a h e =
    ground (arith, session-and-next s x (z ∷ xs) i a)

pub session_once :
    (s : String) (xs : List DynamicTabStripItem) (i : ℕ) (a : String)
    → index_by (is_session s) xs ≡ some i
    → one_if (s == a) ≤ count a (strip_sessions xs)
session_once s [] i a h = cc
session_once s (session y ∷ xs) zero a h = ground (arith, session_once s xs 0 a)
session_once s (workspace y ∷ xs) zero a h = ground (arith)
session_once s (session y ∷ xs) (suc i) a h = ground (arith, session_once s xs i a)
session_once s (workspace y ∷ xs) (suc i) a h = ground (arith, session_once s xs i a)

pub session-and-previous :
    (s : String) (x : DynamicTabStripItem) (xs : List DynamicTabStripItem) (i : ℕ) (a : String)
    → index_by (is_session s) xs ≡ some (suc i)
    → get_elem? xs i ≡ some x
    → one_if (s == a) + count a (strip_sessions (x ∷ [])) ≤ count a (strip_sessions xs)
session-and-previous s x [] i a h e = cc
session-and-previous s x (session y ∷ xs) zero a h e = ground (arith, session_once s xs 0 a)
session-and-previous s x (workspace y ∷ xs) zero a h e = ground (arith, session_once s xs 0 a)
session-and-previous s x (session y ∷ xs) (suc i) a h e =
    ground (arith, session-and-previous s x xs i a)
session-and-previous s x (workspace y ∷ xs) (suc i) a h e =
    ground (arith, session-and-previous s x xs i a)

module _ (id : String) where
  pub find-id :
      (ws : List WorkspaceTab) (w : WorkspaceTab) → find_by (has_id id) ws ≡ some w → w.id ≡ id
  find-id [] w h = cc
  find-id (x ∷ ws) w h = ground (arith, find-id ws w)

  pub find_self :
      (ws : List WorkspaceTab) (w : WorkspaceTab)
      → find_by (has_id id) ws ≡ some w
      → find_by (has_id w.id) ws ≡ some w
  find_self [] w h = cc
  find_self (x ∷ ws) w h = ground (arith, find-id ws w, find_self ws w)

  pub update-absent :
      (f : WorkspaceTab → WorkspaceTab) (ws : List WorkspaceTab)
      → count id (workspace_ids ws) ≡ 0
      → update_workspace id f ws ≡ ws
  update-absent f [] h = refl
  update-absent f (x ∷ ws) h = ground (arith, update-absent f ws)

  pub drop-absent :
      (ws : List WorkspaceTab) → count id (workspace_ids ws) ≡ 0 → drop_workspace id ws ≡ ws
  drop-absent [] h = refl
  drop-absent (x ∷ ws) h = ground (arith, drop-absent ws)

  -- The sessions in panes, with one workspace's layout changed.
  pub panes-update :
      (f : WorkspaceTab → WorkspaceTab) (ws : List WorkspaceTab) (w : WorkspaceTab) (a : String)
      → count id (workspace_ids ws) ≤ 1
      → find_by (has_id id) ws ≡ some w
      → count a (pane_sessions (update_workspace id f ws))
          + count a (list_workspace_session_ids w.layout)
        ≡ count a (pane_sessions ws) + count a (list_workspace_session_ids (f w).layout)
  panes-update f [] w a u h = cc
  panes-update f (x ∷ ws) w a u h = ground (
    arith,
    panes-update f ws w a,
    update-absent f ws,
    count-append a (list_workspace_session_ids x.layout) (pane_sessions ws),
    count-append a (list_workspace_session_ids x.layout) (pane_sessions (update_workspace id f ws)),
    count-append a (list_workspace_session_ids (f x).layout) (pane_sessions ws),
  )

  pub panes-drop :
      (ws : List WorkspaceTab) (w : WorkspaceTab) (a : String)
      → count id (workspace_ids ws) ≤ 1
      → find_by (has_id id) ws ≡ some w
      → count a (pane_sessions (drop_workspace id ws))
          + count a (list_workspace_session_ids w.layout)
        ≡ count a (pane_sessions ws)
  panes-drop [] w a u h = cc
  panes-drop (x ∷ ws) w a u h = ground (
    arith,
    panes-drop ws w a,
    drop-absent ws,
    count-append a (list_workspace_session_ids x.layout) (pane_sessions ws),
    count-append a (list_workspace_session_ids x.layout) (pane_sessions (drop_workspace id ws)),
  )

  pub ids-drop :
      (ws : List WorkspaceTab) (a : String)
      → count a (workspace_ids (drop_workspace id ws))
        ≡ (if id == a then 0 else count a (workspace_ids ws))
  ids-drop [] a = ground arith
  ids-drop (x ∷ ws) a = ground (arith, ids-drop ws a)

  pub ids-update :
      (f : WorkspaceTab → WorkspaceTab) (ws : List WorkspaceTab)
      → ((w : WorkspaceTab) → (f w).id ≡ w.id)
      → workspace_ids (update_workspace id f ws) ≡ workspace_ids ws
  ids-update f [] h = refl
  ids-update f (x ∷ ws) h = ground (arith, h x, ids-update f ws h)

pub panes-append :
    (ws : List WorkspaceTab) (w : WorkspaceTab) (a : String)
    → count a (pane_sessions (ws ++ w ∷ []))
      ≡ count a (pane_sessions ws) + count a (list_workspace_session_ids w.layout)
panes-append [] w a = omega (arith, count-append a (list_workspace_session_ids w.layout) [])
panes-append (x ∷ ws) w a = omega (
  arith,
  panes-append ws w a,
  count-append a (list_workspace_session_ids x.layout) (pane_sessions ws),
  count-append a (list_workspace_session_ids x.layout) (pane_sessions (ws ++ w ∷ [])),
)

pub ids-append :
    (ws : List WorkspaceTab) (w : WorkspaceTab) (a : String)
    → count a (workspace_ids (ws ++ w ∷ [])) ≡ count a (workspace_ids ws) + one_if (w.id == a)
ids-append [] w a = omega arith
ids-append (x ∷ ws) w a = omega (arith, ids-append ws w a)
