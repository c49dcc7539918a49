-- ===== src/Core/Stream.antt =====
-- The core's output as apps/desktop/src/main/core-manager.ts reads it from the pipe: the frames of
-- apps/desktop/src/main/core-framing.ts, and what the manager does with each.
use dolssh.Prelude.{
  ℕ, ◌≡◌, refl, sym, ap, ◌∙◌, String, Option, some, List, [], ◌∷◌, ◌++◌, inl, inr, ◌==◌, ==_iff,
  Bool-cases,
}
use dolssh.Framing.{Frame, control, stream, Pushed, returned, threw, push}
use dolssh.Framing.Pushes.{Pushed-cases, continue_with}
use dolssh.Framing.Chunks.{and_then, push_all, encode_all, joined, push_all-encode_all}
use dolssh.Core.State.{CoreManager, terminal_data}
use dolssh.Core.Events.{handle_control_event}
use dolssh.Core.Process.{Metadata, Reader, handle_frame, handle_frames, consume_stdout}

abbrev pub reader : CoreManager → List ℕ → Reader
reader st buffer = record { manager = st; buffer = buffer }

-- The chunks that the pipe hands over, one after the other.
unfoldable pub consume_chunks :
    {M : Type 0}
    → (ℕ → String)
    → (M → Metadata)
    → (List ℕ → Option M)
    → List (List ℕ)
    → ℕ
    → Reader
    → Reader
unfolding consume_stdout
consume_chunks uuid read parse [] now r = r
consume_chunks uuid read parse (c ∷ chunks) now r =
    consume_chunks uuid read parse chunks now (consume_stdout uuid read parse c now r)

abbrev frames_of : {M : Type 0} → Pushed M → List (Frame M)
frames_of (returned fs b) = fs
frames_of (threw x b) = []

abbrev buffer_of : {M : Type 0} → Pushed M → List ℕ
buffer_of (returned fs b) = b
buffer_of (threw x b) = b

abbrev push_rest : {M : Type 0} → (List ℕ → Option M) → List (List ℕ) → List ℕ → Pushed M
push_rest parse chunks b = push_all parse b chunks

module _ {M : Type 0} (uuid : ℕ → String) (read : M → Metadata) (now : ℕ) where
  handle_frames-append :
      (fs gs : List (Frame M)) (st : CoreManager)
      → handle_frames uuid read (fs ++ gs) now st
        ≡ handle_frames uuid read gs now (handle_frames uuid read fs now st)
  unfolding handle_frames
  handle_frames-append [] gs st = refl
  handle_frames-append (f ∷ fs) gs st = handle_frames-append fs gs (handle_frame uuid read f now st)

  -- Chunks whose frames are all read are handled frame by frame.
  consume-push_all :
      (parse : List ℕ → Option M) (chunks : List (List ℕ)) (buffer rest : List ℕ)
      (fs : List (Frame M)) (st : CoreManager)
      → push_all parse buffer chunks ≡ returned fs rest
      → consume_chunks uuid read parse chunks now (reader st buffer)
        ≡ reader (handle_frames uuid read fs now st) rest
  unfolding consume_chunks consume_stdout handle_frames
  consume-push_all parse [] buffer rest fs st h =
      rw (sym (ap frames_of h), sym (ap buffer_of h)) refl
  consume-push_all parse (c ∷ chunks) buffer rest fs st h =
      let next : List ℕ → Pushed M = push_rest parse chunks in
      elim (Pushed-cases (push parse buffer c)) [
        | inl (gs, a, e) ↦ elim (Pushed-cases (push_all parse a chunks)) [
          | inl (gs', b, f) ↦
              let same = ap (continue_with gs) (sym f) ∙ (ap (and_then next) (sym e) ∙ h) in
              let frames = handle_frames-append gs gs' st in
              let later =
                consume-push_all parse chunks a b gs' (handle_frames uuid read gs now st) f in
              rw (e, sym (ap frames_of same), sym (ap buffer_of same), frames) later
          | inr (x, b, f) ↦
              let same = ap (continue_with gs) (sym f) ∙ (ap (and_then next) (sym e) ∙ h) in
              absurd (cc same)
        ]
        | inr (x, a, e) ↦ let same = ap (and_then next) (sym e) ∙ h in absurd (cc same)
      ]

-- What becomes of the manager as the core's frames arrive: each event is handled, each piece of data goes
-- to the windows with its session and all its bytes, and a stream frame of another type does nothing.
pub data Delivered {M : Type 0} (uuid : ℕ → String) (read : M → Metadata) (now : ℕ)
    : List (Frame M) → CoreManager → CoreManager → Type 0 where
  finished : (st : CoreManager) → Delivered uuid read now [] st st
  event :
      (m : M) (fs : List (Frame M)) (st t : CoreManager)
      → Delivered uuid read now fs (handle_control_event uuid (read m).event now st) t
      → Delivered uuid read now (control m ∷ fs) st t
  data_sent :
      (m : M) (bytes : List ℕ) (fs : List (Frame M)) (st t : CoreManager)
      → (read m).type ≡ "data"
      → Delivered uuid read now fs
          record st { effects = terminal_data (read m).session_id bytes ∷ st.effects }
          t
      → Delivered uuid read now (stream m bytes ∷ fs) st t
  other_stream :
      (m : M) (bytes : List ℕ) (fs : List (Frame M)) (st t : CoreManager)
      → ¬ ((read m).type ≡ "data")
      → Delivered uuid read now fs st t
      → Delivered uuid read now (stream m bytes ∷ fs) st t

handle_frames-Delivered :
    {M : Type 0} (uuid : ℕ → String) (read : M → Metadata) (now : ℕ) (fs : List (Frame M))
    (st : CoreManager)
    → Delivered uuid read now fs st (handle_frames uuid read fs now st)
unfolding handle_frames
handle_frames-Delivered uuid read now [] st = finished st
handle_frames-Delivered uuid read now (control m ∷ fs) st =
    event m fs st _ (handle_frames-Delivered uuid read now fs _)
handle_frames-Delivered uuid read now (stream m bytes ∷ fs) st =
    elim (Bool-cases ((read m).type == "data")) [
      | inl e ↦ rw e (
          data_sent m bytes fs st _ ((==_iff (read m).type "data").0 e)
            (handle_frames-Delivered uuid read now fs _))
      | inr e ↦ rw e (
          other_stream m bytes fs st _
            (λ h. let h' = (==_iff (read m).type "data").1 h in absurd (cc (e, h')))
            (handle_frames-Delivered uuid read now fs st))
    ]

-- What a core wrote as frames arrives each once and in its order, however the pipe cuts the bytes, and
-- no byte is left over: the manager handles each event, and tells the windows each piece of data, with
-- its session and its bytes. The parser is to read back what the core prints, and every length to fit in
-- 32 bits.
pub consume_chunks-Delivered :
    {M : Type 0} (uuid : ℕ → String) (read : M → Metadata) (stringify : M → List ℕ)
    (parse : List ℕ → Option M)
    → ((m : M) → parse (stringify m) ≡ some m)
    → (frames : List (Frame M)) (chunks : List (List ℕ)) (now : ℕ) (st : CoreManager)
    → encode_all stringify frames ≡ some (joined chunks)
    → (t : CoreManager) × (consume_chunks uuid read parse chunks now (reader st []) ≡ reader t [])
      × Delivered uuid read now frames st t
consume_chunks-Delivered uuid read stringify parse inverse frames chunks now st h = (
  handle_frames uuid read frames now st,
  consume-push_all uuid read now parse chunks [] [] frames st
      (push_all-encode_all stringify parse inverse frames chunks h),
  handle_frames-Delivered uuid read now frames st,
)
