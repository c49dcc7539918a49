-- ===== src/Framing/Pushes.antt =====
-- The parser's calls one after the other: what a call leaves is what the next one goes on from.
use dolssh.Prelude.{
  ℕ, zero, suc, ◌≤◌, ◌≡◌, ◌≢◌, refl, ap, sym, ◌∙◌, Option, List, [], ◌∷◌, ◌++◌, length, arith, ◌⊎◌,
  inl, inr,
}
use mathlib.Core.List.{append_assoc, append-nil}
use dolssh.Framing.{
  Frame, FrameError, Round, incomplete, failed, took, Pushed, returned, threw, take_frame,
  parse_loop, push,
}
use dolssh.Framing.Parsing.{
  then_more, empty_round, take_frame-more, took-shorter, Round-cases, loop-incomplete, loop-failed,
  loop-took, parse_loop-fuel, parse_loop-settled,
}

-- The frames of an earlier call, and the result of the next one.
abbrev pub continue_with : {M : Type 0} → List (Frame M) → Pushed M → Pushed M
continue_with fs (returned gs b) = returned (fs ++ gs) b
continue_with fs (threw e b) = threw e b

pub Pushed-cases :
    {M : Type 0} (p : Pushed M)
    → ((fs : List (Frame M)) × (b : List ℕ) × (p ≡ returned fs b))
      ⊎ ((e : FrameError) × (b : List ℕ) × (p ≡ threw e b))
Pushed-cases (returned fs b) = inl (fs, b, refl)
Pushed-cases (threw e b) = inr (e, b, refl)

module _ {M : Type 0} where
  took_decided :
      (r : Round M) (frame : Frame M) (rest : List ℕ) → r ≡ took frame rest → r ≢ incomplete
  took_decided r frame rest e i = cc

  failed_decided : (r : Round M) (x : FrameError) → r ≡ failed x → r ≢ incomplete
  failed_decided r x e i = cc

module _ {M : Type 0} (parse : List ℕ → Option M) where
  -- The loop only adds to the frames it has.
  loop-frames :
      (f : ℕ) (buffer : List ℕ) (fs gs : List (Frame M))
      → parse_loop parse f buffer (fs ++ gs) ≡ continue_with fs (parse_loop parse f buffer gs)
  unfolding parse_loop
  loop-frames zero buffer fs gs = refl
  loop-frames (suc f) buffer fs gs = elim (Round-cases (take_frame parse buffer)) [
    | inl e ↦ rw (e, parse_loop) refl
    | inr (inl (x, e)) ↦ rw (e, parse_loop) refl
    | inr (inr (frame, rest, e)) ↦
        rw (e, parse_loop, append_assoc fs gs (frame ∷ []))
          (loop-frames f rest fs (gs ++ frame ∷ []))
  ]

  abbrev pub run : List ℕ → List (Frame M) → Pushed M
  run buffer frames = parse_loop parse (length buffer) buffer frames

  run-failed :
      (buffer : List ℕ) (frames : List (Frame M)) (x : FrameError)
      → take_frame parse buffer ≡ failed x
      → run buffer frames ≡ threw x buffer
  run-failed buffer frames x e =
      parse_loop-fuel parse (length buffer) (suc (length buffer)) buffer frames (omega arith)
        (omega arith)
      ∙ loop-failed parse (length buffer) buffer frames x e

  pub run-took :
      (buffer : List ℕ) (frames : List (Frame M)) (frame : Frame M) (rest : List ℕ)
      → take_frame parse buffer ≡ took frame rest
      → run buffer frames ≡ run rest (frames ++ frame ∷ [])
  run-took buffer frames frame rest e =
      let shorter = took-shorter parse buffer frame rest e in
      parse_loop-fuel parse (length buffer) (suc (length buffer)) buffer frames (omega arith)
        (omega arith)
      ∙ loop-took parse (length buffer) buffer frames frame rest e
      ∙ parse_loop-fuel parse (length buffer) (length rest) rest (frames ++ frame ∷ [])
          (omega arith) (omega arith)

  took-more :
      (buffer more : List ℕ) (frame : Frame M) (rest : List ℕ)
      → take_frame parse buffer ≡ took frame rest
      → take_frame parse (buffer ++ more) ≡ took frame (rest ++ more)
  took-more buffer more frame rest e =
      take_frame-more parse buffer more (took_decided _ frame rest e) ∙ ap (then_more more) e

  failed-more :
      (buffer more : List ℕ) (x : FrameError)
      → take_frame parse buffer ≡ failed x
      → take_frame parse (buffer ++ more) ≡ failed x
  failed-more buffer more x e =
      take_frame-more parse buffer more (failed_decided _ x e) ∙ ap (then_more more) e

  -- Bytes that come later are read after the frames before them, and after a throw they are
  -- not read.
  abbrev resume : List ℕ → Pushed M → Pushed M
  resume more (returned fs b) = run (b ++ more) fs
  resume more (threw x b) = threw x (b ++ more)

  run-more :
      (f : ℕ) (buffer more : List ℕ) (frames : List (Frame M))
      → length buffer ≤ f
      → run (buffer ++ more) frames ≡ resume more (run buffer frames)
  run-more zero [] more frames k =
      rw (loop-incomplete parse zero [] frames (empty_round parse)) refl
  run-more zero (x ∷ buffer) more frames k = absurd (omega arith)
  run-more (suc f) buffer more frames k = elim (Round-cases (take_frame parse buffer)) [
    | inl e ↦ rw (loop-incomplete parse (length buffer) buffer frames e) refl
    | inr (inl (x, e)) ↦
        run-failed (buffer ++ more) frames x (failed-more buffer more x e)
        ∙ sym (ap (resume more) (run-failed buffer frames x e))
    | inr (inr (frame, rest, e)) ↦
        let shorter = took-shorter parse buffer frame rest e in
        run-took (buffer ++ more) frames frame (rest ++ more) (took-more buffer more frame rest e)
        ∙ run-more f rest more (frames ++ frame ∷ []) (omega arith)
        ∙ sym (ap (resume more) (run-took buffer frames frame rest e))
  ]

  pub push-run : (buffer chunk : List ℕ) → push parse buffer chunk ≡ run (buffer ++ chunk) []
  unfolding push
  push-run buffer chunk = refl

  -- What the loop threw on is the frame at the head of what it leaves.
  threw-failed :
      (f : ℕ) (buffer : List ℕ) (frames : List (Frame M)) (b : List ℕ) (x : FrameError)
      → parse_loop parse f buffer frames ≡ threw x b
      → take_frame parse b ≡ failed x
  unfolding parse_loop
  threw-failed zero buffer frames b x h = cc
  threw-failed (suc f) buffer frames b x h = elim (Round-cases (take_frame parse buffer)) [
    | inl e ↦ cc (loop-incomplete parse (suc f) buffer frames e)
    | inr (inl (y, e)) ↦ let q = sym (loop-failed parse f buffer frames y e) ∙ h in cc
    | inr (inr (frame, rest, e)) ↦
        threw-failed f rest (frames ++ frame ∷ []) b x
          (sym (loop-took parse f buffer frames frame rest e) ∙ h)
  ]

  -- After a throw the bytes stay in the buffer, and every later call throws the same error, which
  -- also loses the chunk it was given.
  pub push-stuck :
      (buffer chunk later b : List ℕ) (x : FrameError)
      → push parse buffer chunk ≡ threw x b
      → push parse b later ≡ threw x (b ++ later)
  push-stuck buffer chunk later b x h =
      let e =
        threw-failed (length (buffer ++ chunk)) (buffer ++ chunk) [] b x
          (sym (push-run buffer chunk) ∙ h) in
      push-run b later ∙ run-failed (b ++ later) [] x (failed-more b later x e)

  -- A call that returns leaves no whole frame in the buffer.
  pub push-settled :
      (buffer chunk : List ℕ) (fs : List (Frame M)) (b : List ℕ)
      → push parse buffer chunk ≡ returned fs b
      → take_frame parse b ≡ incomplete
  push-settled buffer chunk fs b h =
      parse_loop-settled parse (length (buffer ++ chunk)) (buffer ++ chunk) [] fs b (omega arith)
        (sym (push-run buffer chunk) ∙ h)

  -- Two chunks one after the other are read as the two together.
  pub push-append :
      (buffer c d : List ℕ) (fs : List (Frame M)) (b : List ℕ)
      → push parse buffer c ≡ returned fs b
      → push parse buffer (c ++ d) ≡ continue_with fs (push parse b d)
  push-append buffer c d fs b h =
      rw (push-run buffer (c ++ d), ← append_assoc buffer c d)
        (run-more (length (buffer ++ c)) (buffer ++ c) d [] (omega arith)
          ∙ ap (resume d) (sym (push-run buffer c) ∙ h)
          ∙ ap (run (b ++ d)) (sym (append-nil fs))
          ∙ loop-frames (length (b ++ d)) (b ++ d) fs []
          ∙ ap (continue_with fs) (sym (push-run b d)))

  -- A call that throws throws as well when more bytes follow in its chunk.
  pub push-threw :
      (buffer c d b : List ℕ) (x : FrameError)
      → push parse buffer c ≡ threw x b
      → push parse buffer (c ++ d) ≡ threw x (b ++ d)
  push-threw buffer c d b x h =
      rw (push-run buffer (c ++ d), ← append_assoc buffer c d)
        (run-more (length (buffer ++ c)) (buffer ++ c) d [] (omega arith)
          ∙ ap (resume d) (sym (push-run buffer c) ∙ h))
