-- ===== src/Framing/Chunks.antt =====
-- What the parser makes of a sequence of chunks, however the pipe cuts the bytes.
use dolssh.Prelude.{
  ℕ, zero, ◌≡◌, refl, ap, sym, ◌∙◌, Option, some, List, [], ◌∷◌, ◌++◌, length, arith, inl, inr,
  Option-cases,
}
use mathlib.Core.List.{append_assoc, append-nil}
use dolssh.Framing.{
  ◌>>=◌, Frame, incomplete, Pushed, returned, threw, take_frame, push, encode_frame,
}
use dolssh.Framing.Codec.{take-encode}
use dolssh.Framing.Parsing.{empty_round, loop-incomplete}
use dolssh.Framing.Pushes.{
  continue_with, Pushed-cases, run, run-took, push-run, push-settled, push-threw, push-append,
}

abbrev pub and_then : {M : Type 0} → (List ℕ → Pushed M) → Pushed M → Pushed M
and_then next (returned fs b) = continue_with fs (next b)
and_then next (threw x b) = threw x b

-- The chunks of a pipe, one call each. Where a call throws, what the calls before it returned is left
-- out, so this describes the runs that return.
abbrev pub push_all : {M : Type 0} (parse : List ℕ → Option M) → List ℕ → List (List ℕ) → Pushed M
push_all parse buffer [] = returned [] buffer
push_all parse buffer (c ∷ chunks) = and_then (λ b. push_all parse b chunks) (push parse buffer c)

abbrev pub joined : List (List ℕ) → List ℕ
joined [] = []
joined (c ∷ chunks) = c ++ joined chunks

-- The result without the bytes that a throw leaves.
abbrev outcome : {M : Type 0} → Pushed M → Pushed M
outcome (returned fs b) = returned fs b
outcome (threw x b) = threw x []

outcome-continue :
    {M : Type 0} (fs : List (Frame M)) (p : Pushed M)
    → outcome (continue_with fs p) ≡ continue_with fs (outcome p)
outcome-continue fs (returned gs b) = refl
outcome-continue fs (threw x b) = refl

outcome-returned :
    {M : Type 0} (p : Pushed M) (fs : List (Frame M)) (b : List ℕ)
    → outcome p ≡ returned fs b
    → p ≡ returned fs b
outcome-returned (returned gs a) fs b h = h
outcome-returned (threw x a) fs b h = absurd (cc h)

module _ {M : Type 0} (parse : List ℕ → Option M) where
  push-nil :
      (buffer : List ℕ)
      → take_frame parse buffer ≡ incomplete
      → push parse buffer [] ≡ returned [] buffer
  push-nil buffer i =
      push-run parse buffer []
      ∙ rw (append-nil buffer) (loop-incomplete parse (length buffer) buffer [] i)

  -- For a buffer with no whole frame: where one returns, so does the other, with the same frames and
  -- remaining bytes, and where one throws, the other throws the same error.
  push_all-joined :
      (chunks : List (List ℕ)) (buffer : List ℕ)
      → take_frame parse buffer ≡ incomplete
      → outcome (push_all parse buffer chunks) ≡ outcome (push parse buffer (joined chunks))
  push_all-joined [] buffer i = sym (ap outcome (push-nil buffer i))
  push_all-joined (c ∷ chunks) buffer i = elim (Pushed-cases (push parse buffer c)) [
    | inl (gs, a, e) ↦
        rw (e, push-append parse buffer c (joined chunks) gs a e)
          (outcome-continue gs (push_all parse a chunks)
            ∙ ap (continue_with gs) (push_all-joined chunks a (push-settled parse buffer c gs a e))
            ∙ sym (outcome-continue gs (push parse a (joined chunks))))
    | inr (x, a, e) ↦ rw (e, push-threw parse buffer c (joined chunks) a x e) refl
  ]

-- The frames written one after the other.
abbrev pub encode_all : {M : Type 0} (stringify : M → List ℕ) → List (Frame M) → Option (List ℕ)
encode_all stringify [] = some []
encode_all stringify (frame ∷ frames) = do
  bytes ← encode_frame stringify frame
  rest ← encode_all stringify frames
  some (bytes ++ rest)

module _ {M : Type 0} (stringify : M → List ℕ) (parse : List ℕ → Option M)
    (inverse : (m : M) → parse (stringify m) ≡ some m) where
  run-encode_all :
      (frames : List (Frame M)) (bytes : List ℕ) (fs : List (Frame M))
      → encode_all stringify frames ≡ some bytes
      → run parse bytes fs ≡ returned (fs ++ frames) []
  run-encode_all [] [] fs h =
      loop-incomplete parse zero [] fs (empty_round parse) ∙ rw (append-nil fs) refl
  run-encode_all [] (x ∷ bytes) fs h = absurd (cc h)
  run-encode_all (frame ∷ frames) bytes fs h = elim (Option-cases (encode_frame stringify frame)) [
    | inl e ↦ ground arith
    | inr (b, e) ↦ elim (Option-cases (encode_all stringify frames)) [
      | inl g ↦ ground arith
      | inr (rest, g) ↦
          let same : bytes ≡ b ++ rest = ground arith in
          rw same (
            run-took parse (b ++ rest) fs frame rest
              (take-encode stringify parse inverse frame b rest e)
            ∙ run-encode_all frames rest (fs ++ frame ∷ []) g
            ∙ ap (λ xs. returned xs []) (append_assoc fs (frame ∷ []) frames))
    ]
  ]

  -- The frames a peer wrote are the frames that are read, in their order and with nothing left
  -- over, however the pipe cut their bytes, where the parser reads back what was printed and
  -- every length fits in 32 bits.
  pub push_all-encode_all :
      (frames : List (Frame M)) (chunks : List (List ℕ))
      → encode_all stringify frames ≡ some (joined chunks)
      → push_all parse [] chunks ≡ returned frames []
  push_all-encode_all frames chunks h = outcome-returned (push_all parse [] chunks) frames [] (
      push_all-joined parse chunks [] (empty_round parse)
      ∙ ap outcome (push-run parse [] (joined chunks))
      ∙ ap outcome (run-encode_all frames (joined chunks) [] h))
