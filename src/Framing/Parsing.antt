-- ===== src/Framing/Parsing.antt =====
-- The parser's loop: it stops by its test, a round that is decided stays so when more bytes come,
-- and a throw is final.
use dolssh.Prelude.{
  ℕ, zero, suc, ◌+◌, ◌≤◌, ◌<◌, ◌≡◌, ◌≢◌, refl, ap, sym, ◌∙◌, Option, none, some, List, [], ◌∷◌,
  ◌++◌, ltb, length, take, drop, get_or, arith, Bool-cases, ◌⊎◌, inl, inr, length-append,
  length-drop, get_or-append, take-append_le, drop-append_le,
}
use dolssh.Framing.{
  Frame, FrameError, Round, incomplete, failed, took, returned, threw, read_uint32_be, take_frame,
  build_frame, parse_loop,
}
use dolssh.Framing.Codec.{take_frame-whole}

-- The buffer holds the header and all that it announces.
abbrev IsWhole : List ℕ → Type 0
IsWhole buffer = 9 + read_uint32_be buffer 1 + read_uint32_be buffer 5 ≤ length buffer

-- The parts of a whole frame.
abbrev body_bytes : List ℕ → List ℕ
body_bytes buffer = take (read_uint32_be buffer 1) (drop 9 buffer)

abbrev payload_bytes : List ℕ → List ℕ
payload_bytes buffer =
    take (read_uint32_be buffer 5) (drop (read_uint32_be buffer 1) (drop 9 buffer))

abbrev rest_bytes : List ℕ → List ℕ
rest_bytes buffer = drop (read_uint32_be buffer 5) (drop (read_uint32_be buffer 1) (drop 9 buffer))

-- A round's result when `more` follows the bytes that it looked at.
abbrev pub then_more : {M : Type 0} → List ℕ → Round M → Round M
then_more more incomplete = incomplete
then_more more (failed e) = failed e
then_more more (took frame rest) = took frame (rest ++ more)

module _ {M : Type 0} (parse : List ℕ → Option M) where
  whole-round :
      (buffer : List ℕ)
      → IsWhole buffer
      → take_frame parse buffer
        ≡ build_frame parse
            (get_or buffer 0 0)
            (parse (body_bytes buffer))
            (payload_bytes buffer)
            (rest_bytes buffer)
  whole-round buffer h = take_frame-whole parse buffer _ _ _ refl refl refl h

  pub round_cases : (buffer : List ℕ) → (take_frame parse buffer ≡ incomplete) ⊎ IsWhole buffer
  unfolding take_frame
  round_cases buffer =
      let m = read_uint32_be buffer 1 in
      let p = read_uint32_be buffer 5 in
      elim (Bool-cases (ltb (length buffer) 9)) [
        | inl short ↦ inl (rw short refl)
        | inr long ↦ elim (Bool-cases (ltb (length buffer) (9 + m + p))) [
          | inl short ↦ inl (rw (long, short) refl)
          | inr whole ↦ inr (ground arith)
        ]
      ]

  build_frame-rest :
      (kind : ℕ) (o : Option M) (payload rest r : List ℕ) (frame : Frame M)
      → build_frame parse kind o payload rest ≡ took frame r
      → r ≡ rest
  build_frame-rest kind none payload rest r frame h = ground arith
  build_frame-rest kind (some m) payload rest r frame h = ground arith

  build_frame-more :
      (kind : ℕ) (o : Option M) (payload rest more : List ℕ)
      → build_frame parse kind o payload (rest ++ more)
        ≡ then_more more (build_frame parse kind o payload rest)
  build_frame-more kind none payload rest more = ground arith
  build_frame-more kind (some m) payload rest more = ground arith

  -- A frame takes its header at least from the buffer.
  pub took-shorter :
      (buffer : List ℕ) (frame : Frame M) (rest : List ℕ)
      → take_frame parse buffer ≡ took frame rest
      → length rest + 9 ≤ length buffer
  took-shorter buffer frame rest h = elim (round_cases buffer) [
    | inl e ↦ ground arith
    | inr whole ↦
        let m = read_uint32_be buffer 1 in
        let p = read_uint32_be buffer 5 in
        let same =
          build_frame-rest (get_or buffer 0 0) (parse (body_bytes buffer)) (payload_bytes buffer)
            (rest_bytes buffer) rest frame (sym (whole-round buffer whole) ∙ h) in
        omega (
          arith,
          ap length same,
          length-drop p (drop m (drop 9 buffer)),
          length-drop m (drop 9 buffer),
          length-drop 9 buffer,
        )
  ]

read-append :
    (xs ys : List ℕ) (i : ℕ)
    → suc (suc (suc i)) < length xs
    → read_uint32_be (xs ++ ys) i ≡ read_uint32_be xs i
unfolding read_uint32_be
read-append xs ys i h = rw (
  get_or-append xs ys i 0 (omega arith),
  get_or-append xs ys (suc i) 0 (omega arith),
  get_or-append xs ys (suc (suc i)) 0 (omega arith),
  get_or-append xs ys (suc (suc (suc i))) 0 h,
)

module _ {M : Type 0} (parse : List ℕ → Option M) where
  pub empty_round : take_frame parse [] ≡ incomplete
  unfolding take_frame
  empty_round = refl

  -- More bytes do not change a round that was decided: they only follow what it left.
  pub take_frame-more :
      (buffer more : List ℕ)
      → take_frame parse buffer ≢ incomplete
      → take_frame parse (buffer ++ more) ≡ then_more more (take_frame parse buffer)
  take_frame-more buffer more decided = elim (round_cases parse buffer) [
    | inl e ↦ absurd (decided e)
    | inr whole ↦
        let m = read_uint32_be buffer 1 in
        let p = read_uint32_be buffer 5 in
        let e₉ = drop-append_le 9 buffer more (omega arith) in
        let eₘ = drop-append_le m (drop 9 buffer) more (omega (arith, length-drop 9 buffer)) in
        let long : p ≤ length (drop m (drop 9 buffer)) =
          omega (arith, length-drop 9 buffer, length-drop m (drop 9 buffer)) in
        let eₚ = drop-append_le p (drop m (drop 9 buffer)) more long in
        take_frame-whole parse (buffer ++ more) _ m p (get_or-append buffer more 0 0 (omega arith))
          (read-append buffer more 1 (omega arith)) (read-append buffer more 5 (omega arith))
          (omega (arith, length-append buffer more))
        ∙ rw
            (
              e₉,
              eₘ,
              eₚ,
              take-append_le m (drop 9 buffer) more (omega (arith, length-drop 9 buffer)),
              take-append_le p (drop m (drop 9 buffer)) more long,
            )
            (build_frame-more parse (get_or buffer 0 0) (parse (body_bytes buffer))
                (payload_bytes buffer) (rest_bytes buffer) more
              ∙ ap (then_more more) (sym (whole-round parse buffer whole)))
  ]

pub Round-cases :
    {M : Type 0} (r : Round M)
    → (r ≡ incomplete)
      ⊎ ((e : FrameError) × (r ≡ failed e))
      ⊎ ((frame : Frame M) × (rest : List ℕ) × (r ≡ took frame rest))
Round-cases incomplete = inl refl
Round-cases (failed e) = inr (inl (e, refl))
Round-cases (took frame rest) = inr (inr (frame, rest, refl))

module _ {M : Type 0} (parse : List ℕ → Option M) where
  -- The loop by the result of its round.
  pub loop-incomplete :
      (f : ℕ) (buffer : List ℕ) (frames : List (Frame M))
      → take_frame parse buffer ≡ incomplete
      → parse_loop parse f buffer frames ≡ returned frames buffer
  unfolding parse_loop
  loop-incomplete zero buffer frames e = refl
  loop-incomplete (suc f) buffer frames e = rw (e, parse_loop)

  pub loop-failed :
      (f : ℕ) (buffer : List ℕ) (frames : List (Frame M)) (x : FrameError)
      → take_frame parse buffer ≡ failed x
      → parse_loop parse (suc f) buffer frames ≡ threw x buffer
  unfolding parse_loop
  loop-failed f buffer frames x e = rw (e, parse_loop)

  pub loop-took :
      (f : ℕ) (buffer : List ℕ) (frames : List (Frame M)) (frame : Frame M) (rest : List ℕ)
      → take_frame parse buffer ≡ took frame rest
      → parse_loop parse (suc f) buffer frames ≡ parse_loop parse f rest (frames ++ frame ∷ [])
  unfolding parse_loop
  loop-took f buffer frames frame rest e = rw (e, parse_loop)

  -- The buffer's length is enough fuel, and more makes no difference.
  pub parse_loop-fuel :
      (f g : ℕ) (buffer : List ℕ) (frames : List (Frame M))
      → length buffer ≤ f
      → length buffer ≤ g
      → parse_loop parse f buffer frames ≡ parse_loop parse g buffer frames
  parse_loop-fuel zero g [] frames h k =
      loop-incomplete zero [] frames (empty_round parse)
      ∙ sym (loop-incomplete g [] frames (empty_round parse))
  parse_loop-fuel zero g (x ∷ buffer) frames h k = absurd (omega arith)
  parse_loop-fuel (suc f) zero [] frames h k =
      loop-incomplete (suc f) [] frames (empty_round parse)
      ∙ sym (loop-incomplete zero [] frames (empty_round parse))
  parse_loop-fuel (suc f) zero (x ∷ buffer) frames h k = absurd (omega arith)
  parse_loop-fuel (suc f) (suc g) buffer frames h k = elim (Round-cases (take_frame parse buffer)) [
    | inl e ↦
        loop-incomplete (suc f) buffer frames e ∙ sym (loop-incomplete (suc g) buffer frames e)
    | inr (inl (x, e)) ↦ loop-failed f buffer frames x e ∙ sym (loop-failed g buffer frames x e)
    | inr (inr (frame, rest, e)) ↦
        let shorter = took-shorter parse buffer frame rest e in
        loop-took f buffer frames frame rest e
        ∙ parse_loop-fuel f g rest (frames ++ frame ∷ []) (omega arith) (omega arith)
        ∙ sym (loop-took g buffer frames frame rest e)
  ]

  -- The loop has returned: what is left in the buffer is no whole frame.
  pub parse_loop-settled :
      (f : ℕ) (buffer : List ℕ) (frames fs : List (Frame M)) (b : List ℕ)
      → length buffer ≤ f
      → parse_loop parse f buffer frames ≡ returned fs b
      → take_frame parse b ≡ incomplete
  parse_loop-settled zero [] frames fs b h r =
      let e = sym (loop-incomplete zero [] frames (empty_round parse)) ∙ r in
      let same : b ≡ [] = cc in rw same (empty_round parse)
  parse_loop-settled zero (x ∷ buffer) frames fs b h r = absurd (omega arith)
  parse_loop-settled (suc f) buffer frames fs b h r = elim (Round-cases (take_frame parse buffer)) [
    | inl e ↦
        let q = sym (loop-incomplete (suc f) buffer frames e) ∙ r in
        let same : b ≡ buffer = cc in rw same e
    | inr (inl (x, e)) ↦ cc (loop-failed f buffer frames x e)
    | inr (inr (frame, rest, e)) ↦
        let shorter = took-shorter parse buffer frame rest e in
        parse_loop-settled f rest (frames ++ frame ∷ []) fs b (omega arith)
          (sym (loop-took f buffer frames frame rest e) ∙ r)
  ]
