-- ===== src/Framing/Codec.antt =====
-- Reading back a frame that was written.
use dolssh.Prelude.{
  drop-add, Option-cases, ℕ, ◌+◌, ◌/◌, ◌%◌, ◌≤◌, ◌<◌, ◌≡◌, refl, ◌∙◌, Option, some, List, [], ◌∷◌,
  ◌++◌, length, take, drop, get_or, arith, inl, inr, length-append, take-append_self,
  drop-append_self,
}
use mathlib.Core.List.{append-nil, append_assoc}
use dolssh.Framing.{
  Frame, control, stream, took, encode_header, read_uint32_be, encode_frame, take_frame,
  build_frame,
}

-- The nine bytes of a header.
abbrev pub header_bytes : (kind m p : ℕ) → List ℕ
header_bytes kind m p =
    kind
    ∷ m / 16777216
    ∷ m / 65536 % 256
    ∷ m / 256 % 256
    ∷ m % 256
    ∷ p / 16777216
    ∷ p / 65536 % 256
    ∷ p / 256 % 256
    ∷ p % 256
    ∷ []

encode_header-bytes :
    (kind m p : ℕ) (h : List ℕ)
    → encode_header kind m p ≡ some h
    → (h ≡ header_bytes kind m p) × (m < 4294967296) × (p < 4294967296)
unfolding encode_header
encode_header-bytes kind m p h e = ground arith

read-metadata_length :
    (kind m p : ℕ) (rest : List ℕ)
    → m < 4294967296
    → read_uint32_be (header_bytes kind m p ++ rest) 1 ≡ m
unfolding read_uint32_be
read-metadata_length kind m p rest h = omega arith

read-payload_length :
    (kind m p : ℕ) (rest : List ℕ)
    → p < 4294967296
    → read_uint32_be (header_bytes kind m p ++ rest) 5 ≡ p
unfolding read_uint32_be
read-payload_length kind m p rest h = omega arith

-- A round on a buffer that holds a whole frame, by the numbers of its header.
pub take_frame-whole :
    {M : Type 0} (parse : List ℕ → Option M) (buffer : List ℕ) (kind m p : ℕ)
    → get_or buffer 0 0 ≡ kind
    → read_uint32_be buffer 1 ≡ m
    → read_uint32_be buffer 5 ≡ p
    → 9 + m + p ≤ length buffer
    → take_frame parse buffer
      ≡ build_frame parse kind
          (parse (take m (drop 9 buffer)))
          (take p (drop m (drop 9 buffer)))
          (drop p (drop m (drop 9 buffer)))
unfolding take_frame
take_frame-whole parse buffer kind m p e f g h =
    rw (e, f, g) (rw (← drop-add 9 m buffer, ← drop-add (9 + m) p buffer) (ground arith))

module _ {M : Type 0} (parse : List ℕ → Option M) (kind : ℕ) (body payload rest : List ℕ)
    (m_fits : length body < 4294967296) (p_fits : length payload < 4294967296) where
  -- The parser reads the header of a frame and hands the body and the payload on.
  take_frame-header :
      take_frame parse
        (header_bytes kind (length body) (length payload) ++ (body ++ (payload ++ rest)))
      ≡ build_frame parse kind (parse body) payload rest
  take_frame-header =
      let m = length body in
      let p = length payload in
      let tail = body ++ (payload ++ rest) in
      take_frame-whole parse (header_bytes kind m p ++ tail) kind m p refl
        (read-metadata_length kind m p tail m_fits) (read-payload_length kind m p tail p_fits)
        (omega (arith, length-append body (payload ++ rest), length-append payload rest))
      ∙ rw (
        take-append_self body (payload ++ rest),
        drop-append_self body (payload ++ rest),
        take-append_self payload rest,
        drop-append_self payload rest,
      )

-- The bytes of a frame, where its lengths fit in 32 bits.
abbrev body_of : {M : Type 0} → (M → List ℕ) → Frame M → List ℕ
body_of stringify (control message) = stringify message
body_of stringify (stream message payload) = stringify message

abbrev payload_of : {M : Type 0} → Frame M → List ℕ
payload_of (control message) = []
payload_of (stream message payload) = payload

abbrev kind_of : {M : Type 0} → Frame M → ℕ
kind_of (control message) = 1
kind_of (stream message payload) = 2

module _ {M : Type 0} (stringify : M → List ℕ) where
  encode_frame-bytes :
      (frame : Frame M) (bytes : List ℕ)
      → encode_frame stringify frame ≡ some bytes
      → (bytes
          ≡ header_bytes
              (kind_of frame)
              (length (body_of stringify frame))
              (length (payload_of frame))
            ++ (body_of stringify frame ++ payload_of frame))
        × (length (body_of stringify frame) < 4294967296)
        × (length (payload_of frame) < 4294967296)
  unfolding encode_frame
  encode_frame-bytes (control message) bytes e =
      let body = stringify message in
      elim (Option-cases (encode_header 1 (length body) 0)) [
        | inl f ↦ ground arith
        | inr (h, f) ↦ ground (arith, encode_header-bytes 1 (length body) 0 h f, append-nil body)
      ]
  encode_frame-bytes (stream message payload) bytes e =
      let body = stringify message in
      elim (Option-cases (encode_header 2 (length body) (length payload))) [
        | inl f ↦ ground arith
        | inr (h, f) ↦ ground (arith, encode_header-bytes 2 (length body) (length payload) h f)
      ]

  module _ (parse : List ℕ → Option M) (inverse : (m : M) → parse (stringify m) ≡ some m) where
    build_frame-inverse :
        (frame : Frame M) (rest : List ℕ)
        → build_frame parse
            (kind_of frame)
            (parse (body_of stringify frame))
            (payload_of frame)
            rest
          ≡ took frame rest
    build_frame-inverse (control message) rest = rw (inverse message)
    build_frame-inverse (stream message payload) rest = rw (inverse message)

    -- A frame that can be written is the first one read from its bytes, whatever follows them.
    pub take-encode :
        (frame : Frame M) (bytes rest : List ℕ)
        → encode_frame stringify frame ≡ some bytes
        → take_frame parse (bytes ++ rest) ≡ took frame rest
    take-encode frame bytes rest e =
        let (same, m_fits, p_fits) = encode_frame-bytes frame bytes e in
        let body = body_of stringify frame in
        let payload = payload_of frame in
        rw same (
          rw (append_assoc body payload rest) (
            take_frame-header parse (kind_of frame) body payload rest m_fits p_fits
            ∙ build_frame-inverse frame rest))
