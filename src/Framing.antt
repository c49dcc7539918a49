-- ===== src/Framing.antt =====
-- The frames on the pipe to the core process, apps/desktop/src/main/core-framing.ts.
-- Bytes are numbers below 256. `JSON.stringify` and `JSON.parse` of a message, with the UTF-8
-- encoding, are the parameters `stringify` and `parse`; a parse that throws is `none`.
pub mod Codec
pub mod Parsing
pub mod Pushes
pub mod Chunks
mod Tests
use dolssh.Prelude.{
  ℕ, zero, suc, ◌+◌, ◌-◌, ◌*◌, ◌/◌, ◌%◌, ◌^◌, Bool, true, false, Option, none, some, List, [], ◌∷◌,
  ◌++◌, ltb, ◌=ℕ=◌, if◌then◌else◌, length, take, drop, get_or,
}

abbrev pub frame_header_size : ℕ
frame_header_size = 9

abbrev pub control_kind : ℕ
control_kind = 1

abbrev pub stream_kind : ℕ
stream_kind = 2

-- `writeUInt32BE`, which throws a RangeError beyond 32 bits.
unfoldable pub write_uint32_be : ℕ → Option (List ℕ)
write_uint32_be n =
    if ltb n 4294967296
    then some (n / 16777216 ∷ n / 65536 % 256 ∷ n / 256 % 256 ∷ n % 256 ∷ [])
    else none

infixl 5 ◌>>=◌
abbrev pub ◌>>=◌ {ℓ κ} : {A : Type ℓ} {B : Type κ} → Option A → (A → Option B) → Option B
none >>= f = none
some a >>= f = f a

unfoldable pub encode_header : (kind metadata_length payload_length : ℕ) → Option (List ℕ)
unfolding write_uint32_be
encode_header kind metadata_length payload_length = do
  m ← write_uint32_be metadata_length
  p ← write_uint32_be payload_length
  some (kind ∷ (m ++ p))

-- `readUInt32BE` at an offset.
unfoldable pub read_uint32_be : List ℕ → ℕ → ℕ
read_uint32_be buffer i =
    get_or buffer i 0 * 16777216
    + get_or buffer (suc i) 0 * 65536
    + get_or buffer (suc (suc i)) 0 * 256
    + get_or buffer (suc (suc (suc i))) 0

pub data Frame (M : Type 0) : Type 0 where
  control : M → Frame M
  stream : M → List ℕ → Frame M

pub data FrameError : Type 0 where
  unknown_kind : ℕ → FrameError
  bad_json : FrameError

-- One round of the parser's loop: it breaks off, throws, or takes a frame from the buffer.
pub data Round (M : Type 0) : Type 0 where
  incomplete : Round M
  failed : FrameError → Round M
  took : Frame M → List ℕ → Round M

pub data Pushed (M : Type 0) : Type 0 where
  returned : List (Frame M) → List ℕ → Pushed M
  threw : FrameError → List ℕ → Pushed M

module _ {M : Type 0} (stringify : M → List ℕ) where
  unfoldable pub encode_control_frame : M → Option (List ℕ)
  unfolding encode_header
  encode_control_frame message = do
    let metadata = stringify message
    header ← encode_header control_kind (length metadata) 0
    some (header ++ metadata)

  unfoldable pub encode_stream_frame : M → List ℕ → Option (List ℕ)
  unfolding encode_header
  encode_stream_frame message payload = do
    let metadata = stringify message
    header ← encode_header stream_kind (length metadata) (length payload)
    some (header ++ (metadata ++ payload))

  unfoldable pub encode_frame : Frame M → Option (List ℕ)
  unfolding encode_control_frame encode_stream_frame
  encode_frame (control message) = encode_control_frame message
  encode_frame (stream message payload) = encode_stream_frame message payload

module _ {M : Type 0} (parse : List ℕ → Option M) where
  -- The body is parsed only for the two kinds.
  abbrev pub build_frame : ℕ → Option M → List ℕ → List ℕ → Round M
  build_frame kind none payload rest =
      if kind =ℕ= control_kind
      then failed bad_json
      else (if kind =ℕ= stream_kind then failed bad_json else failed (unknown_kind kind))
  build_frame kind (some metadata) payload rest =
      if kind =ℕ= control_kind
      then took (control metadata) rest
      else (if kind =ℕ= stream_kind
          then took (stream metadata payload) rest
          else failed (unknown_kind kind))

  unfoldable pub take_frame : List ℕ → Round M
  unfolding read_uint32_be
  take_frame buffer =
      if ltb (length buffer) frame_header_size
      then incomplete
      else let kind = get_or buffer 0 0 in
        let metadata_length = read_uint32_be buffer 1 in
        let payload_length = read_uint32_be buffer 5 in
        let metadata_end = frame_header_size + metadata_length in
        let total_length = frame_header_size + metadata_length + payload_length in
        (if ltb (length buffer) total_length
          then incomplete
          else build_frame kind (parse (take metadata_length (drop frame_header_size buffer)))
              (take payload_length (drop metadata_end buffer)) (drop total_length buffer))

  -- The loop on fuel. A throw leaves the buffer as it is, and the frames of the call are lost.
  unfoldable pub parse_loop : ℕ → List ℕ → List (Frame M) → Pushed M
  parse_loop zero buffer frames = returned frames buffer
  parse_loop (suc fuel) buffer frames = elim (take_frame buffer) [
    | incomplete ↦ returned frames buffer
    | failed e ↦ threw e buffer
    | took frame rest ↦ parse_loop fuel rest (frames ++ frame ∷ [])
  ]

  -- The parser's state is its buffer. A frame has a header at least, so the buffer's length is
  -- enough fuel.
  unfoldable pub push : List ℕ → List ℕ → Pushed M
  unfolding parse_loop
  push buffer chunk = let joined = buffer ++ chunk in parse_loop (length joined) joined []
