-- ===== src/Framing/Tests.antt =====
-- The parser on small frames; a message is a number here, printed as one byte.
use dolssh.Prelude.{ℕ, ◌≡◌, refl, Option, none, some, List, [], ◌∷◌, ◌++◌}
use dolssh.Framing.{
  Frame, control, stream, returned, threw, unknown_kind, take_frame, encode_frame, push,
}
use dolssh.Framing.Pushes.{push-stuck}
use dolssh.Framing.Chunks.{push_all, push_all-encode_all, encode_all, joined}

abbrev print_number : ℕ → List ℕ
print_number n = n ∷ []

abbrev read_number : List ℕ → Option ℕ
read_number (n ∷ []) = some n
read_number xs = none

read_print : (n : ℕ) → read_number (print_number n) ≡ some n
read_print n = refl

abbrev two_frames : List (Frame ℕ)
two_frames = control 7 ∷ stream 5 (104 ∷ 105 ∷ []) ∷ []

-- The bytes of the two frames, cut inside a header and inside a payload.
abbrev cut_chunks : List (List ℕ)
cut_chunks =
    (1 ∷ 0 ∷ 0 ∷ [])
    ∷ (0 ∷ 1 ∷ 0 ∷ 0 ∷ 0 ∷ 0 ∷ 7 ∷ 2 ∷ 0 ∷ 0 ∷ 0 ∷ 1 ∷ 0 ∷ 0 ∷ 0 ∷ 2 ∷ 5 ∷ 104 ∷ [])
    ∷ (105 ∷ [])
    ∷ []

two_frames-bytes : encode_all print_number two_frames ≡ some (joined cut_chunks)
unfolding encode_frame
two_frames-bytes = refl

push_all-encode_all_example : push_all read_number [] cut_chunks ≡ returned two_frames []
push_all-encode_all_example =
    push_all-encode_all print_number read_number read_print two_frames cut_chunks two_frames-bytes

seven-bytes :
    encode_frame print_number (control 7) ≡ some (1 ∷ 0 ∷ 0 ∷ 0 ∷ 1 ∷ 0 ∷ 0 ∷ 0 ∷ 0 ∷ 7 ∷ [])
unfolding encode_frame
seven-bytes = refl

-- A frame of an unknown kind after a good one: the good one is lost too.
abbrev bad_chunk : List ℕ
bad_chunk = 1 ∷ 0 ∷ 0 ∷ 0 ∷ 1 ∷ 0 ∷ 0 ∷ 0 ∷ 0 ∷ 7 ∷ 9 ∷ 0 ∷ 0 ∷ 0 ∷ 0 ∷ 0 ∷ 0 ∷ 0 ∷ 0 ∷ []

abbrev stuck_bytes : List ℕ
stuck_bytes = 9 ∷ 0 ∷ 0 ∷ 0 ∷ 0 ∷ 0 ∷ 0 ∷ 0 ∷ 0 ∷ []

bad_chunk-threw : push read_number [] bad_chunk ≡ threw (unknown_kind 9) stuck_bytes
unfolding push take_frame
bad_chunk-threw = refl

push-stuck_example :
    push read_number stuck_bytes (1 ∷ 0 ∷ []) ≡ threw (unknown_kind 9) (stuck_bytes ++ (1 ∷ 0 ∷ []))
push-stuck_example =
    push-stuck read_number [] bad_chunk (1 ∷ 0 ∷ []) stuck_bytes (unknown_kind 9) bad_chunk-threw
