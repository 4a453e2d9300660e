-- ===== src/Frames.antt =====
-- internal/python/frame.go: the frames on the channel to the worker, a line of JSON each. What
-- encoding/json makes of a value comes as bytes.
pub mod RoundTrip
mod Samples
use pogo.Prelude.{
  ℕ, zero, suc, ◌+◌, ◌*◌, Bool, true, false, List, [], ◌∷◌, ◌++◌, Option, none, some, ltb, ◌==◌,
  ◌||◌, if◌then◌else◌, length, take, drop, Bytes,
}

abbrev pub max_frame_size : ℕ
max_frame_size = 32 * 1024 * 1024

abbrev pub new_line : ℕ
new_line = 10

-- The errors of `bufio.Reader.ReadSlice`.
pub data SliceError : Type 0 where
  buffer_full end_of_file : SliceError

-- `ReadSlice('\n')` with a buffer of a size: what it returns, its error, and what is left to read.
pub read_slice : ℕ → Bytes → Bytes × Option SliceError × Bytes
read_slice zero s = ([], some buffer_full, s)
read_slice (suc size) [] = ([], some end_of_file, [])
read_slice (suc size) (b ∷ s) =
    let (chunk, error, rest) = read_slice size s in
    if b == new_line then (b ∷ [], none, s) else (b ∷ chunk, error, rest)

pub data FrameError : Type 0 where
  frame_too_large empty_frame unexpected_end end_of_frames : FrameError

pub data FrameResult {ℓ} (X : Type ℓ) : Type ℓ where
  read : X → FrameResult X
  refused : FrameError → FrameResult X

abbrev pub is_nil : Bytes → Bool
is_nil [] = true
is_nil (b ∷ s) = false

-- bytes.TrimSuffix(frame, []byte{'\n'})
pub trim_suffix : Bytes → Bytes
trim_suffix [] = []
trim_suffix (b ∷ s) =
    let rest = b ∷ trim_suffix s in
    if is_nil s then (if b == new_line then [] else b ∷ []) else rest

abbrev pub finish_frame : Bytes → Bytes → FrameResult (Bytes × Bytes)
finish_frame [] rest = refused empty_frame
finish_frame (b ∷ frame) rest = read (b ∷ frame, rest)

-- The loop of `ReadFrame`. Every round but the last takes a full buffer, so a buffer of any size and
-- `suc (length s)` rounds are enough.
pub read_loop : ℕ → ℕ → Bytes → Bytes → Option (FrameResult (Bytes × Bytes))
unfolding read_slice trim_suffix
read_loop zero size frame s = none
read_loop (suc fuel) size frame s =
    let (chunk, error, rest) = read_slice size s in
    let again = read_loop fuel size (frame ++ chunk) rest in
    if ltb (max_frame_size + 1) (length frame + length chunk)
    then some (refused frame_too_large)
    else elim error [
      | none ↦ some (finish_frame (trim_suffix (frame ++ chunk)) rest)
      | some e ↦ elim e [
        | buffer_full ↦ again
        | end_of_file ↦
            some (refused (if is_nil (frame ++ chunk) then end_of_frames else unexpected_end))
      ]
    ]

pub read_frame : ℕ → Bytes → Option (FrameResult (Bytes × Bytes))
unfolding read_loop
read_frame size s = read_loop (suc (length s)) size [] s

-- What `WriteFrame` hands to the writer for a marshalled value; none is an error.
pub frame_bytes : Bytes → Option Bytes
frame_bytes payload =
    if is_nil payload || ltb max_frame_size (length payload)
    then none
    else some (payload ++ new_line ∷ [])

-- What a call of `Write` answers: the bytes that it has written, all without an error or some with one.
pub data Answer : Type 0 where
  wrote failed_after : ℕ → Answer

-- The loop of `WriteFrame`: whether it succeeds, and what the writer has got. It calls `Write` once
-- for each answer that is used; without another answer it is still running.
pub write_loop : List Answer → Bytes → Bool × Bytes
write_loop answers [] = (true, [])
write_loop [] (b ∷ payload) = (false, [])
write_loop (failed_after n ∷ answers) (b ∷ payload) = (false, take n (b ∷ payload))
write_loop (wrote zero ∷ answers) (b ∷ payload) = (false, [])
write_loop (wrote (suc n) ∷ answers) (b ∷ payload) =
    let (done, sent) = write_loop answers (drop n payload) in (done, b ∷ (take n payload ++ sent))
