-- ===== src/Frames/Samples.antt =====
-- A frame in two pieces, read with a buffer of two bytes.
use pogo.Prelude.{◌≡◌, refl, true, List, [], ◌∷◌, ◌++◌, some, arith, Bytes}
use pogo.Frames.{read, read_frame, frame_bytes, Answer, wrote, write_loop}
use pogo.Frames.RoundTrip.{read_frame-write_loop}

abbrev value : Bytes
value = 123 ∷ 49 ∷ 125 ∷ []

abbrev line : Bytes
line = 123 ∷ 49 ∷ 125 ∷ 10 ∷ []

abbrev pieces : List Answer
pieces = wrote 3 ∷ wrote 1 ∷ []

value_framed : frame_bytes value ≡ some line
unfolding frame_bytes
value_framed = refl

line_written : write_loop pieces line ≡ (true, line)
unfolding write_loop
line_written = refl

read_frame-write_loop_example : read_frame 2 (line ++ 91 ∷ []) ≡ some (read (value, 91 ∷ []))
read_frame-write_loop_example =
    read_frame-write_loop value line line (91 ∷ []) pieces 2 (refl, (refl, (refl, tt)))
      (omega arith) value_framed line_written
