-- ===== src/Frames/RoundTrip.antt =====
-- A frame that has been written is read back, whatever the size of the buffer.
use pogo.Prelude.{
  ℕ, zero, suc, ◌+◌, ◌≤◌, ◌<◌, ◌≡◌, refl, sym, ap, ◌∙◌, true, false, List, [], ◌∷◌, ◌++◌, Option,
  none, some, arith, ltb, ◌==◌, length, length-append, length-take, length-drop, take, drop, Bytes,
  dec_lt, All,
}
use pogo.Frames.{
  max_frame_size, new_line, buffer_full, SliceError, read_slice, read, is_nil, trim_suffix,
  finish_frame, read_loop, read_frame, frame_bytes, Answer, wrote, failed_after, write_loop,
}

-- No byte is a line feed, as in what encoding/json makes.
abbrev pub OneLine : Bytes → Type 0
OneLine payload = All (λ b. (b == new_line) ≡ false) payload

read_slice_short :
    (size : ℕ) (p rest : Bytes)
    → OneLine p
    → length p < size
    → read_slice size (p ++ new_line ∷ rest) ≡ (p ++ new_line ∷ [], none, rest)
unfolding read_slice
read_slice_short zero p rest line small = absurd (omega arith)
read_slice_short (suc size) [] rest line small = refl
read_slice_short (suc size) (b ∷ p) rest (other, line) small =
    ground (arith, read_slice_short size p rest line)

read_slice_full :
    (size : ℕ) (p rest : Bytes)
    → OneLine p
    → size ≤ length p
    → read_slice size (p ++ new_line ∷ rest)
      ≡ (take size p, some buffer_full, drop size p ++ new_line ∷ rest)
unfolding read_slice
read_slice_full zero p rest line large = refl
read_slice_full (suc size) [] rest line large = absurd (omega arith)
read_slice_full (suc size) (b ∷ p) rest (other, line) large =
    ground (arith, read_slice_full size p rest line)

trim_suffix-append : (s : Bytes) → trim_suffix (s ++ new_line ∷ []) ≡ s
unfolding trim_suffix
trim_suffix-append [] = refl
trim_suffix-append (b ∷ []) = refl
trim_suffix-append (b ∷ c ∷ s) = ap (λ l. b ∷ l) (trim_suffix-append (c ∷ s))

read_loop_end :
    (fuel size : ℕ) (frame s chunk rest : Bytes)
    → read_slice size s ≡ (chunk, none, rest)
    → length frame + length chunk ≤ max_frame_size + 1
    → read_loop (suc fuel) size frame s ≡ some (finish_frame (trim_suffix (frame ++ chunk)) rest)
unfolding read_loop
read_loop_end fuel size frame s chunk rest slice fits =
    let small : ltb (max_frame_size + 1) (length frame + length chunk) ≡ false = ground arith in
    rw (read_loop, slice, small)
      (ap
        (λ (r : Bytes × Option SliceError × Bytes).
          some (finish_frame (trim_suffix (frame ++ r.0)) r.2))
        slice)

read_loop_more :
    (fuel size : ℕ) (frame s chunk rest : Bytes)
    → read_slice size s ≡ (chunk, some buffer_full, rest)
    → length frame + length chunk ≤ max_frame_size + 1
    → read_loop (suc fuel) size frame s ≡ read_loop fuel size (frame ++ chunk) rest
unfolding read_loop
read_loop_more fuel size frame s chunk rest slice fits =
    let small : ltb (max_frame_size + 1) (length frame + length chunk) ≡ false = ground arith in
    rw (read_loop, slice, small)
      (ap (λ (r : Bytes × Option SliceError × Bytes). read_loop fuel size (frame ++ r.0) r.2) slice)

append_assoc : (s t u : Bytes) → (s ++ t) ++ u ≡ s ++ (t ++ u)
append_assoc [] t u = refl
append_assoc (b ∷ s) t u = ap (λ l. b ∷ l) (append_assoc s t u)

take-drop-append : (n : ℕ) (s : Bytes) → take n s ++ drop n s ≡ s
take-drop-append zero s = refl
take-drop-append (suc n) [] = refl
take-drop-append (suc n) (b ∷ s) = ap (λ l. b ∷ l) (take-drop-append n s)

OneLine-drop : (n : ℕ) (p : Bytes) → OneLine p → OneLine (drop n p)
OneLine-drop zero p line = line
OneLine-drop (suc n) [] line = line
OneLine-drop (suc n) (b ∷ p) (other, line) = OneLine-drop n p line

read_loop_line :
    (fuel size : ℕ) (frame p rest : Bytes)
    → OneLine p
    → 0 < size
    → length p < fuel
    → length frame + length p ≤ max_frame_size
    → read_loop fuel size frame (p ++ new_line ∷ rest) ≡ some (finish_frame (frame ++ p) rest)
read_loop_line zero size frame p rest line some_size enough fits = absurd (omega arith)
read_loop_line (suc fuel) size frame p rest line some_size enough fits =
    elim (dec_lt (length p) size) [
      | yes short ↦
          read_loop_end fuel size frame (p ++ new_line ∷ rest) (p ++ new_line ∷ []) rest
            (read_slice_short size p rest line short)
            (omega (arith, length-append p (new_line ∷ [])))
          ∙ ap (λ f. some (finish_frame f rest))
              (ap trim_suffix (sym (append_assoc frame p (new_line ∷ [])))
                ∙ trim_suffix-append (frame ++ p))
      | no long ↦
          let chunk = take size p in
          let all : (frame ++ chunk) ++ drop size p ≡ frame ++ p =
            append_assoc frame chunk (drop size p)
            ∙ ap (λ l. frame ++ l) (take-drop-append size p) in
          read_loop_more fuel size frame (p ++ new_line ∷ rest) chunk
            (drop size p ++ new_line ∷ rest) (read_slice_full size p rest line (omega arith))
            (omega (arith, length-take size p))
          ∙ read_loop_line fuel size (frame ++ chunk) (drop size p) rest (OneLine-drop size p line)
              some_size (omega (arith, length-drop size p))
              (omega (arith, length-drop size p, length-take size p, length-append frame chunk))
          ∙ ap (λ f. some (finish_frame f rest)) all
    ]

-- A write that succeeds has handed over the whole frame, in however many pieces.
write_loop_all :
    (answers : List Answer) (payload sent : Bytes)
    → write_loop answers payload ≡ (true, sent)
    → sent ≡ payload
unfolding write_loop
write_loop_all answers [] sent h = ground arith
write_loop_all [] (b ∷ payload) sent h = absurd (ground arith)
write_loop_all (failed_after n ∷ answers) (b ∷ payload) sent h = absurd (ground arith)
write_loop_all (wrote zero ∷ answers) (b ∷ payload) sent h = absurd (ground arith)
write_loop_all (wrote (suc n) ∷ answers) (b ∷ payload) sent h =
    let (done, later) = write_loop answers (drop n payload) in
    let rest = write_loop_all answers (drop n payload) later (ground arith) in
    let e : b ∷ (take n payload ++ later) ≡ sent = ground arith in
    sym e ∙ ap (λ l. b ∷ (take n payload ++ l)) rest ∙ ap (λ l. b ∷ l) (take-drop-append n payload)

frame_bytes_inv :
    (payload bytes : Bytes)
    → frame_bytes payload ≡ some bytes
    → (is_nil payload ≡ false)
      × (length payload ≤ max_frame_size)
      × (bytes ≡ payload ++ new_line ∷ [])
unfolding frame_bytes
frame_bytes_inv payload bytes h = (ground arith, ground arith, ground arith)

finish_frame_read : (p rest : Bytes) → is_nil p ≡ false → finish_frame p rest ≡ read (p, rest)
finish_frame_read [] rest h = absurd (ground arith)
finish_frame_read (b ∷ p) rest h = refl

read_frame_line :
    (size : ℕ) (p rest : Bytes)
    → OneLine p
    → 0 < size
    → is_nil p ≡ false
    → length p ≤ max_frame_size
    → read_frame size (p ++ new_line ∷ rest) ≡ some (read (p, rest))
unfolding read_frame
read_frame_line size p rest line some_size full fits =
    read_loop_line (suc (length (p ++ new_line ∷ rest))) size [] p rest line some_size
      (omega (arith, length-append p (new_line ∷ rest))) (omega arith)
    ∙ ap some (finish_frame_read p rest full)

-- Let the bytes of a value have no line feed. If `WriteFrame` succeeds, in however many pieces it
-- writes, then `ReadFrame` gives those bytes back and leaves what follows them, with a buffer of
-- any size but 0.
pub read_frame-write_loop :
    (payload bytes sent rest : Bytes) (answers : List Answer) (size : ℕ)
    → OneLine payload
    → 0 < size
    → frame_bytes payload ≡ some bytes
    → write_loop answers bytes ≡ (true, sent)
    → read_frame size (sent ++ rest) ≡ some (read (payload, rest))
read_frame-write_loop payload bytes sent rest answers size line some_size framed written =
    let (full, fits, eq) = frame_bytes_inv payload bytes framed in
    let whole = write_loop_all answers bytes sent written ∙ eq in
    ap (λ s. read_frame size (s ++ rest)) whole
    ∙ ap (read_frame size) (append_assoc payload (new_line ∷ []) rest)
    ∙ read_frame_line size payload rest line some_size full fits
