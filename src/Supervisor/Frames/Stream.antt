-- ===== src/Supervisor/Frames/Stream.antt =====
-- Reading a frame from a buffered reader is reading it from the stream of its bytes.
use rem_tene_public.Base.{
  ◌≡◌, ◌≢◌, refl, sym, ap, ◌∙◌, ℕ, suc, ◌+◌, ◌≤◌, Option, none, some, List, [], ◌∷◌, ◌++◌, map,
  Result, ok, err, arith, ltb, ◌==◌, length, if◌then◌else◌, Bool-cases, inl, inr,
}
use rem_tene_public.Supervisor.Frames.{
  after_bytes, read_buffer, max_protocol_frame_bytes, newline, split_newline, pop_return, non_empty,
  Reader, Read, at_end, read_frame, read_protocol_frame,
}

-- The bytes that a reader without errors gives.
abbrev pub bytes_of : List (List ℕ) → List ℕ
bytes_of [] = []
bytes_of (chunk ∷ chunks) = chunk ++ bytes_of chunks

-- No buffer is empty before the end.
abbrev pub AllFilled : List (List ℕ) → Type 0
AllFilled [] = Unit {0}
AllFilled (chunk ∷ chunks) = (chunk ≢ []) × AllFilled chunks

abbrev pub reader_of : List (List ℕ) → Reader
reader_of chunks = map ok chunks

-- The frame that the bytes begin with, where this is their first line.
unfoldable pub frame_with :
    List ℕ → List ℕ → Option (List ℕ × List ℕ) → Result (Unit {0}) (Option (List ℕ))
frame_with frame bytes none =
    if ltb max_protocol_frame_bytes (length frame + length bytes)
    then err tt
    else at_end (frame ++ bytes)
frame_with frame bytes (some (line, after)) =
    if ltb max_protocol_frame_bytes (length frame + suc (length line))
    then err tt
    else non_empty (pop_return (frame ++ line))

unfoldable pub frame_of : List ℕ → Result (Unit {0}) (Option (List ℕ))
unfolding frame_with
frame_of bytes = frame_with [] bytes (split_newline bytes)

-- The first line of two parts, from the first lines of each.
unfoldable pub joined :
    List ℕ → List ℕ → Option (List ℕ × List ℕ) → Option (List ℕ × List ℕ) → Option (List ℕ × List ℕ)
joined a b none o = after_bytes a o
joined a b (some (line, after)) o = some (line, after ++ b)

after_bytes_none : (o : Option (List ℕ × List ℕ)) → o ≡ after_bytes [] o
after_bytes_none none = refl
after_bytes_none (some (line, after)) = refl

after_bytes-joined :
    (x : ℕ) (a b : List ℕ) (o q : Option (List ℕ × List ℕ))
    → after_bytes (x ∷ []) (joined a b o q) ≡ joined (x ∷ a) b (after_bytes (x ∷ []) o) q
unfolding joined
after_bytes-joined x a b none none = refl
after_bytes-joined x a b none (some (line, after)) = refl
after_bytes-joined x a b (some (line, after)) q = refl

pub split_append :
    (a b : List ℕ) → split_newline (a ++ b) ≡ joined a b (split_newline a) (split_newline b)
unfolding split_newline joined
split_append [] b = after_bytes_none (split_newline b)
split_append (x ∷ a) b = elim (Bool-cases (x == newline)) [
  | inl here ↦ rw here refl
  | inr later ↦ rw later (
      ap (after_bytes (x ∷ [])) (split_append a b)
      ∙ after_bytes-joined x a b (split_newline a) (split_newline b))
]

pub length-append : (a b : List ℕ) → length (a ++ b) ≡ length a + length b
length-append [] b = omega arith
length-append (x ∷ a) b = let rest = length-append a b in omega arith

append_assoc : (a b c : List ℕ) → (a ++ b) ++ c ≡ a ++ (b ++ c)
append_assoc [] b c = refl
append_assoc (x ∷ a) b c = ap (λ l. x ∷ l) (append_assoc a b c)

-- One buffer, given what the rest of the loop gives.
read_buffer-frame_with :
    (frame buffer rest : List ℕ) (reader : Reader) (later : Read) (o q : Option (List ℕ × List ℕ))
    → later.0 ≡ frame_with (frame ++ buffer) rest q
    → (read_buffer frame buffer reader later o).0
      ≡ frame_with frame (buffer ++ rest) (joined buffer rest o q)
unfolding read_buffer frame_with joined
read_buffer-frame_with frame buffer rest reader later (some (line, after)) q h = ground arith
read_buffer-frame_with frame buffer rest reader later none none h =
    ground
      (arith, length-append buffer rest, length-append frame buffer, append_assoc frame buffer rest)
read_buffer-frame_with frame buffer rest reader later none (some (line, after)) h =
    ground
      (arith, length-append buffer line, length-append frame buffer, append_assoc frame buffer line)

append_none : (a : List ℕ) → a ++ [] ≡ a
append_none [] = refl
append_none (x ∷ a) = ap (λ l. x ∷ l) (append_none a)

at_end-frame_with : (frame : List ℕ) → at_end frame ≡ frame_with frame [] none
unfolding at_end frame_with
at_end-frame_with [] = ground arith
at_end-frame_with (b ∷ frame) = ground arith

read_frame-frame_with :
    (frame : List ℕ) (chunks : List (List ℕ))
    → AllFilled chunks
    → (read_frame frame (reader_of chunks)).0
      ≡ frame_with frame (bytes_of chunks) (split_newline (bytes_of chunks))
unfolding read_frame split_newline
read_frame-frame_with frame [] h = at_end-frame_with frame
read_frame-frame_with frame ([] ∷ chunks) h = absurd (h.0 refl)
read_frame-frame_with frame ((b ∷ bs) ∷ chunks) h =
    let rest = bytes_of chunks in
    read_buffer-frame_with frame (b ∷ bs) rest (reader_of chunks)
      (read_frame (frame ++ (b ∷ bs)) (reader_of chunks)) (split_newline (b ∷ bs))
      (split_newline rest) (read_frame-frame_with (frame ++ (b ∷ bs)) chunks h.1)
    ∙ ap (frame_with frame (b ∷ bs ++ rest)) (sym (split_append (b ∷ bs) rest))

-- However the bytes are cut into buffers that are not empty, the frame that is read is the one that
-- the stream of the bytes begins with: its first line, or an error where that line with its newline,
-- or all the bytes if there is no newline, are more than the bound, where the stream ends within a
-- line, or where the line is empty.
pub read_protocol_frame-frame_of :
    (chunks : List (List ℕ))
    → AllFilled chunks
    → (read_protocol_frame (reader_of chunks)).0 ≡ frame_of (bytes_of chunks)
unfolding read_protocol_frame frame_of
read_protocol_frame-frame_of chunks h = read_frame-frame_with [] chunks h

-- No newline, and no carriage return at the end, so that it is the text of a line.
unfoldable pub IsLine : List ℕ → Type 0
IsLine line = (line ≢ []) × (split_newline line ≡ none) × (pop_return line ≡ line)

non_empty_line : (line : List ℕ) → line ≢ [] → non_empty line ≡ ok (some line)
unfolding non_empty
non_empty_line [] h = absurd (h refl)
non_empty_line (b ∷ line) h = refl

pub split_line :
    (line after : List ℕ)
    → split_newline line ≡ none
    → split_newline (line ++ (newline ∷ after)) ≡ some (line, after)
unfolding split_newline joined
split_line line after one_line =
    split_append line (newline ∷ after)
    ∙ ap (λ o. joined line (newline ∷ after) o (split_newline (newline ∷ after))) one_line
    ∙ ap (λ l. some (l, after)) (append_none line)

frame_with-fits :
    (line after bytes : List ℕ)
    → length line + 1 ≤ max_protocol_frame_bytes
    → frame_with [] bytes (some (line, after)) ≡ non_empty (pop_return line)
unfolding frame_with
frame_with-fits line after bytes fits = ground arith

frame_of-line :
    (line after : List ℕ)
    → line ≢ []
    → split_newline line ≡ none
    → pop_return line ≡ line
    → length line + 1 ≤ max_protocol_frame_bytes
    → frame_of (line ++ (newline ∷ after)) ≡ ok (some line)
unfolding frame_of
frame_of-line line after some_byte one_line plain fits =
    ap (frame_with [] (line ++ (newline ∷ after))) (split_line line after one_line)
    ∙ frame_with-fits line after (line ++ (newline ∷ after)) fits
    ∙ ap non_empty plain
    ∙ non_empty_line line some_byte

-- A line that is written with a newline is read back, however what follows goes on and however the
-- bytes are cut into buffers, if it has fewer bytes than the bound.
pub read_written_line :
    (line after : List ℕ) (chunks : List (List ℕ))
    → AllFilled chunks
    → bytes_of chunks ≡ line ++ (newline ∷ after)
    → IsLine line
    → length line + 1 ≤ max_protocol_frame_bytes
    → (read_protocol_frame (reader_of chunks)).0 ≡ ok (some line)
unfolding IsLine
read_written_line line after chunks filled same (some_byte, one_line, plain) fits =
    read_protocol_frame-frame_of chunks filled
    ∙ ap frame_of same
    ∙ frame_of-line line after some_byte one_line plain fits
