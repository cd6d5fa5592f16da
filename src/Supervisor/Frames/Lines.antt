-- ===== src/Supervisor/Frames/Lines.antt =====
-- A sequence of lines that is written is read back line by line.
use rem_tene_public.Base.{
  ◌≡◌, refl, sym, ap, ◌∙◌, ℕ, suc, ◌+◌, ◌≤◌, Bool, true, false, Option, none, some, List, [], ◌∷◌,
  ◌++◌, Result, ok, err, arith, ltb, length, if◌then◌else◌,
}
use rem_tene_public.Supervisor.Frames.{
  max_protocol_frame_bytes, newline, split_newline, Reader, Read, left_over, read_buffer,
  read_frame, read_protocol_frame, after_parsing, after_frame, worker_reader,
}
use rem_tene_public.Supervisor.Frames.Stream.{
  bytes_of, AllFilled, reader_of, IsLine, read_written_line, joined, split_append, length-append,
  split_line,
}

-- The reader goes on with these bytes, in buffers that are not empty.
IsAt : List ℕ → Reader → Type 0
IsAt bytes reader =
    (chunks : List (List ℕ)) × (reader ≡ reader_of chunks)
    × AllFilled chunks
    × (bytes_of chunks ≡ bytes)

left_over-IsAt :
    (after : List ℕ) (chunks : List (List ℕ))
    → AllFilled chunks
    → IsAt (after ++ bytes_of chunks) (left_over after (reader_of chunks))
unfolding left_over IsAt
left_over-IsAt [] chunks h = (chunks, refl, h, refl)
left_over-IsAt (b ∷ bs) chunks h = ((b ∷ bs) ∷ chunks, refl, ((λ e. cc), h), refl)

same-IsAt : (a b : List ℕ) (reader : Reader) → a ≡ b → IsAt a reader → IsAt b reader
unfolding IsAt
same-IsAt a b reader h (chunks, p, q, r) = (chunks, p, q, r ∙ h)

if_fits-IsAt :
    (bytes : List ℕ) (b : Bool) (x y : Read)
    → b ≡ false
    → IsAt bytes y.1
    → IsAt bytes (if b then x else y).1
if_fits-IsAt bytes true x y h k = absurd {A = _} cc
if_fits-IsAt bytes false x y h k = k

-- One buffer, given where the rest of the loop leaves the reader.
read_buffer-IsAt :
    (frame buffer line after : List ℕ) (chunks : List (List ℕ)) (later : Read)
    (o q : Option (List ℕ × List ℕ))
    → AllFilled chunks
    → joined buffer (bytes_of chunks) o q ≡ some (line, after)
    → length frame + suc (length line) ≤ max_protocol_frame_bytes
    → ((l : List ℕ)
        → q ≡ some (l, after)
        → length (frame ++ buffer) + suc (length l) ≤ max_protocol_frame_bytes
        → IsAt after later.1)
    → IsAt after (read_buffer frame buffer (reader_of chunks) later o).1
unfolding read_buffer joined
read_buffer-IsAt frame buffer line after chunks later (some (l, a)) q filled h fits k =
    let same_line : l ≡ line = cc in
    let same_rest : a ++ bytes_of chunks ≡ after = cc in
    let same_length = ap length same_line in
    if_fits-IsAt after (ltb max_protocol_frame_bytes (length frame + suc (length l))) _ _
      (ground arith)
      (same-IsAt (a ++ bytes_of chunks) after (left_over a (reader_of chunks)) same_rest
        (left_over-IsAt a chunks filled))
read_buffer-IsAt frame buffer line after chunks later none none filled h fits k = absurd {A = _} cc
read_buffer-IsAt frame buffer line after chunks later none (some (l, a)) filled h fits k =
    let same_line : buffer ++ l ≡ line = cc in
    let same_rest : a ≡ after = cc in
    let whole = sym (length-append buffer l) ∙ ap length same_line in
    let so_far = length-append frame buffer in
    if_fits-IsAt after (ltb max_protocol_frame_bytes (length frame + length buffer)) _ _
      (ground arith) (k l (ap (λ x. some (l, x)) same_rest) (omega arith))

read_frame-IsAt :
    (frame line after : List ℕ) (chunks : List (List ℕ))
    → AllFilled chunks
    → split_newline (bytes_of chunks) ≡ some (line, after)
    → length frame + suc (length line) ≤ max_protocol_frame_bytes
    → IsAt after (read_frame frame (reader_of chunks)).1
unfolding read_frame split_newline
read_frame-IsAt frame line after [] filled h fits = absurd {A = _} cc
read_frame-IsAt frame line after ([] ∷ chunks) filled h fits = absurd (filled.0 refl)
read_frame-IsAt frame line after ((b ∷ bs) ∷ chunks) filled h fits =
    read_buffer-IsAt frame (b ∷ bs) line after chunks
      (read_frame (frame ++ (b ∷ bs)) (reader_of chunks)) (split_newline (b ∷ bs))
      (split_newline (bytes_of chunks)) filled.1 (sym (split_append (b ∷ bs) (bytes_of chunks)) ∙ h)
      fits (λ l e m. read_frame-IsAt (frame ++ (b ∷ bs)) l after chunks filled.1 e m)

-- What is written for these lines.
unfoldable pub written : List (List ℕ) → List ℕ
written [] = []
written (line ∷ lines) = line ++ (newline ∷ written lines)

-- A line that fits within the bound.
unfoldable pub AreLines : List (List ℕ) → Type 0
AreLines [] = Unit {0}
AreLines (line ∷ lines) =
    IsLine line × (length line + 1 ≤ max_protocol_frame_bytes) × AreLines lines

-- An envelope before what follows; no envelope is an error, which ends the thread.
unfoldable pub before :
    {E : Type 0} → Option E → List (Result (Unit {0}) E) → List (Result (Unit {0}) E)
before none later = err tt ∷ []
before (some envelope) later = ok envelope ∷ later

-- What the thread should send for these lines: their envelopes up to one that is none, and an error.
unfoldable pub envelopes :
    {E : Type 0} → (List ℕ → Option E) → List (List ℕ) → List (Result (Unit {0}) E)
unfolding before
envelopes parse [] = err tt ∷ []
envelopes parse (line ∷ lines) = before (parse line) (envelopes parse lines)

after_parsing-before :
    {E : Type 0}
    → (o : Option E) (rest : Option (List (Result (Unit {0}) E)))
      (later : List (Result (Unit {0}) E))
    → rest ≡ some later
    → after_parsing o rest ≡ some (before o later)
unfolding after_parsing before
after_parsing-before none rest later h = refl
after_parsing-before (some e) rest later h = rw h refl

no_bytes : (chunks : List (List ℕ)) → AllFilled chunks → bytes_of chunks ≡ [] → chunks ≡ []
no_bytes [] h k = refl
no_bytes ([] ∷ chunks) h k = absurd (h.0 refl)
no_bytes ((b ∷ bs) ∷ chunks) h k = absurd {A = _} cc

worker_reader_step :
    {E : Type 0}
    → (parse : List ℕ → Option E) (fuel : ℕ) (reader : Reader)
    → worker_reader parse (suc fuel) reader
      ≡ after_frame parse
          (read_protocol_frame reader).0
          (worker_reader parse fuel (read_protocol_frame reader).1)
unfolding worker_reader
worker_reader_step parse fuel reader = refl

at_end_lem :
    {E : Type 0}
    → (parse : List ℕ → Option E) (fuel : ℕ)
    → worker_reader parse (suc fuel) [] ≡ some (err tt ∷ [])
unfolding worker_reader read_protocol_frame
at_end_lem parse fuel = refl

-- One line of many.
one_line :
    {E : Type 0}
    → (parse : List ℕ → Option E) (line after : List ℕ) (fuel : ℕ) (chunks : List (List ℕ))
      (later : List (Result (Unit {0}) E))
    → AllFilled chunks
    → bytes_of chunks ≡ line ++ (newline ∷ after)
    → IsLine line
    → length line + 1 ≤ max_protocol_frame_bytes
    → worker_reader parse fuel (read_protocol_frame (reader_of chunks)).1 ≡ some later
    → worker_reader parse (suc fuel) (reader_of chunks) ≡ some (before (parse line) later)
unfolding after_frame
one_line parse line after fuel chunks later filled same line_is fits h =
    worker_reader_step parse fuel (reader_of chunks)
    ∙ ap
        (λ r.
          after_frame parse r (worker_reader parse fuel (read_protocol_frame (reader_of chunks)).1))
        (read_written_line line after chunks filled same line_is fits)
    ∙ after_parsing-before (parse line) _ later h

rest-IsAt :
    (line after : List ℕ) (chunks : List (List ℕ))
    → AllFilled chunks
    → bytes_of chunks ≡ line ++ (newline ∷ after)
    → IsLine line
    → length line + 1 ≤ max_protocol_frame_bytes
    → IsAt after (read_protocol_frame (reader_of chunks)).1
unfolding read_protocol_frame IsLine
rest-IsAt line after chunks filled same (_, no_newline, _) fits =
    read_frame-IsAt [] line after chunks filled
      (ap split_newline same ∙ split_line line after no_newline) (omega arith)

-- Lines that are written one after the other, each with its newline, reach the supervisor as their
-- envelopes, in order, however the bytes are cut into buffers; the end of the output, or a line that
-- is no envelope, is reported and ends the thread. The fuel of one more than the lines is enough. Each
-- line has no newline, is not empty, does not end in a carriage return and fits within the bound with
-- its newline; the bytes are read without an error, in buffers that are not empty.
pub worker_reader-written :
    {E : Type 0}
    → (parse : List ℕ → Option E) (lines : List (List ℕ)) (chunks : List (List ℕ)) → AreLines lines
    → AllFilled chunks
    → bytes_of chunks ≡ written lines
    → worker_reader parse (suc (length lines)) (reader_of chunks) ≡ some (envelopes parse lines)
unfolding envelopes AreLines written IsAt
worker_reader-written parse [] chunks lines filled same =
    ap (λ c. worker_reader parse 1 (reader_of c)) (no_bytes chunks filled same) ∙ at_end_lem parse 0
worker_reader-written parse (line ∷ lines) chunks (one, fits, rest) filled same =
    let (later, go_on, later_filled, later_same) =
      rest-IsAt line (written lines) chunks filled same one fits in
    one_line parse line (written lines) (suc (length lines)) chunks (envelopes parse lines) filled
      same one fits
      (ap (worker_reader parse (suc (length lines))) go_on
        ∙ worker_reader-written parse lines later rest later_filled later_same)
