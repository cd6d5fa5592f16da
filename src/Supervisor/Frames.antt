-- ===== src/Supervisor/Frames.antt =====
-- `read_protocol_frame` (crates/remtene-adapters/src/asr_worker.rs): one line of the worker's output.
-- A reader is the list of what `fill_buf` gives, an error or the bytes that are in the buffer; what
-- is not consumed is given again, and the end of the list is the end of the output.
pub mod Stream
pub mod Lines
pub mod Ends
use mathlib.Core.Option
use rem_tene_public.Base.{
  ℕ, zero, suc, ◌+◌, ◌*◌, Bool, true, false, Option, none, some, List, [], ◌∷◌, ◌++◌, Result, ok,
  err, ltb, ◌==◌, length, if◌then◌else◌,
}

abbrev pub max_protocol_frame_bytes : ℕ
max_protocol_frame_bytes = 8 * 1024 * 1024

abbrev pub newline : ℕ
newline = 10

abbrev pub carriage_return : ℕ
carriage_return = 13

-- A line after these bytes.
abbrev pub after_bytes : List ℕ → Option (List ℕ × List ℕ) → Option (List ℕ × List ℕ)
after_bytes bytes none = none
after_bytes bytes (some (line, rest)) = some (bytes ++ line, rest)

-- The bytes before the first newline, and those after it.
unfoldable pub split_newline : List ℕ → Option (List ℕ × List ℕ)
split_newline [] = none
split_newline (b ∷ bs) =
    let rest = split_newline bs in if b == newline then some ([], bs) else after_bytes (b ∷ []) rest

-- `if frame.last() == Some(&b'\r') { frame.pop(); }`
unfoldable pub pop_return : List ℕ → List ℕ
pop_return [] = []
pop_return (b ∷ []) = if b == carriage_return then [] else b ∷ []
pop_return (b ∷ c ∷ bs) = b ∷ pop_return (c ∷ bs)

-- The frame of a line, without its newline.
unfoldable pub non_empty : List ℕ → Result (Unit {0}) (Option (List ℕ))
non_empty [] = err tt
non_empty (b ∷ bs) = ok (some (b ∷ bs))

abbrev pub Reader : Type 0
Reader = List (Result (Unit {0}) (List ℕ))

-- The result, and what the reader gives afterwards.
abbrev pub Read : Type 0
Read = Result (Unit {0}) (Option (List ℕ)) × Reader

unfoldable pub at_end : List ℕ → Result (Unit {0}) (Option (List ℕ))
at_end [] = ok none
at_end (b ∷ bs) = err tt

-- The bytes that are left in the buffer.
unfoldable pub left_over : List ℕ → Reader → Reader
left_over [] reader = reader
left_over (b ∷ bs) reader = ok (b ∷ bs) ∷ reader

-- The frame so far and a buffer with this line, the bytes up to a newline, or with none.
unfoldable pub read_buffer : List ℕ → List ℕ → Reader → Read → Option (List ℕ × List ℕ) → Read
unfolding left_over non_empty pop_return
read_buffer frame buffer reader later none =
    if ltb max_protocol_frame_bytes (length frame + length buffer)
    then (err tt, ok buffer ∷ reader)
    else later
read_buffer frame buffer reader later (some (line, after)) =
    if ltb max_protocol_frame_bytes (length frame + suc (length line))
    then (err tt, ok buffer ∷ reader)
    else (non_empty (pop_return (frame ++ line)), left_over after reader)

-- The loop.
unfoldable pub read_frame : List ℕ → Reader → Read
unfolding at_end read_buffer
read_frame frame [] = (at_end frame, [])
read_frame frame (err _ ∷ reader) = (err tt, reader)
read_frame frame (ok [] ∷ reader) = (at_end frame, reader)
read_frame frame (ok (b ∷ bs) ∷ reader) =
    let later = read_frame (frame ++ (b ∷ bs)) reader in
    read_buffer frame (b ∷ bs) reader later (split_newline (b ∷ bs))

unfoldable pub read_protocol_frame : Reader → Read
unfolding read_frame
read_protocol_frame reader = read_frame [] reader

-- The `match serde_json::from_slice(&frame)`.
unfoldable pub after_parsing :
    {E : Type 0}
    → Option E
    → Option (List (Result (Unit {0}) E))
    → Option (List (Result (Unit {0}) E))
after_parsing none rest = some (err tt ∷ [])
after_parsing (some envelope) rest = Option.map (λ sent. ok envelope ∷ sent) rest

-- What is sent for a frame, and whether the thread goes on: the rest is what it sends then.
unfoldable pub after_frame :
    {E : Type 0}
    → (List ℕ → Option E)
    → Result (Unit {0}) (Option (List ℕ))
    → Option (List (Result (Unit {0}) E))
    → Option (List (Result (Unit {0}) E))
unfolding after_parsing
after_frame parse (ok (some frame)) rest = after_parsing (parse frame) rest
after_frame parse (ok none) rest = some (err tt ∷ [])
after_frame parse (err _) rest = some (err tt ∷ [])

-- `spawn_worker_reader`, as long as its queue is read; the fuel bounds the number of frames, and the
-- parsing of an envelope by `serde_json` is a parameter.
unfoldable pub worker_reader :
    {E : Type 0} → (List ℕ → Option E) → ℕ → Reader → Option (List (Result (Unit {0}) E))
unfolding after_frame
worker_reader parse zero reader = none
worker_reader parse (suc fuel) reader =
    let rest = worker_reader parse fuel (read_protocol_frame reader).1 in
    after_frame parse (read_protocol_frame reader).0 rest
