-- ===== src/Supervisor/Frames/Ends.antt =====
-- The thread that reads the worker's output comes to an end with the output.
use rem_tene_public.Base.{
  ◌≡◌, ◌≢◌, refl, ap, ℕ, zero, suc, ◌+◌, ◌≤◌, ◌<◌, Bool, true, false, Option, none, some, List, [],
  ◌∷◌, ◌++◌, Result, ok, err, arith, ◌==◌, length, if◌then◌else◌, Bool-cases, inl, inr,
}
use rem_tene_public.Supervisor.Frames.{
  newline, split_newline, after_bytes, Reader, Read, at_end, left_over, read_buffer, read_frame,
  read_protocol_frame, non_empty, pop_return, after_parsing, after_frame, worker_reader,
}

-- The buffers and the bytes that are left.
unfoldable pub size : Reader → ℕ
size [] = 0
size (err _ ∷ reader) = suc (size reader)
size (ok buffer ∷ reader) = suc (length buffer + size reader)

after_bytes-length :
    (x : ℕ) (o : Option (List ℕ × List ℕ)) (line after : List ℕ) (n : ℕ)
    → ((l a : List ℕ) → o ≡ some (l, a) → length a < n)
    → after_bytes (x ∷ []) o ≡ some (line, after)
    → length after < suc n
after_bytes-length x none line after n h k = absurd {A = _} cc
after_bytes-length x (some (l, a)) line after n h k =
    let same : a ≡ after = cc in
    let shorter = h l a refl in let equal = ap length same in omega arith

-- What follows a newline is shorter.
split_newline-length :
    (bytes line after : List ℕ)
    → split_newline bytes ≡ some (line, after)
    → length after < length bytes
unfolding split_newline
split_newline-length [] line after h = absurd {A = _} cc
split_newline-length (x ∷ bytes) line after h = elim (Bool-cases (x == newline)) [
  | inl here ↦
      let first : ◌≡◌ {A = Option (List ℕ × List ℕ)} (some ([], bytes)) (some (line, after)) =
        ground arith in
      let same : bytes ≡ after = cc in let equal = ap length same in omega arith
  | inr later ↦
      after_bytes-length x (split_newline bytes) line after (length bytes)
        (λ l a. split_newline-length bytes l a) (ground arith)
]

size-left_over :
    (after : List ℕ) (reader : Reader)
    → size (left_over after reader) ≤ suc (length after + size reader)
unfolding size left_over
size-left_over [] reader = omega arith
size-left_over (b ∷ bs) reader = omega arith

-- A frame takes something off the reader.
Shrinks : ℕ → Read → Type 0
Shrinks n r = (frame : List ℕ) → r.0 ≡ ok (some frame) → size r.1 < n

if-Shrinks :
    (n : ℕ) (b : Bool) (reader : Reader) (r : Read)
    → Shrinks n r
    → Shrinks n (if b then (err tt, reader) else r)
unfolding Shrinks
if-Shrinks n true reader r h f k = absurd {A = _} cc
if-Shrinks n false reader r h f k = h f k

later-Shrinks : (n m : ℕ) (r : Read) → n ≤ m → Shrinks n r → Shrinks m r
unfolding Shrinks
later-Shrinks n m r le h f k = let less = h f k in omega arith

left_over-Shrinks :
    (n : ℕ) (after : List ℕ) (reader : Reader) (r : Result (Unit {0}) (Option (List ℕ)))
    → length after < n
    → Shrinks (suc (n + size reader)) (r, left_over after reader)
unfolding Shrinks
left_over-Shrinks n after reader r h f k = let left = size-left_over after reader in omega arith

read_buffer-Shrinks :
    (frame buffer : List ℕ) (reader : Reader) (later : Read) (o : Option (List ℕ × List ℕ))
    → ((line after : List ℕ) → o ≡ some (line, after) → length after < length buffer)
    → Shrinks (size reader) later
    → Shrinks (suc (length buffer + size reader)) (read_buffer frame buffer reader later o)
unfolding read_buffer
read_buffer-Shrinks frame buffer reader later none h k =
    if-Shrinks _ _ (ok buffer ∷ reader) later
      (later-Shrinks (size reader) (suc (length buffer + size reader)) later (omega arith) k)
read_buffer-Shrinks frame buffer reader later (some (line, after)) h k =
    if-Shrinks _ _ (ok buffer ∷ reader)
      (non_empty (pop_return (frame ++ line)), left_over after reader)
      (left_over-Shrinks (length buffer) after reader (non_empty (pop_return (frame ++ line)))
        (h line after refl))

at_end-Shrinks : (n : ℕ) (frame : List ℕ) (reader : Reader) → Shrinks n (at_end frame, reader)
unfolding Shrinks at_end
at_end-Shrinks n [] reader f k = absurd {A = _} cc
at_end-Shrinks n (b ∷ bs) reader f k = absurd {A = _} cc

read_frame-Shrinks :
    (frame : List ℕ) (reader : Reader) → Shrinks (size reader) (read_frame frame reader)
unfolding read_frame size
read_frame-Shrinks frame [] = at_end-Shrinks 0 frame []
read_frame-Shrinks frame (err _ ∷ reader) = unfold Shrinks in λ f k. absurd {A = _} cc
read_frame-Shrinks frame (ok [] ∷ reader) = at_end-Shrinks _ frame reader
read_frame-Shrinks frame (ok (b ∷ bs) ∷ reader) =
    read_buffer-Shrinks frame (b ∷ bs) reader (read_frame (frame ++ (b ∷ bs)) reader)
      (split_newline (b ∷ bs)) (split_newline-length (b ∷ bs))
      (read_frame-Shrinks (frame ++ (b ∷ bs)) reader)

protocol_frame-Shrinks :
    (reader : Reader) (frame : List ℕ)
    → (read_protocol_frame reader).0 ≡ ok (some frame)
    → size (read_protocol_frame reader).1 < size reader
unfolding read_protocol_frame Shrinks
protocol_frame-Shrinks reader = read_frame-Shrinks [] reader

after_parsing-returns :
    {E : Type 0}
    → (o : Option E) (rest : Option (List (Result (Unit {0}) E))) → rest ≢ none
    → after_parsing o rest ≢ none
unfolding after_parsing
after_parsing-returns none rest h = λ e. cc
after_parsing-returns (some e) none h = absurd (h refl)
after_parsing-returns (some e) (some sent) h = λ k. cc

after_frame-returns :
    {E : Type 0}
    → (parse : List ℕ → Option E) (r : Result (Unit {0}) (Option (List ℕ)))
      (rest : Option (List (Result (Unit {0}) E)))
    → ((frame : List ℕ) → r ≡ ok (some frame) → rest ≢ none)
    → after_frame parse r rest ≢ none
unfolding after_frame
after_frame-returns parse (ok (some frame)) rest h =
    after_parsing-returns (parse frame) rest (h frame refl)
after_frame-returns parse (ok none) rest h = λ e. cc
after_frame-returns parse (err _) rest h = λ e. cc

-- The thread comes to an end, whatever the worker writes and however it is cut into buffers: the fuel
-- of one more than the buffers and bytes of its output is enough.
pub worker_reader_ends :
    {E : Type 0}
    → (parse : List ℕ → Option E) (fuel : ℕ) (reader : Reader) → size reader < fuel
    → worker_reader parse fuel reader ≢ none
unfolding worker_reader
worker_reader_ends parse zero reader h = absurd (omega arith)
worker_reader_ends parse (suc fuel) reader h =
    after_frame-returns parse (read_protocol_frame reader).0
      (worker_reader parse fuel (read_protocol_frame reader).1)
      (λ frame e.
        let smaller = protocol_frame-Shrinks reader frame e in
        worker_reader_ends parse fuel (read_protocol_frame reader).1 (omega arith))
