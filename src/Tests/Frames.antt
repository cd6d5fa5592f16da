-- ===== src/Tests/Frames.antt =====
-- Frames of the worker's output (crates/remtene-adapters/src/asr_worker.rs) in concrete buffers.
use rem_tene_public.Base.{ℕ, ◌≡◌, ◌≢◌, refl, List, [], ◌∷◌, some, none, arith}
use rem_tene_public.Supervisor.Frames.{
  read_protocol_frame, worker_reader, split_newline, pop_return,
}
use rem_tene_public.Supervisor.Frames.Stream.{
  reader_of, bytes_of, frame_of, IsLine, read_protocol_frame-frame_of,
}
use rem_tene_public.Supervisor.Frames.Ends.{size, worker_reader_ends}
use rem_tene_public.Supervisor.Frames.Lines.{AreLines, written, envelopes, worker_reader-written}

-- "{}\n" and "[" in two buffers.
abbrev two : List (List ℕ)
two = (b'{' ∷ []) ∷ (b'}' ∷ b'\n' ∷ b'[' ∷ []) ∷ []

read_protocol_frame-frame_of_example :
    (read_protocol_frame (reader_of two)).0 ≡ frame_of (bytes_of two)
read_protocol_frame-frame_of_example = read_protocol_frame-frame_of two ((λ e. cc), ((λ e. cc), tt))

braces_IsLine : IsLine (b'{' ∷ b'}' ∷ [])
unfolding IsLine split_newline pop_return
braces_IsLine = ((λ e. cc), refl, refl)

-- "{}\n{}\n" in two buffers.
abbrev lines : List (List ℕ)
lines = (b'{' ∷ b'}' ∷ []) ∷ (b'{' ∷ b'}' ∷ []) ∷ []

abbrev cut : List (List ℕ)
cut = (b'{' ∷ []) ∷ (b'}' ∷ b'\n' ∷ b'{' ∷ b'}' ∷ b'\n' ∷ []) ∷ []

worker_reader-written_example : worker_reader some 3 (reader_of cut) ≡ some (envelopes some lines)
unfolding AreLines written
worker_reader-written_example =
    worker_reader-written some lines cut
      (braces_IsLine, omega arith, (braces_IsLine, omega arith, tt)) ((λ e. cc), ((λ e. cc), tt))
      refl

worker_reader_ends_example : worker_reader some 20 (reader_of cut) ≢ none
unfolding size
worker_reader_ends_example = worker_reader_ends some 20 (reader_of cut) (omega arith)
