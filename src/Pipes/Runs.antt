-- ===== src/Pipes/Runs.antt =====
-- c/thread.c: two numbers of four bytes through a pipe that is a list of bytes.
use yruntime.Base.{ℕ, ◌≡◌, refl, List, [], ◌∷◌, ◌++◌, map, some, take, drop, replicate, arith}
use yruntime.Base.Bytes.{le_bytes}
use yruntime.Pipes.Code.{Pipe}
use yruntime.Pipes.Fifo.{Event, send, receive, bytes_of, run_queue, run_pipe, run_pipe-run_queue}

abbrev list_pipe : Pipe
list_pipe = record {
  Stream = List ℕ;
  contents = λ s. s;
  write = λ s bs. s ++ bs;
  read = λ s n. (take n s, drop n s);
  contents-write = λ s bs. refl;
  read-take = λ s n h. refl;
  contents-read = λ s n h. refl;
}

abbrev two_sent : List Event
two_sent = send 1000 ∷ send 7 ∷ receive (replicate 8 0xFF) ∷ []

run_pipe-run_queue_example :
    (values' : List ℕ) × (last : List ℕ) × (run_pipe list_pipe 4 two_sent [] ≡ some (values', last))
    × (map (le_bytes 4) values' ≡ map (le_bytes 4) (1000 ∷ []))
    × (last ≡ bytes_of 4 (7 ∷ []))
unfolding run_queue
run_pipe-run_queue_example =
    run_pipe-run_queue list_pipe 4 two_sent (1000 ∷ []) (7 ∷ []) [] (omega arith) refl refl
