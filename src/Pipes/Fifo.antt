-- ===== src/Pipes/Fifo.antt =====
-- c/thread.c: a pipe is a queue of the values that are written to it.
use mathlib.Core.Path.{ap₂, subst}
use yruntime.Base.{
  ℕ, ◌≤◌, ◌≡◌, refl, sym, ap, ◌∙◌, List, [], ◌∷◌, ◌++◌, map, append-nil, append_assoc, Option, none,
  some, Option-cases, inl, inr, le→leb, ◌>>=◌, take, drop, length, length-append,
  take-append_length, drop-append_length, arith,
}
use yruntime.Base.Bytes.{le_bytes, le_value, length-le_bytes, take-le_bytes, le_bytes-le_value}
use yruntime.Pipes.Code.{Pipe, write_pipe, read_pipe}

-- A write of a value, or a read into a variable with bytes of its own.
pub data Event : Type 0 where
  send : ℕ → Event
  receive : List ℕ → Event

-- The values of a queue as bytes, so many of each.
abbrev pub bytes_of : ℕ → List ℕ → List ℕ
bytes_of size [] = []
bytes_of size (v ∷ vs) = le_bytes size v ++ bytes_of size vs

bytes_of-append :
    (size : ℕ) (vs : List ℕ) (v : ℕ)
    → bytes_of size vs ++ le_bytes size v ≡ bytes_of size (vs ++ v ∷ [])
bytes_of-append size [] v = sym (append-nil (le_bytes size v))
bytes_of-append size (x ∷ vs) v =
    append_assoc (le_bytes size x) (bytes_of size vs) (le_bytes size v)
    ∙ ap (λ bs. le_bytes size x ++ bs) (bytes_of-append size vs v)

-- The values that the reads give, from a queue; a read of an empty queue waits for ever.
unfoldable pub run_queue : List Event → List ℕ → Option (List ℕ × List ℕ)
run_queue [] queue = some ([], queue)
run_queue (send v ∷ events) queue = run_queue events (queue ++ v ∷ [])
run_queue (receive z ∷ events) [] = none
run_queue (receive z ∷ events) (v ∷ queue) =
    run_queue events queue >>= λ (values, queue'). some (v ∷ values, queue')

module _ (p : Pipe) (size : ℕ) where
  open p use {Stream, contents, contents-write, read, read-take, contents-read}

  -- The same calls on the pipe.
  unfoldable pub run_pipe : List Event → Stream → Option (List ℕ × Stream)
  run_pipe [] stream = some ([], stream)
  run_pipe (send v ∷ events) stream = write_pipe p stream v size >>= run_pipe events
  run_pipe (receive z ∷ events) stream = do
    (v, stream') ← read_pipe p stream z size
    (values, last) ← run_pipe events stream'
    some (v ∷ values, last)

  write_pipe-bytes :
      (stream : Stream) (v : ℕ) (queue : List ℕ)
      → size ≤ 8
      → contents stream ≡ bytes_of size queue
      → (stream' : Stream) × (write_pipe p stream v size ≡ some stream')
        × (contents stream' ≡ bytes_of size (queue ++ v ∷ []))
  unfolding write_pipe
  write_pipe-bytes stream v queue small held = (
    _,
    rw (le→leb size 8 small) refl,
    contents-write stream (take size (le_bytes 8 v))
        ∙ ap₂ (λ front back. front ++ back) held (take-le_bytes size 8 v small)
        ∙ bytes_of-append size queue v,
  )

  read_pipe-bytes :
      (stream : Stream) (z : List ℕ) (v : ℕ) (queue : List ℕ)
      → size ≤ 8
      → contents stream ≡ bytes_of size (v ∷ queue)
      → (w : ℕ) × (stream' : Stream) × (read_pipe p stream z size ≡ some (w, stream'))
        × (le_bytes size w ≡ le_bytes size v)
        × (contents stream' ≡ bytes_of size queue)
  unfolding read_pipe
  read_pipe-bytes stream z v queue small held =
      let bytes = le_bytes size v in
      let rest = bytes_of size queue in
      let same = length-le_bytes size v in
      let enough : size ≤ length (contents stream) =
        omega (arith, ap length held, length-append bytes rest) in
      let came =
        read-take stream size enough
        ∙ ap (take size) held
        ∙ subst (λ n. take n (bytes ++ rest) ≡ bytes) same (take-append_length bytes rest) in
      (
        le_value (bytes ++ drop (length bytes) z),
        (read stream size).1,
        rw (le→leb size 8 small, came) refl,
        (le_bytes-le_value size v (drop (length bytes) z)),
        contents-read stream size enough
            ∙ ap (drop size) held
            ∙ subst (λ n. drop n (bytes ++ rest) ≡ rest) same (drop-append_length bytes rest),
      )

  run_pipe_queue :
      (events : List Event) (queue values queue' : List ℕ) (stream : Stream)
      → size ≤ 8
      → contents stream ≡ bytes_of size queue
      → run_queue events queue ≡ some (values, queue')
      → (values' : List ℕ) × (last : Stream) × (run_pipe events stream ≡ some (values', last))
        × (map (le_bytes size) values' ≡ map (le_bytes size) values)
        × (contents last ≡ bytes_of size queue')
  unfolding run_pipe run_queue
  run_pipe_queue [] queue values queue' stream small held run =
      ([], stream, refl, cc, held ∙ ap (bytes_of size) (cc))
  run_pipe_queue (send v ∷ events) queue values queue' stream small held run =
      let (stream', done, held') = write_pipe-bytes stream v queue small held in
      rw done (run_pipe_queue events (queue ++ v ∷ []) values queue' stream' small held' run)
  run_pipe_queue (receive z ∷ events) [] values queue' stream small held run = cc
  run_pipe_queue (receive z ∷ events) (v ∷ queue) values queue' stream small held run =
      let (w, stream', got, low, held') = read_pipe-bytes stream z v queue small held in
      elim (Option-cases (run_queue events queue)) [
        | inl stuck ↦ absurd (cc (rw stuck at run))
        | inr ((rest, left), done) ↦
            let ends : some (v ∷ rest, left) ≡ some (values, queue') = rw done at run in
            let out : v ∷ rest ≡ values = cc in
            let kept : left ≡ queue' = cc in
            let (values', last, ran, lows, held'') =
              run_pipe_queue events queue rest left stream' small held' done in
            (
              w ∷ values',
              last,
              rw (got, ran) refl,
              ap₂ (λ b bs. b ∷ bs) low lows ∙ ap (map (le_bytes size)) out,
              held'' ∙ ap (bytes_of size) kept,
            )
      ]

-- For values of so many bytes, eight at most, and a pipe with room: any writes and reads, in an
-- order in which no read finds the pipe empty, give the values in the order in which they were
-- written, by their lowest bytes, whatever the variables of the reads held, and leave the bytes of
-- the values that are not read yet.
pub run_pipe-run_queue :
    (p : Pipe) (size : ℕ) (events : List Event) (values queue : List ℕ) (stream : p.Stream)
    → size ≤ 8
    → p.contents stream ≡ []
    → run_queue events [] ≡ some (values, queue)
    → (values' : List ℕ) × (last : p.Stream) × (run_pipe p size events stream
        ≡ some (values', last))
      × (map (le_bytes size) values' ≡ map (le_bytes size) values)
      × (p.contents last ≡ bytes_of size queue)
run_pipe-run_queue p size events values queue stream small empty run =
    run_pipe_queue p size events [] values queue stream small empty run
