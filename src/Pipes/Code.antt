-- ===== src/Pipes/Code.antt =====
-- c/thread.c on Linux: `_yrt_read_pipe` and `_yrt_write_pipe`.
use yruntime.Base.{ℕ, ◌≤◌, ◌≡◌, List, ◌++◌, Option, some, leb, guard, ◌>>◌, take, drop, length}
use yruntime.Base.Bytes.{le_bytes, le_value}

-- What `write` and `read` do on a pipe that has room, and that has the bytes that are asked for:
-- the bytes come out in the order in which they went in.
pub record Pipe : Type 1 where
  pub Stream : Type 0
  pub contents : Stream → List ℕ
  pub write : Stream → List ℕ → Stream
  pub read : Stream → ℕ → List ℕ × Stream
  pub contents-write : (s : Stream) (bs : List ℕ) → contents (write s bs) ≡ contents s ++ bs
  pub read-take :
      (s : Stream) (n : ℕ) → n ≤ length (contents s) → (read s n).0 ≡ take n (contents s)
  pub contents-read :
      (s : Stream) (n : ℕ) → n ≤ length (contents s) → contents (read s n).1 ≡ drop n (contents s)

module _ (p : Pipe) where
  open p use {Stream, write, read}

  -- The bytes of the variable `data`; more than its eight have no meaning.
  unfoldable pub write_pipe : Stream → ℕ → ℕ → Option Stream
  write_pipe stream data' size =
      guard (leb size 8) >> some (write stream (take size (le_bytes 8 data')))

  -- `z` are the eight bytes of the variable, which are not initialised.
  unfoldable pub read_pipe : Stream → List ℕ → ℕ → Option (ℕ × Stream)
  read_pipe stream z size =
      guard (leb size 8)
      >> (let (bytes, stream') = read stream size in
          some (le_value (bytes ++ drop (length bytes) z), stream'))
