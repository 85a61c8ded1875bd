-- ===== src/Request.antt =====
-- resp/request.go: `RequestReader`, the server's side of a connection.
pub mod AtEnd
pub mod Buffered
pub mod RoundTrip
pub mod Stream
use redeo.Base.{
  ℕ, zero, suc, ◌+◌, Bool, true, false, not, Option, none, some, [], ◌∷◌, Bytes, ltb, ◌==◌,
  if◌then◌else◌, length, replicate,
}
use redeo.Command
use redeo.Command.{Command, S, read_command, new_command, command_target}
use redeo.CommandStream
use redeo.CommandStream.{CommandStream, new_stream, stream_target}
use redeo.Errors.{Error, max_buffer_size, invalid_bulk_length, invalid_multi_bulk_length}
use redeo.Io.{Runtime, IoReader}
use redeo.Line.{first_word, parse_size}
use redeo.Monad.{Outcome, ok, err, panic, timeout, return, fail, ◌>>=◌, ◌>>◌, and_then}
use redeo.Reader.{BufioR, R, reset, of_parsed}
use redeo.Replies.{peek_byte, peek_line, peek_n, read_line, read_array_len, skip_bulk}

-- `NewRequestReader`
unfoldable pub new_request_reader : {Src : Type 0} → Src → BufioR Src
unfolding reset
new_request_reader rd = reset (replicate max_buffer_size 0) rd

module _ {Ctx : Type 0} where
  -- the command that `ReadCmd` reads into: a new one, or the old one after `Reset`
  recycled : Option (Command Ctx) → Command Ctx
  recycled none = new_command
  recycled (some c) = Command.reset c

  recycled_stream : Option (CommandStream Ctx) → CommandStream Ctx
  recycled_stream none = new_stream
  recycled_stream (some c) = CommandStream.reset c

module _ {Ctx : Type 0} (rt : Runtime) (rd : IoReader) where
  open rd use {Src}

  -- `ReadCmd(cmd)`; the command that it returns is the one in the final state
  unfoldable pub read_cmd :
      Option (Command Ctx) → BufioR Src → Outcome Error (Command Ctx × BufioR Src) (Unit {0})
  unfolding recycled
  read_cmd cmd b = read_command rt rd (command_target rt rd) rt.rounds (recycled cmd, b)

  unfoldable pub stream_cmd :
      Option (CommandStream Ctx)
      → BufioR Src
      → Outcome Error (CommandStream Ctx × BufioR Src) (Unit {0})
  unfolding recycled_stream
  stream_cmd cmd b = read_command rt rd (stream_target rt rd) rt.rounds (recycled_stream cmd, b)

module _ (rt : Runtime) (rd : IoReader) where
  open rd use {Src}

  skip_bulks : ℕ → R Src (Unit {0})
  skip_bulks zero = return tt
  skip_bulks (suc n) = do skip_bulk rt rd; skip_bulks n

  -- `SkipCmd`, on fuel: it calls itself on an empty array.
  skip_cmd_in : ℕ → R Src (Unit {0})
  unfolding skip_bulks
  skip_cmd_in zero b = timeout
  skip_cmd_in (suc f) b =
      let again = skip_cmd_in f in
      (do
        c ← peek_byte rt rd
        if not (c == b'*')
            then (do _ ← read_line rt rd; return tt)
            else (do n ← read_array_len rt rd; if ltb n 1 then again else skip_bulks n))
        b

  unfoldable pub skip_cmd : R Src (Unit {0})
  unfolding skip_cmd_in
  skip_cmd = skip_cmd_in rt.rounds

  -- the bulk behind the array's size line, at `offset`
  peek_name : ℕ → R Src Bytes
  peek_name offset = do
    line ← peek_line rt rd offset
    n ← of_parsed (parse_size line b'$' invalid_bulk_length)
    peek_n rt rd (offset + length line) n

  -- `line[0] != '*'`, on a line that may be empty
  is_inline : Bytes → Bool
  is_inline [] = true
  is_inline (c ∷ _) = not (c == b'*')

  -- `peekCmd(offset)`, on fuel: it calls itself on an empty array. An empty line gives the empty name,
  -- which is also its first word.
  peek_cmd_at : ℕ → ℕ → R Src Bytes
  unfolding peek_name is_inline
  peek_cmd_at zero offset b = timeout
  peek_cmd_at (suc f) offset b =
      (do
        line ← peek_line rt rd offset
        let again = peek_cmd_at f (offset + length line)
        if is_inline line then return (first_word line) else (do
          n ← of_parsed (parse_size line b'*' invalid_multi_bulk_length)
          if ltb n 1 then again else peek_name (offset + length line)))
        b

  unfoldable pub peek_cmd : R Src Bytes
  unfolding peek_cmd_at
  peek_cmd = peek_cmd_at rt.rounds 0
