-- ===== src/Tests/Reading.antt =====
-- The theorems on what is read, at small inputs.
use redeo.Base.{
  ◌+◌, suc, true, false, some, ◌≡◌, refl, none, [], ◌∷◌, ◌++◌, Bytes, codes, arith, length,
}
use redeo.Base.Int.{pos, negsuc}
use redeo.BulkReader.Count.{read_bulk_part_count}
use redeo.BulkReader.Reads.{reads, stream_bulk-close}
use redeo.BulkReader.{stream_bulk, close, read_bulk_part}
use redeo.Command.Slots.{IsClean}
use redeo.Command.{new_command, Command, args}
use redeo.CommandStream
use redeo.CommandStream.Discard.{discard_buffered}
use redeo.CommandStream.{CommandStream}
use redeo.Decimal.{format_nat, digits}
use redeo.Errors.{crlf}
use redeo.Monad.{ok, panic, and_then}
use redeo.Reader.Require.{require_stream, pending, Buffers}
use redeo.Reader.Window.{IsValid, window, advanced}
use redeo.Reader.{BufioR, slice, require}
use redeo.Replies.Bulk.{skip_bulk_buffered}
use redeo.Replies.BulkStream.{read_bulk_stream}
use redeo.Replies.Cut.{read_line_cut, read_bulk_string_overflow}
use redeo.Replies.{read_bulk, read_line, read_bulk_string, skip_bulk}
use redeo.Request.Buffered.{read_cmd_buffered, peek_cmd_buffered, skip_cmd_buffered}
use redeo.Request.{read_cmd, peek_cmd, skip_cmd}
use redeo.Request.Stream.{stream_cmd-discard}
use redeo.Request.{stream_cmd}
use redeo.Tests.{reader, reader-IsStream, runtime, buffered_with}
use redeo.Wire.{bulks, request, bulk, size_text, size_line}

abbrev get_key : Bytes
get_key = codes "*2\r\n$3\r\nGET\r\n$3\r\nkey\r\nrest"

abbrev buffer : BufioR Bytes
buffer = buffered_with get_key []

buffer-IsValid : IsValid buffer
buffer-IsValid = record { r-le-w = omega arith; w-le-length = omega arith; length-le = omega arith }

get_key-request : window buffer ≡ request (codes "GET") (codes "key" ∷ []) ++ codes "rest"
unfolding format_nat digits
get_key-request = refl

read_cmd_buffered_example :
    (c : Command (Unit {0})) × (read_cmd runtime reader none buffer
      ≡ ok tt (c, advanced buffer (length (request (codes "GET") (codes "key" ∷ [])))))
    × (c.name ≡ codes "GET")
    × (args c ≡ codes "key" ∷ [])
    × (c.len ≡ 1)
    × IsClean c
read_cmd_buffered_example =
    read_cmd_buffered runtime reader none (codes "GET") (codes "key" ∷ []) buffer (codes "rest")
      buffer-IsValid get_key-request tt (omega arith) (omega arith)

peek_cmd_buffered_example : peek_cmd runtime reader buffer ≡ ok (codes "GET") buffer
peek_cmd_buffered_example =
    peek_cmd_buffered runtime reader (codes "GET") (codes "key" ∷ []) buffer (codes "rest")
      buffer-IsValid get_key-request (omega arith)

skip_cmd_buffered_example :
    skip_cmd runtime reader buffer
    ≡ ok tt (advanced buffer (length (request (codes "GET") (codes "key" ∷ []))))
skip_cmd_buffered_example =
    skip_cmd_buffered runtime reader (codes "GET") (codes "key" ∷ []) buffer (codes "rest")
      buffer-IsValid get_key-request (omega arith)

-- a bulk of five bytes, two of them buffered
abbrev half : BufioR Bytes
half = buffered_with (codes "$5\r\nhe") (codes "llo\r\nmore")

half-IsValid : IsValid half
half-IsValid = record { r-le-w = omega arith; w-le-length = omega arith; length-le = omega arith }

require_stream_example :
    (b' : BufioR Bytes) × (require runtime reader (pos 9) half ≡ ok tt b')
    × Buffers reader reader-IsStream 9 half b'
unfolding reader-IsStream
require_stream_example =
    require_stream runtime reader reader-IsStream half 9 half-IsValid (omega arith) (omega arith)
      (omega arith) (omega arith)

half-bulk : window half ≡ size_text b'$' 5 ++ (crlf ++ codes "he")
unfolding format_nat digits
half-bulk = refl

read_bulk_stream_example :
    (b' : BufioR Bytes) × (read_bulk runtime reader [] half ≡ ok (codes "hello") b')
    × IsValid b'
    × (pending reader reader-IsStream b' ≡ codes "more")
unfolding reader-IsStream
read_bulk_stream_example =
    read_bulk_stream runtime reader reader-IsStream half [] (codes "hello") (codes "he")
      (codes "more") half-IsValid half-bulk refl (omega arith) (omega arith) (omega arith)

abbrev one_bulk : BufioR Bytes
one_bulk = buffered_with (codes "$2\r\nhi\r\n+OK\r\n") []

one_bulk-IsValid : IsValid one_bulk
one_bulk-IsValid = record {
  r-le-w = omega arith;
  w-le-length = omega arith;
  length-le = omega arith;
}

one_bulk-bulk : window one_bulk ≡ bulk (codes "hi") ++ codes "+OK\r\n"
unfolding format_nat digits
one_bulk-bulk = refl

skip_bulk_buffered_example :
    skip_bulk runtime reader one_bulk ≡ ok tt (advanced one_bulk (length (bulk (codes "hi"))))
skip_bulk_buffered_example =
    skip_bulk_buffered runtime reader one_bulk (codes "hi") (codes "+OK\r\n") one_bulk-IsValid
      one_bulk-bulk

-- The line `PING`, without its LF, in an array with room for it.
abbrev cut_line : BufioR Bytes
cut_line = record { rd = codes "\n"; buf = codes "PING\r........"; r = 0; w = 5 }

cut_line-IsValid : IsValid cut_line
cut_line-IsValid = record {
  r-le-w = omega arith;
  w-le-length = omega arith;
  length-le = omega arith;
}

read_line_cut_example :
    (read_line runtime reader cut_line ≡ ok (codes "PING\r.") (advanced cut_line 6))
    × (cut_line.r + (length (codes "PING") + 2) ≡ suc cut_line.w)
    × (require runtime reader (pos 1) (advanced cut_line 6) ≡ panic)
read_line_cut_example =
    read_line_cut runtime reader cut_line (codes "PING") 1 cut_line-IsValid refl
      (omega arith, (omega arith, (omega arith, (omega arith, tt)))) (omega arith) (omega arith)
      (omega arith)

abbrev huge : BufioR Bytes
huge = buffered_with (codes "$9223372036854775807\r\n") []

huge-IsValid : IsValid huge
huge-IsValid = record { r-le-w = omega arith; w-le-length = omega arith; length-le = omega arith }

huge-size : window huge ≡ size_line b'$' 9223372036854775807
unfolding format_nat digits
huge-size = refl

read_bulk_string_overflow_example : read_bulk_string runtime reader huge ≡ panic
read_bulk_string_overflow_example =
    read_bulk_string_overflow runtime reader huge 9223372036854775807 huge-IsValid huge-size
      (omega arith) (omega arith)

stream_bulk-close_example :
    and_then
      (stream_bulk runtime reader one_bulk)
      (λ br s. and_then (reads runtime reader (1 ∷ 2 ∷ []) br s) (close runtime reader))
    ≡ ok (record { n = pos 0 }) (advanced one_bulk (length (bulk (codes "hi"))))
stream_bulk-close_example =
    stream_bulk-close runtime reader (1 ∷ 2 ∷ []) one_bulk (codes "hi") (codes "+OK\r\n")
      one_bulk-IsValid one_bulk-bulk

-- the body of a bulk that has five bytes left, and its CRLF
abbrev in_body : BufioR Bytes
in_body = buffered_with (codes "hello\r\n+OK\r\n") []

in_body-IsValid : IsValid in_body
in_body-IsValid = record {
  r-le-w = omega arith;
  w-le-length = omega arith;
  length-le = omega arith;
}

read_bulk_part_count_example :
    read_bulk_part runtime reader (record { n = pos 7 }) 6 in_body
    ≡ ok
        (record {
          count = pos 5;
          error = none;
          written = codes "hello\r";
          next = record { n = pos 1 };
        })
        (advanced in_body 6)
read_bulk_part_count_example =
    read_bulk_part_count runtime reader in_body 7 6 in_body-IsValid (omega arith) (omega arith)

-- With one byte of the bulk left, the count is -1.
read_bulk_part_minus :
    read_bulk_part runtime reader (record { n = pos 1 }) 6 (buffered_with (codes "\n+OK\r\n") [])
    ≡ ok
        (record {
          count = negsuc 0;
          error = none;
          written = codes "\n";
          next = record { n = pos 0 };
        })
        (record (buffered_with (codes "\n+OK\r\n") []) { r = 1 })
unfolding read_bulk_part slice
read_bulk_part_minus = refl

stream_cmd-discard_example :
    (c : CommandStream (Unit {0})) × (and_then
        (stream_cmd runtime reader none buffer)
        (λ _ s. CommandStream.discard runtime reader (λ _. none) s)
      ≡ ok none (c, advanced buffer (length (request (codes "GET") (codes "key" ∷ [])))))
    × (c.name ≡ codes "GET")
    × (c.nargs ≡ 1)
    × (CommandStream.more c ≡ false)
stream_cmd-discard_example =
    stream_cmd-discard runtime reader (λ _. none) none (codes "GET") (codes "key" ∷ []) buffer
      (codes "rest") buffer-IsValid get_key-request (omega arith)

-- `key` is open, and `e`, `y` and its CRLF are unread; one more argument follows.
abbrev open_key : CommandStream (Unit {0})
open_key = record {
  name = codes "SET";
  ctx = none;
  inline = new_command;
  is_inline = false;
  nargs = 2;
  pos = 1;
  arg = some (record { n = pos 4 });
  attached = true;
}

abbrev behind_k : BufioR Bytes
behind_k = buffered_with (codes "ey\r\n$2\r\nhi\r\n+OK\r\n") []

behind_k-IsValid : IsValid behind_k
behind_k-IsValid = record {
  r-le-w = omega arith;
  w-le-length = omega arith;
  length-le = omega arith;
}

behind_k-bulks : window behind_k ≡ codes "ey\r\n" ++ (bulks (codes "hi" ∷ []) ++ codes "+OK\r\n")
unfolding format_nat digits
behind_k-bulks = refl

discard_buffered_example :
    CommandStream.discard runtime reader (λ _. none) (open_key, behind_k)
    ≡ ok none (
      record open_key { arg = none; pos = 2 },
      advanced behind_k (length (codes "ey\r\n" ++ bulks (codes "hi" ∷ []))),
    )
discard_buffered_example =
    discard_buffered runtime reader (λ _. none) (codes "ey\r\n") (codes "hi" ∷ []) open_key behind_k
      (codes "+OK\r\n") behind_k-IsValid behind_k-bulks refl refl refl refl
