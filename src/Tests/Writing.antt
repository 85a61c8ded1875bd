-- ===== src/Tests/Writing.antt =====
-- The theorems on what is written, and on what is read back, at small inputs.
use redeo.Argument.Progress.{append_argument_progress}
use redeo.Argument.Quoting.{hex_escapes, append_argument-hex_escapes}
use redeo.Argument.{append_argument}
use redeo.Base.{
  ◌+◌, ◌<◌, ◌≡◌, ◌≢◌, refl, none, [], ◌∷◌, ◌++◌, Bytes, codes, arith, length, All, get_elem?, leb,
  if◌then◌else◌, ◌%◌,
}
use redeo.Base.Int.{pos, negsuc, two63, two64}
use redeo.Command.Args.{arg-get_elem?}
use redeo.Command.Slots.{IsClean}
use redeo.Command.{Command, args, arg}
use redeo.Decimal.Scan.{IsDigit, decimal}
use redeo.Decimal.{format_nat, digits, format_int}
use redeo.Errors.{crlf, invalid_bulk_length}
use redeo.Line.Numbers.{parse_size_lem, parse_int-format_int}
use redeo.Line.Trim.{IsBlank, EndsInWord, ends, trim_splits}
use redeo.Line.{value, error, ascii_space, trim, parse_size, parse_int}
use redeo.Monad.{ok}
use redeo.Reader.Window.{IsValid, window, advanced}
use redeo.Reader.{BufioR}
use redeo.Replies.RoundTrip.{read_int-append_int, read_error-append_error}
use redeo.Replies.{read_int, read_error}
use redeo.Request.RoundTrip.{read_cmd-write_cmd}
use redeo.Request.{read_cmd}
use redeo.Tests.{
  reader, reader-IsStream, writer, writer-IsSink, writer-NeverFails, runtime, buffered_with,
  buffered_with-IsValid, room_of,
}
use redeo.Wire.{bulk}
use redeo.Writer.Copy.Branches.{copy_bulk-output}
use redeo.Writer.Flush.{output, flush_ok}
use redeo.Writer.{
  BufioW, append, write_cmd, append_bulk, append_size, append_array_len, append_int, append_error,
  flush, copy_bulk, Both,
}

abbrev idle : BufioW Bytes
idle = room_of []

abbrev pending : BufioW Bytes
pending = record { out = codes "+OK\r\n"; buf = codes ":1\r\n"; spare = [] }

flush_ok_example :
    (w' : BufioW Bytes) × (flush writer pending ≡ ok tt w')
    × (w'.buf ≡ [])
    × (writer-IsSink.sent w'.out ≡ output writer writer-IsSink pending)
    × (length w'.buf + length w'.spare ≡ 4)
flush_ok_example = flush_ok writer writer-IsSink pending refl

some_pending : pending.buf ≢ []
some_pending = cc

abbrev source : Bytes
source = codes "hello, rest"

copy_bulk-output_example :
    (s : Both runtime writer reader) × (copy_bulk runtime writer reader (pos 5) (source, pending)
      ≡ ok tt s)
    × (output writer writer-IsSink s.1
        ≡ output writer writer-IsSink pending ++ bulk (codes "hello"))
    × (reader-IsStream.rest s.0 ≡ codes ", rest")
unfolding reader-IsStream
copy_bulk-output_example =
    copy_bulk-output runtime writer writer-IsSink reader reader-IsStream writer-NeverFails source
      pending (codes "hello") (codes ", rest") refl (omega arith) (omega arith)

-- the bytes of `WriteCmd` as the other side gets them
abbrev sent : Bytes
sent = codes "*2\r\n$3\r\nGET\r\n$3\r\nkey\r\n"

abbrev received : BufioR Bytes
received = buffered_with sent []

received-IsValid : IsValid received
received-IsValid = record {
  r-le-w = omega arith;
  w-le-length = omega arith;
  length-le = omega arith;
}

received-written :
    window received ≡ (write_cmd runtime (codes "GET") (codes "key" ∷ []) idle).buf ++ []
unfolding write_cmd append_bulk append_size append_array_len append format_int format_nat digits
received-written = refl

read_cmd-write_cmd_example :
    (c : Command (Unit {0})) × (read_cmd runtime reader none received
      ≡ ok tt (
        c,
        advanced received (length (write_cmd runtime (codes "GET") (codes "key" ∷ []) idle).buf),
      ))
    × (c.name ≡ codes "GET")
    × (args c ≡ codes "key" ∷ [])
    × IsClean c
read_cmd-write_cmd_example =
    read_cmd-write_cmd runtime reader none (codes "GET") (codes "key" ∷ []) idle received [] refl
      received-IsValid received-written tt (omega arith) (omega arith)

abbrev replies_text : Bytes → BufioR Bytes
replies_text t = buffered_with (t ++ codes "+OK\r\n") []

int_written :
    window (replies_text (codes ":-7\r\n"))
    ≡ (append_int runtime (negsuc 6) idle).buf ++ codes "+OK\r\n"
unfolding append_int append format_int format_nat digits
int_written = refl

read_int-append_int_example :
    read_int runtime reader (replies_text (codes ":-7\r\n"))
    ≡ ok (negsuc 6) (
        advanced (replies_text (codes ":-7\r\n")) (length (append_int runtime (negsuc 6) idle).buf))
read_int-append_int_example =
    read_int-append_int runtime reader idle (replies_text (codes ":-7\r\n")) (codes "+OK\r\n") refl
      (buffered_with-IsValid (codes ":-7\r\n+OK\r\n") [] (omega arith)) (negsuc 6) (omega arith)
      int_written

no-EndsInWord : EndsInWord (codes "no")
unfolding ascii_space
no-EndsInWord = ends (codes "n") b'o' refl

error_written :
    window (replies_text (codes "-no\r\n"))
    ≡ (append_error runtime (codes "no") idle).buf ++ codes "+OK\r\n"
unfolding append_error append
error_written = refl

read_error-append_error_example :
    read_error runtime reader (replies_text (codes "-no\r\n"))
    ≡ ok (codes "no") (
        advanced
          (replies_text (codes "-no\r\n"))
          (length (append_error runtime (codes "no") idle).buf))
read_error-append_error_example =
    read_error-append_error runtime reader idle (replies_text (codes "-no\r\n")) (codes "+OK\r\n")
      refl (buffered_with-IsValid (codes "-no\r\n+OK\r\n") [] (omega arith)) (codes "no")
      (omega arith, (omega arith, tt)) no-EndsInWord error_written

digits_18446744073709551617 : All IsDigit (codes "18446744073709551617")
digits_18446744073709551617 = ground arith

some_digits : codes "18446744073709551617" ≢ []
some_digits = cc

-- 2^64 + 1 is taken for 1.
parse_size_lem_example :
    parse_size (b'$' ∷ codes "18446744073709551617" ++ crlf) b'$' invalid_bulk_length ≡ (
      if leb two63 (decimal 0 (codes "18446744073709551617") % two64)
      then error invalid_bulk_length
      else value (decimal 0 (codes "18446744073709551617") % two64))
parse_size_lem_example =
    parse_size_lem b'$' (codes "18446744073709551617") invalid_bulk_length some_digits
      digits_18446744073709551617

parse_int-format_int_example : parse_int (b':' ∷ format_int (negsuc 6) ++ crlf) ≡ value (negsuc 6)
parse_int-format_int_example = parse_int-format_int (negsuc 6) (omega arith)

trim_splits_example :
    (t : Bytes) × (codes "GET \r\n" ≡ trim (codes "GET \r\n") ++ t)
    × All IsBlank t
    × EndsInWord (trim (codes "GET \r\n"))
trim_splits_example = trim_splits (codes "GET \r\n")

append_argument-hex_escapes_example :
    append_argument [] (b'"' ∷ (hex_escapes (0 ∷ 255 ∷ []) ++ b'"' ∷ codes " x"))
    ≡ (0 ∷ 255 ∷ [], 10)
append_argument-hex_escapes_example =
    append_argument-hex_escapes (0 ∷ 255 ∷ []) (codes " x") (omega arith, (omega arith, tt))

some_text : codes "  \"a b\" c" ≢ []
some_text = cc

append_argument_progress_example : 0 < (append_argument [] (codes "  \"a b\" c")).1
append_argument_progress_example = append_argument_progress (codes "  \"a b\" c") some_text

abbrev two_args : Command (Unit {0})
two_args = record {
  name = codes "SET";
  slots = codes "k" ∷ codes "v" ∷ [] ∷ [];
  len = 2;
  ctx = none;
}

arg-get_elem?_example : arg two_args (pos 2) ≡ get_elem? (args two_args) 2
arg-get_elem?_example = arg-get_elem? two_args 2 refl
