-- ===== src/Tests/Scanning.antt =====
-- The theorems on `Scan`, at small inputs.
use redeo.Base.{
  ◌++◌, ap, sym, ◌≡◌, refl, true, false, none, some, inl, [], ◌∷◌, Bytes, codes, arith, length,
}
use redeo.Base.Int.{ℤ, pos, negsuc}
use redeo.Monad.{ok, err}
use redeo.Line.Trim.{ends}
use redeo.Line.{ascii_space}
use redeo.Scan.ErrorReply.{scan_all-append_error}
use redeo.Scan.Loops.{server_error}
use redeo.Reader.Window.{advanced}
use redeo.Recorder.Decoded.{AreReadable, IsLine}
use redeo.Scan.Receives.{ReceiveEach, pointers}
use redeo.Scan.RoundTrip.{scan_all-append_elements}
use redeo.Value.{
  nil_value, bool, int, bulk_string, slice_value, map_value, Elements, no_elements, element,
  no_pairs, key_value, append_elements,
}
use redeo.Writer.{
  append_error, append_int, append, append_bulk, append_size, append_array_len, append_nil,
}
use redeo.Decimal.{format_int, format_nat}
use redeo.Scan.Assign.{Floats}
use redeo.Scan.Variables.{
  nil_dst, pointer, string_var, bytes_var, bool_var, int_var, slice_var, map_var, nil_map_var, Vars,
  no_vars, var, no_entries, entry,
}
use redeo.Scan.{scan_all}
use redeo.Tests.{reader, runtime, buffered_with, buffered_with-IsValid, room_of}

-- floats of which only whole numbers are known
abbrev floats : Floats
floats = record { Float = ℤ; parse_float = λ w p. none; of_int = λ w z. z }

-- a text, nil, a slice of two integers, and a map from a text to a boolean
abbrev values : Elements Bytes
values = element (bulk_string (codes "a")) (
    element nil_value (
      element (slice_value (element (int (pos 7)) (element (int (negsuc 1)) no_elements))) (
        element (map_value (key_value (bulk_string (codes "k")) (bool true) no_pairs))
          no_elements)))

values-AreReadable : AreReadable runtime 1 values
values-AreReadable = (
  tt,
  (
    tt,
    (
      ((omega arith, omega arith), (omega arith, (omega arith, tt))),
      (((omega arith, omega arith), (tt, tt, tt)), tt),
    ),
  ),
)

-- a string, a `[]byte`, a slice of `int8` with three elements, and a nil map
abbrev variables : Vars ℤ
variables = var (string_var []) (
    var (bytes_var (some [])) (
      var
        (slice_var (int_var 8 (pos 0))
          (var (int_var 8 (pos 1)) (var (int_var 8 (pos 2)) (var (int_var 8 (pos 3)) no_vars))))
        (var (nil_map_var (string_var []) (bool_var false)) no_vars)))

abbrev variables_after : Vars ℤ
variables_after = var (string_var (codes "a")) (
    var (bytes_var none) (
      var
        (slice_var (int_var 8 (pos 0))
          (var (int_var 8 (pos 7)) (var (int_var 8 (negsuc 1)) (var (int_var 8 (pos 3)) no_vars))))
        (var
          (map_var (string_var []) (bool_var false)
            (entry (string_var (codes "k")) (bool_var true) no_entries))
          no_vars)))

values-ReceiveEach : ReceiveEach runtime floats values variables variables_after
values-ReceiveEach = (
  refl,
  (
    refl,
    (
      (
        _,
        refl,
        omega arith,
        (
          _,
          _,
          refl,
          (inl refl, omega arith, refl),
          (_, _, refl, (inl refl, omega arith, refl), refl),
        ),
      ),
      ((_, refl, (_, _, refl, refl, refl)), tt),
    ),
  ),
)

abbrev values_text : Bytes
values_text = codes "$1\r\na\r\n$-1\r\n*2\r\n:7\r\n:-2\r\n*2\r\n$1\r\nk\r\n:1\r\n"

values_written : (append_elements runtime values (room_of [])).buf ≡ values_text
unfolding append_elements append_int append append_bulk append_size format_int format_nat
    append_array_len append_nil
values_written = refl

scan_all-append_elements_example :
    scan_all runtime reader floats 2 (pointers variables) (buffered_with values_text [])
    ≡ ok tt (
      advanced
          (buffered_with values_text [])
          (length (append_elements runtime values (room_of [])).buf),
      pointers variables_after,
    )
scan_all-append_elements_example =
    scan_all-append_elements runtime reader floats 1 values variables variables_after (room_of [])
      (buffered_with values_text []) [] values-AreReadable values-ReceiveEach refl
      (buffered_with-IsValid values_text [] (omega arith)) (sym (ap (λ l. l ++ []) values_written))

abbrev no_text : Bytes
no_text = codes "ERR no"

no_text-IsLine : IsLine no_text
unfolding ascii_space
no_text-IsLine = (
  (omega arith, (omega arith, (omega arith, (omega arith, (omega arith, (omega arith, tt)))))),
  ends (codes "ERR n") b'o' refl,
)

abbrev failing_text : Bytes
failing_text = values_text ++ codes "-ERR no\r\n"

failing_written :
    (append_error runtime no_text (append_elements runtime values (room_of []))).buf ≡ failing_text
unfolding append_elements append_int append append_bulk append_size format_int format_nat
    append_array_len append_nil append_error
failing_written = refl

scan_all-append_error_example :
    scan_all runtime reader floats 2
      (pointers variables ++ pointer (string_var (codes "old")) ∷ nil_dst ∷ [])
      (buffered_with failing_text [])
    ≡ err (server_error no_text) (
      advanced
          (buffered_with failing_text [])
          (length (append_error runtime no_text (append_elements runtime values (room_of []))).buf),
      pointers variables_after ++ pointer (string_var (codes "old")) ∷ nil_dst ∷ [],
    )
scan_all-append_error_example =
    scan_all-append_error runtime reader floats no_text no_text-IsLine
      (pointer (string_var (codes "old"))) (nil_dst ∷ []) 1 values variables variables_after
      (room_of []) (buffered_with failing_text []) [] values-AreReadable values-ReceiveEach refl
      (buffered_with-IsValid failing_text [] (omega arith))
      (sym (ap (λ l. l ++ []) failing_written))
