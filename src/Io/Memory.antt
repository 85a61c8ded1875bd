-- ===== src/Io/Memory.antt =====
-- `bytes.Reader` and `bytes.Buffer` of Go's package bytes, as an `io.Reader` and an `io.Writer`.
use redeo.Base.{refl, sym, ap, arith, Option, none, some, [], ◌∷◌, ◌++◌, Bytes, length, take, drop}
use redeo.Errors.{Error, eof}
use redeo.Base.Slices.{take_all}
use redeo.Io.Sink.{IsSink}
use redeo.Io.{IoReader, IoWriter}

-- `Read` at the end of the input
abbrev pub end_error : Bytes → Option Error
end_error [] = some eof
end_error (_ ∷ _) = none

-- `bytes.Reader`: the bytes that are left
abbrev pub bytes_reader : IoReader
bytes_reader = record {
  Src = Bytes;
  read = λ n s. record { bytes = take n s; error = end_error s; next = drop n s };
}

-- `bytes.Buffer`: the bytes written
abbrev pub bytes_buffer : IoWriter
bytes_buffer = record {
  Snk = Bytes;
  write = λ p s. record { count = length p; error = none; next = s ++ p };
}

unfoldable pub bytes_buffer-IsSink : IsSink bytes_buffer
bytes_buffer-IsSink = record {
  sent = λ s. s;
  write-sends = λ p s. ap (◌++◌ s) (sym (take_all (length p) p (omega arith)));
  count-le = λ p s. omega arith;
  count-all = λ p s h. refl;
}
