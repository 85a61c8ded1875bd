-- ===== src/Tests.antt =====
-- A connection on which the theorems are tried: the bytes to come and the bytes sent are lists.
pub mod Reading
pub mod Writing
pub mod Serving
pub mod Broker
pub mod Recording
pub mod Registries
pub mod Scanning
use redeo.Base.{
  leb, ◌&&◌, if◌then◌else◌, ℕ, zero, suc, ◌+◌, ◌-◌, ◌≤◌, ◌<◌, ◌≡◌, refl, sym, ◌∙◌, ap, Option, none,
  some, List, [], ◌∷◌, ◌++◌, Bytes, arith, length, take, drop, length-take, append-nil,
}
use redeo.Base.Slices.{take-append-drop, take_all}
use redeo.Errors.{Error, eof}
use redeo.Io.Sink.{IsSink, NeverFails}
use redeo.Io.Memory.{end_error, bytes_reader, bytes_buffer}
unfoldable pub use redeo.Io.Memory.{bytes_buffer-IsSink as writer-IsSink}
use redeo.Io.Stream.{IsStream}
use redeo.Io.{Runtime, Chunk, IoReader, Wrote, IoWriter}
use redeo.Reader.Window.{IsValid}
use redeo.Reader.{BufioR}
use redeo.Writer.{BufioW}

abbrev pub reader : IoReader
reader = bytes_reader

abbrev pub writer : IoWriter
writer = bytes_buffer

-- a connection that takes nothing
abbrev pub failing : IoWriter
failing = record { Snk = Bytes; write = λ p s. record { count = 0; error = some eof; next = s } }

abbrev pub runtime : Runtime
runtime = record { max_alloc = 1000000; grown = λ n. n; rounds = 1000 }

progress : (n : ℕ) (s : Bytes) → 0 < n → 0 < length s → 0 < length (take n s)
progress n s h k = omega (arith, length-take n s)

no_error : (n : ℕ) (s : Bytes) → 0 < length (drop n s) → end_error s ≡ none
no_error zero [] h = elim h [ ]
no_error (suc n) [] h = elim h [ ]
no_error n (x ∷ s) h = refl

only_eof : (s : Bytes) {e : Error} → end_error s ≡ some e → e ≡ eof
only_eof [] h = cc
only_eof (x ∷ s) h = cc

pub reader-IsStream : IsStream reader
reader-IsStream = record {
  rest = λ s. s;
  read-splits = λ n s. sym (take-append-drop n s);
  read-fits = λ n s. omega (arith, length-take n s);
  read-progress = progress;
  read-no_error = no_error;
  read-only_eof = λ n s {e} h. only_eof s h;
}

pub failing-IsSink : IsSink failing
failing-IsSink = record {
  sent = λ s. s;
  write-sends = λ p s. sym (append-nil s);
  count-le = λ p s. omega arith;
  count-all = λ p s h. cc;
}

pub writer-NeverFails : NeverFails writer
writer-NeverFails p s = refl

-- a reader with these bytes in its array and those still to come
abbrev pub buffered_with : Bytes → Bytes → BufioR Bytes
buffered_with unread rest = record { rd = rest; buf = unread; r = 0; w = length unread }

-- a writer with nothing pending, and room for `n` bytes
abbrev pub room_of : Bytes → BufioW Bytes
room_of spare = record { out = []; buf = []; spare = spare }

pub buffered_with-IsValid :
    (unread rest : Bytes) → length unread ≤ 1000 → IsValid (buffered_with unread rest)
buffered_with-IsValid unread rest h = record {
  r-le-w = omega arith;
  w-le-length = omega arith;
  length-le = omega (arith, h);
}

-- ASCII lower case
abbrev pub lower : Bytes → Bytes
lower [] = []
lower (c ∷ cs) = (if leb b'A' c && leb c b'Z' then c + 32 else c) ∷ lower cs
