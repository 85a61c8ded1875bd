-- ===== src/Io/Stream.antt =====
-- The documented behaviour of a reader whose bytes come from a connection that does not break:
-- `Read` fills a prefix of the slice, makes progress, and reports an error only at the end.
use redeo.Base.{ℕ, ◌<◌, ◌≤◌, ◌≡◌, none, some, ◌++◌, Bytes, length}
use redeo.Errors.{Error, eof}
use redeo.Io.{IoReader}

pub record IsStream (io : IoReader) : Type 0 where
  -- the bytes that are still to come
  pub rest : io.Src → Bytes
  pub read-splits : (n : ℕ) (s : io.Src) → rest s ≡ (io.read n s).bytes ++ rest (io.read n s).next
  pub read-fits : (n : ℕ) (s : io.Src) → length (io.read n s).bytes ≤ n
  pub read-progress :
      (n : ℕ) (s : io.Src) → 0 < n → 0 < length (rest s) → 0 < length (io.read n s).bytes
  pub read-no_error :
      (n : ℕ) (s : io.Src) → 0 < length (rest (io.read n s).next) → (io.read n s).error ≡ none
  pub read-only_eof : (n : ℕ) (s : io.Src) {e : Error} → (io.read n s).error ≡ some e → e ≡ eof
