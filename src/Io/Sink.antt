-- ===== src/Io/Sink.antt =====
-- The documented behaviour of a writer: `Write` takes the first `count` bytes, and all of them unless
-- it returns an error.
use redeo.Base.{◌≤◌, ◌≡◌, none, ◌++◌, Bytes, length, take}
use redeo.Io.{IoWriter}

pub record IsSink (io : IoWriter) : Type 0 where
  -- the bytes that were sent
  pub sent : io.Snk → Bytes
  pub write-sends :
      (p : Bytes) (s : io.Snk) → sent (io.write p s).next ≡ sent s ++ take (io.write p s).count p
  pub count-le : (p : Bytes) (s : io.Snk) → (io.write p s).count ≤ length p
  pub count-all :
      (p : Bytes) (s : io.Snk) → (io.write p s).error ≡ none → (io.write p s).count ≡ length p

-- The connection takes whatever it is given.
abbrev pub NeverFails : IoWriter → Type 0
NeverFails io = (p : Bytes) (s : io.Snk) → (io.write p s).error ≡ none
