-- ===== src/Request/AtEnd.antt =====
-- resp/request.go: `PeekCmd` and `SkipCmd` at the end of the input.
use redeo.Base.{ℕ, zero, suc, ◌<◌, ◌≡◌}
use redeo.Base.Int.{pos}
use redeo.Errors.{eof}
use redeo.Io.{Runtime, IoReader}
use redeo.Monad.{err}
use redeo.Reader.AtEnd.{IsAtEnd, require_eof}
use redeo.Reader.{BufioR, require}
use redeo.Replies.AtEnd.{peek_line_eof}
use redeo.Replies.{peek_byte, peek_line}
use redeo.Request.{peek_cmd_at, peek_cmd, skip_cmd_in, skip_cmd}

module _ (rt : Runtime) (rd : IoReader) where
  open rd use {Src}

  pub peek_cmd_eof :
      (b : BufioR Src)
      → IsAtEnd rd b
      → 0 < rt.rounds
      → (b' : BufioR Src) × (peek_cmd rt rd b ≡ err eof b') × IsAtEnd rd b'
  unfolding peek_cmd
  peek_cmd_eof b h fuel = let (b', e, h') = peek_line_eof rt rd b h in (b', go rt.rounds fuel e, h')
    where
      go :
          (f : ℕ)
          → 0 < f
          → {b' : BufioR Src} → peek_line rt rd 0 b ≡ err eof b'
          → peek_cmd_at rt rd f 0 b ≡ err eof b'
      go zero h e = elim h [ ]
      go (suc f) h e = rw e

  pub skip_cmd_eof :
      (b : BufioR Src)
      → IsAtEnd rd b
      → 0 < rt.rounds
      → (b' : BufioR Src) × (skip_cmd rt rd b ≡ err eof b') × IsAtEnd rd b'
  unfolding skip_cmd peek_byte
  skip_cmd_eof b h fuel =
      let (b', e, h') = require_eof rt rd b h fuel in (b', go rt.rounds fuel e, h')
    where
      go :
          (f : ℕ)
          → 0 < f
          → {b' : BufioR Src} → require rt rd (pos 1) b ≡ err eof b'
          → skip_cmd_in rt rd f b ≡ err eof b'
      go zero h e = elim h [ ]
      go (suc f) h e = rw e
