-- ===== src/Replies/AtEnd.antt =====
-- resp/bufio.go: `PeekLine` at the end of the input.
use redeo.Base.{◌+◌, ◌≡◌, ap, ◌∙◌, none, arith, length, le→ltb_false, refl}
use redeo.Errors.{eof}
use redeo.Io.{Runtime, IoReader}
use redeo.Monad.{err}
use redeo.Reader.AtEnd.{IsAtEnd, fill_eof}
use redeo.Reader.Window.{length-window}
use redeo.Reader.{BufioR}
use redeo.Replies.{find_return, peek_line, peek_line_in}

module _ (rt : Runtime) (rd : IoReader) where
  open rd use {Src}

  nothing_found : (b : BufioR Src) → IsAtEnd rd b → find_return (b.r + 0) b ≡ none
  unfolding find_return
  nothing_found b h =
      rw (le→ltb_false (b.r + 0) b.w (omega (arith, length-window b h.valid, ap length h.empty)))
        refl

  pub peek_line_eof :
      (b : BufioR Src)
      → IsAtEnd rd b
      → (b' : BufioR Src) × (peek_line rt rd 0 b ≡ err eof b') × IsAtEnd rd b'
  unfolding peek_line peek_line_in
  peek_line_eof b h =
      let (b', e, h') = fill_eof rt rd b h in
      (b', ap (λ o. peek_line_in rt rd 0 o b) (nothing_found b h) ∙ rw e, h')
