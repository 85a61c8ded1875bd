-- ===== src/Server/Pipeline.antt =====
-- client.go: `pipeline` on a buffer that holds several requests.
use redeo.Base.{
  ℕ, zero, suc, ◌*◌, ◌≤◌, ◌<◌, ◌≡◌, refl, ap, sym, ◌∙◌, true, false, Bool, List, [], ◌∷◌, ◌++◌,
  Bytes, arith, length, All, length-append, append_assoc, append-nil, if◌then◌else◌,
}
use redeo.Io.Sink.{IsSink, NeverFails}
use redeo.Io.{Runtime, IoReader, IoWriter}
use redeo.Monad.{ok, and_then-ok}
use redeo.Reader.Window.{
  IsValid, window, buffered-window, advanced_append-IsValid, window-advanced_append,
}
use redeo.Reader.{BufioR, buffered}
use redeo.Request.Buffered.{IsRecyclable, peek_cmd_buffered}
use redeo.Request.{peek_cmd}
use redeo.Server.Perform.{Answers, Performed, perform_buffered}
use redeo.Server.{Cmds, Session, Env, perform, pipeline, is_zero}
use redeo.Wire.{request, le-length-request}
use redeo.Writer.Flush.{output}

-- A command with its arguments, and the reply to it.
pub record Exchange : Type 0 where
  pub name : Bytes
  pub args : List Bytes
  pub reply : Bytes

abbrev pub requests : List Exchange → Bytes
requests [] = []
requests (x ∷ xs) = request x.name x.args ++ requests xs

abbrev pub replies : List Exchange → Bytes
replies [] = []
replies (x ∷ xs) = x.reply ++ replies xs

module _ {Ctx : Type 0} (rt : Runtime) (rd : IoReader) (wr : IoWriter) (sk : IsSink wr)
    (good : NeverFails wr) (env : Env Ctx) (cmds : Cmds Ctx rd.Src wr.Snk) where
  open rd use {Src}
  open wr use {Snk}

  -- The server knows how to answer, and the array of the arguments can be made.
  abbrev pub IsServed : Exchange → Type 0
  IsServed x =
      Answers rt rd wr sk good env cmds x.name x.args x.reply × (24 * length x.args ≤ rt.max_alloc)

  -- one round of the loop
  round :
      (f : ℕ) (s s' : Session Ctx Src Snk) (name : Bytes)
      → peek_cmd rt rd s.rd ≡ ok name s.rd
      → perform rt rd wr env cmds name s ≡ ok tt s'
      → pipeline rt rd wr env cmds (suc f) s
        ≡ (if is_zero (buffered s'.rd) then ok tt s' else pipeline rt rd wr env cmds f s')
  unfolding pipeline
  round f s s' name peeks performs = rw (peeks, pipeline) (and_then-ok _ performs refl)

  last_round : (b : BufioR Src) → IsValid b → window b ≡ [] → is_zero (buffered b) ≡ true
  last_round b v e = rw (buffered-window b v, e) refl

  more_rounds : (b : BufioR Src) → IsValid b → 0 < length (window b) → is_zero (buffered b) ≡ false
  more_rounds b v h = rw (buffered-window b v) (ground arith)

  -- What the pipeline leaves: all replies in order, and nothing unread.
  pub record Served (xs : List Exchange) (s s' : Session Ctx Src Snk) : Type 0 where
    pub replied : output wr sk s'.wr ≡ output wr sk s.wr ++ replies xs
    pub all_read : window s'.rd ≡ []
    pub valid : IsValid s'.rd
    pub clean : IsRecyclable s'.cmd
    pub same_source : s'.rd.rd ≡ s.rd.rd
    pub same_buf : s'.rd.buf ≡ s.rd.buf

  -- the reader behind a request that was performed
  behind :
      (x : Exchange) (more : Bytes) (s s' : Session Ctx Src Snk)
      → IsValid s.rd
      → window s.rd ≡ request x.name x.args ++ more
      → Performed rt rd wr sk good env cmds x.name x.args x.reply s s'
      → IsValid s'.rd × (window s'.rd ≡ more)
  behind x more s s' v e m = (
    rw m.read (advanced_append-IsValid s.rd (request x.name x.args) more v e),
    ap window m.read ∙ window-advanced_append s.rd (request x.name x.args) more v e,
  )

  -- Let the connection take all it is given, let a valid reader hold the requests of `x ∷ xs` and
  -- nothing else, let the kept command have nothing in its spare slots, and let the server answer
  -- each command with the listed reply (the error line for a command with no handler, what a plain
  -- handler always appends for one with a handler; stream handlers are left out), with arrays for
  -- the arguments that can be made. Then `pipeline` ends without an error in as many rounds as
  -- there are requests, the replies stand behind what the writer had, in the order of the requests,
  -- everything is read, and the reader and the kept command can be used on.
  pub pipeline_buffered :
      (x : Exchange) (xs : List Exchange) (f : ℕ) (s : Session Ctx Src Snk)
      → All IsServed (x ∷ xs)
      → IsValid s.rd
      → window s.rd ≡ requests (x ∷ xs)
      → IsRecyclable s.cmd
      → length (x ∷ xs) ≤ f
      → 0 < rt.rounds
      → (s' : Session Ctx Src Snk) × (pipeline rt rd wr env cmds f s ≡ ok tt s')
        × Served (x ∷ xs) s s'
  pipeline_buffered x xs zero s served v e clean enough fuel = elim enough [ ]
  pipeline_buffered x [] (suc f) s ((a, alloc), _) v e clean enough fuel =
      let (s', performs, m) =
        perform_buffered rt rd wr sk good env cmds x.name x.args x.reply s [] v e clean alloc fuel
          a in
      let (v', rest) = behind x [] s s' v e m in
      (
        s',
        round f s s' x.name (peek_cmd_buffered rt rd x.name x.args s.rd [] v e fuel) performs
            ∙ ap (λ (z : Bool). if z then ok tt s' else pipeline rt rd wr env cmds f s')
                (last_round s'.rd v' rest),
        record {
          replied = m.replied ∙ ap (◌++◌ (output wr sk s.wr)) (sym (append-nil x.reply));
          all_read = rest;
          valid = v';
          clean = m.clean;
          same_source = ap (λ b. b.rd) m.read;
          same_buf = ap (λ b. b.buf) m.read;
        },
      )
  pipeline_buffered x (y ∷ ys) (suc f) s ((a, alloc), served) v e clean enough fuel =
      let (s', performs, m) =
        perform_buffered rt rd wr sk good env cmds x.name x.args x.reply s (requests (y ∷ ys)) v e
          clean alloc fuel a in
      let (v', rest) = behind x (requests (y ∷ ys)) s s' v e m in
      let (t, runs, r) = pipeline_buffered y ys f s' served v' rest m.clean (omega arith) fuel in
      (
        t,
        round f s s' x.name
              (peek_cmd_buffered rt rd x.name x.args s.rd (requests (y ∷ ys)) v e fuel) performs
            ∙ ap (λ (z : Bool). if z then ok tt s' else pipeline rt rd wr env cmds f s')
                (more_rounds s'.rd v' (
                  omega (
                    arith,
                    ap length rest,
                    length-append (request y.name y.args) (requests ys),
                    le-length-request y.name y.args,
                  )))
            ∙ runs,
        record {
          replied =
              r.replied
              ∙ ap (λ l. l ++ replies (y ∷ ys)) m.replied
              ∙ append_assoc (output wr sk s.wr) x.reply (replies (y ∷ ys));
          all_read = r.all_read;
          valid = r.valid;
          clean = r.clean;
          same_source = r.same_source ∙ ap (λ b. b.rd) m.read;
          same_buf = r.same_buf ∙ ap (λ b. b.buf) m.read;
        },
      )
