-- ===== src/Pools/Fresh.antt =====
-- client.go and client/pool.go: readers and writers as they come out of the pools.
use redeo.Base.{
  ℕ, zero, suc, ◌≤◌, ◌≡◌, refl, Option, none, some, List, [], ◌∷◌, arith, length, All,
  length-replicate,
}
use redeo.Errors.{max_buffer_size}
use redeo.Pools.{
  Pools, get, nth_and_rest, new_reader, reader_for, writer_for, take_reader, take_writer, put_back,
}
use redeo.Reader.Window.{buf_limit, IsValid, window}
use redeo.Reader.{BufioR, reset, reset_to}
use redeo.Writer as Writer
use redeo.Writer.{BufioW, new_writer}

module _ {Src : Type 0} where
  abbrev pub Fits : BufioR Src → Type 0
  Fits b = length b.buf ≤ buf_limit

  -- Nothing is buffered, and the connection is the given one.
  pub record IsFreshReader (src : Src) (b : BufioR Src) : Type 0 where
    pub valid : IsValid b
    pub nothing_unread : window b ≡ []
    pub source : b.rd ≡ src

  new_reader-IsFresh : (src : Src) → IsFreshReader src (new_reader src)
  unfolding new_reader reset
  new_reader-IsFresh src = record {
    valid = record {
      r-le-w = omega arith;
      w-le-length = omega arith;
      length-le = omega (arith, length-replicate {A = ℕ} max_buffer_size 0);
    };
    nothing_unread = refl;
    source = refl;
  }

  reset_to-IsFresh : (src : Src) (b : BufioR Src) → Fits b → IsFreshReader src (reset_to src b)
  unfolding reset_to
  reset_to-IsFresh src b h = record {
    valid = record { r-le-w = omega arith; w-le-length = omega arith; length-le = h };
    nothing_unread = refl;
    source = refl;
  }

  -- What a pool gives, and what it keeps.
  pub nth-Fits :
      (i : ℕ) (bs : List (BufioR Src))
      → All Fits bs
      → (src : Src)
      → IsFreshReader src (reader_for (nth_and_rest i bs).0 src) × All Fits (nth_and_rest i bs).1
  unfolding nth_and_rest reader_for
  nth-Fits i [] all src = (new_reader-IsFresh src, tt)
  nth-Fits zero (b ∷ bs) (h, all) src = (reset_to-IsFresh src b h, all)
  nth-Fits (suc i) (b ∷ bs) (h, all) src = let (f, rest) = nth-Fits i bs all src in (f, (h, rest))

module _ {Snk : Type 0} where
  -- Nothing is pending, and the connection is the given one.
  pub record IsFreshWriter (snk : Snk) (w : BufioW Snk) : Type 0 where
    pub nothing_pending : w.buf ≡ []
    pub sink : w.out ≡ snk

  writer_for-IsFresh : (o : Option (BufioW Snk)) (snk : Snk) → IsFreshWriter snk (writer_for o snk)
  unfolding writer_for new_writer Writer.reset_to
  writer_for-IsFresh none snk = record { nothing_pending = refl; sink = refl }
  writer_for-IsFresh (some w) snk = record { nothing_pending = refl; sink = refl }

module _ {Src Snk : Type 0} where
  -- The pooled readers have arrays of a possible length.
  unfoldable pub AllFit : Pools Src Snk → Type 0
  AllFit p = All Fits p.readers

  pub take_reader-IsFresh :
      (choice : Option ℕ) (src : Src) (p : Pools Src Snk)
      → AllFit p
      → IsFreshReader src (take_reader choice src p).0 × AllFit (take_reader choice src p).1
  unfolding take_reader AllFit
  take_reader-IsFresh none src p all = (new_reader-IsFresh src, all)
  take_reader-IsFresh (some i) src p all = nth-Fits i p.readers all src

  pub take_writer-IsFresh :
      (choice : Option ℕ) (snk : Snk) (p : Pools Src Snk)
      → AllFit p
      → IsFreshWriter snk (take_writer choice snk p).0 × AllFit (take_writer choice snk p).1
  unfolding take_writer AllFit
  take_writer-IsFresh choice snk p all = (writer_for-IsFresh (get choice p.writers).0 snk, all)

  pub put_back-AllFit :
      (rd : BufioR Src) (wr : BufioW Snk) (p : Pools Src Snk)
      → Fits rd
      → AllFit p
      → AllFit (put_back rd wr p)
  unfolding put_back AllFit
  put_back-AllFit rd wr p h all = (h, all)
