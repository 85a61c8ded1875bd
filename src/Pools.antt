-- ===== src/Pools.antt =====
-- client.go and client/pool.go: the pools that recycle readers and writers, with the constructors of
-- resp/request.go and resp/response.go.
pub mod Fresh
use redeo.Base.{ℕ, zero, suc, ◌+◌, Option, none, some, List, [], ◌∷◌, Bytes, replicate}
use redeo.Errors.{max_buffer_size}
use redeo.Reader.{BufioR, reset, reset_to}
use redeo.Writer as Writer
use redeo.Writer.{BufioW, new_writer}

-- `Get` of a `sync.Pool` gives any item, or nil: the choice is an argument.
module _ {A : Type 0} where
  pub nth_and_rest : ℕ → List A → Option A × List A
  nth_and_rest i [] = (none, [])
  nth_and_rest zero (x ∷ xs) = (some x, xs)
  nth_and_rest (suc i) (x ∷ xs) = let (o, rest) = nth_and_rest i xs in (o, x ∷ rest)

  unfoldable pub get : Option ℕ → List A → Option A × List A
  unfolding nth_and_rest
  get none xs = (none, xs)
  get (some i) xs = nth_and_rest i xs

-- the two pools
pub record Pools (Src Snk : Type 0) : Type 0 where
  pub readers : List (BufioR Src)
  pub writers : List (BufioW Snk)

-- `NewRequestReader` and `NewResponseReader`
unfoldable pub new_reader : {Src : Type 0} → Src → BufioR Src
new_reader src = reset (replicate max_buffer_size 0) src

-- An item of the pool is reset to the connection; without one, a new one is made.
unfoldable pub reader_for : {Src : Type 0} → Option (BufioR Src) → Src → BufioR Src
unfolding new_reader
reader_for none src = new_reader src
reader_for (some rd) src = reset_to src rd

unfoldable pub writer_for : {Snk : Type 0} → Option (BufioW Snk) → Snk → BufioW Snk
writer_for none snk = new_writer snk
writer_for (some wr) snk = Writer.reset_to snk wr

module _ {Src Snk : Type 0} where
  -- One item of each pool, and the pools without them.
  unfoldable pub take_reader : Option ℕ → Src → Pools Src Snk → BufioR Src × Pools Src Snk
  unfolding get reader_for
  take_reader choice src p =
      let (o, rest) = get choice p.readers in (reader_for o src, record p { readers = rest })

  unfoldable pub take_writer : Option ℕ → Snk → Pools Src Snk → BufioW Snk × Pools Src Snk
  unfolding get writer_for
  take_writer choice snk p =
      let (o, rest) = get choice p.writers in (writer_for o snk, record p { writers = rest })

  unfoldable pub put_back : BufioR Src → BufioW Snk → Pools Src Snk → Pools Src Snk
  put_back rd wr p = record { readers = rd ∷ p.readers; writers = wr ∷ p.writers }
