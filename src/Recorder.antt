-- ===== src/Recorder.antt =====
-- redeotest/redeotest.go: `ResponseRecorder`, which tests use as a writer, and its parser of replies.
pub mod Decoded
pub mod Leaves
pub mod Parse
pub mod Collect
pub mod Responses
use redeo.Base.{
  ℕ, zero, suc, ◌*◌, Bool, Option, none, some, List, [], ◌∷◌, Bytes, ltb, if◌then◌else◌, length,
  replicate,
}
use redeo.Base.Int.{ℤ, pos}
use redeo.Errors.{Error, unexpected_response, max_buffer_size}
use redeo.Io.Memory.{bytes_reader, bytes_buffer}
use redeo.Io.{Runtime, IoReader, is_eof}
use redeo.Monad.{Outcome, ok, err, panic, timeout, return, fail, ◌>>=◌, ◌>>◌, and_then}
use redeo.Reader.{
  BufioR, R, ResponseType, type_unknown, type_array, type_bulk, type_inline, type_error, type_int,
  type_nil, reset,
}
use redeo.Replies.{
  peek_type, read_bulk_string, read_inline_string, read_int, read_error, read_nil, read_array_len,
}
use redeo.Writer.{BufioW, new_writer, flush}

-- What `parseResult` returns as an `interface{}`: nil, a `string`, an `int64`, an `ErrorResponse`, or
-- a `[]interface{}`.
mutual
  pub data Item : Type 0 where
    nothing : Item
    text : Bytes → Item
    number : ℤ → Item
    failure : Bytes → Item
    items : Items → Item

  pub data Items : Type 0 where
    no_items : Items
    item : Item → Items → Items

module _ {Src : Type 0} where
  -- The loop over the `sz` entries of an array; `one` parses an entry.
  pub parse_items : R Src Item → ℕ → R Src Items
  parse_items one zero = return no_items
  parse_items one (suc n) = do v ← one; vv ← parse_items one n; return (item v vv)

  -- `make([]interface{}, sz)`, of sixteen bytes an entry, and the loop
  pub parse_array : Runtime → R Src Item → ℕ → R Src Item
  unfolding parse_items
  parse_array rt one sz b =
      if ltb rt.max_alloc (16 * sz)
      then panic
      else (do vv ← parse_items one sz; return (items vv)) b

module _ (rt : Runtime) (rd : IoReader) where
  open rd use {Src}

  -- the `switch` of `parseResult`; `one` is the recursive call
  pub parse_typed : R Src Item → ResponseType → R Src Item
  unfolding parse_array
  parse_typed one type_bulk = do s ← read_bulk_string rt rd; return (text s)
  parse_typed one type_inline = do s ← read_inline_string rt rd; return (text s)
  parse_typed one type_int = do n ← read_int rt rd; return (number n)
  parse_typed one type_error = do s ← read_error rt rd; return (failure s)
  parse_typed one type_nil = do read_nil rt rd; return nothing
  parse_typed one type_array = do sz ← read_array_len rt rd; parse_array rt one sz
  parse_typed one type_unknown = fail unexpected_response

  -- The fuel is the depth of nested arrays.
  unfoldable pub parse_result : ℕ → R Src Item
  unfolding parse_typed
  parse_result zero b = timeout
  parse_result (suc f) b = (do typ ← peek_type rt rd; parse_typed (parse_result f) typ) b

  -- What `parseResult` returns beside an error, by the type that `PeekType` gave: the zero value of the
  -- method that failed where its results are passed on as they are, else nil.
  error_item : Outcome Error (BufioR Src) ResponseType → Item
  error_item (ok type_bulk _) = text []
  error_item (ok type_inline _) = text []
  error_item (ok type_int _) = number (pos 0)
  error_item _ = nothing

  -- A round of the loop of `Responses`: any error but the end of the input counts as a reply, for
  -- which `v` is appended.
  collect_step :
      R Src (List Item)
      → Item
      → Outcome Error (BufioR Src) Item
      → Outcome Error (BufioR Src) (List Item)
  collect_step next v (ok v' b) = and_then (next b) (λ vv. return (v' ∷ vv))
  collect_step next v (err e b) =
      if is_eof e then ok [] b else and_then (next b) (λ vv. return (v ∷ vv))
  collect_step next v panic = panic
  collect_step next v timeout = timeout

  unfoldable pub collect : ℕ → R Src (List Item)
  unfolding parse_result collect_step error_item
  collect zero b = timeout
  collect (suc f) b =
      collect_step (collect f) (error_item (peek_type rt rd b)) (parse_result rt.rounds b)

-- The recorder's writer; its sink is the buffer `b`.
pub record Recorder : Type 0 where
  pub writer : BufioW Bytes

-- `NewRecorder`
unfoldable pub new_recorder : Recorder
new_recorder = record { writer = new_writer [] }

-- `_ = r.ResponseWriter.Flush()`
after_flush : Outcome Error (BufioW Bytes) (Unit {0}) → Recorder → Recorder
after_flush (ok _ w) rec = record { writer = w }
after_flush (err _ w) rec = record { writer = w }
after_flush panic rec = rec
after_flush timeout rec = rec

unfoldable pub flush_recorder : Recorder → Recorder
unfolding after_flush
flush_recorder rec = after_flush (flush bytes_buffer rec.writer) rec

-- `String`, with the recorder behind it, and `Len`
unfoldable pub recorded : Recorder → Bytes × Recorder
unfolding flush_recorder
recorded rec = ((flush_recorder rec).writer.out, flush_recorder rec)

unfoldable pub recorded_length : Recorder → ℕ × Recorder
unfolding flush_recorder
recorded_length rec = (length (flush_recorder rec).writer.out, flush_recorder rec)

-- `NewResponseReader` on the recorded bytes
unfoldable pub new_response_reader : {Src : Type 0} → Src → BufioR Src
new_response_reader rd = reset (replicate max_buffer_size 0) rd

collected : Outcome Error (BufioR Bytes) (List Item) → Recorder → Outcome Error Recorder (List Item)
collected (ok vv _) rec = ok vv rec
collected (err e _) rec = err e rec
collected panic rec = panic
collected timeout rec = timeout

unfoldable pub responses : Runtime → Recorder → Outcome Error Recorder (List Item)
unfolding collected
responses rt rec =
    let rec' = flush_recorder rec in
    collected (collect rt bytes_reader rt.rounds (new_response_reader rec'.writer.out)) rec'

-- `vv[len(vv)-1]`, or nil
abbrev pub last_item : List Item → Item
last_item [] = nothing
last_item (v ∷ []) = v
last_item (v ∷ (v' ∷ vv)) = last_item (v' ∷ vv)

unfoldable pub response : Runtime → Recorder → Outcome Error Recorder Item
unfolding responses
response rt rec = and_then (responses rt rec) (λ vv. return (last_item vv))
