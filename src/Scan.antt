-- ===== src/Scan.antt =====
-- resp/scan.go and `NullString` of resp/resp.go: `Scan`, which reads replies into variables of any
-- type. Scannable types other than `NullString` are not modelled.
pub mod Variables
pub mod Assign
pub mod Loops
pub mod Receives
pub mod Leaves
pub mod RoundTrip
pub mod ErrorReply
use redeo.Base.{ℕ, zero, suc, Bool, true, List, [], ◌∷◌, Bytes}
use redeo.Errors.{bad_response_type}
use redeo.Io.{Runtime, IoReader}
use redeo.Monad.{Outcome, ok, err, panic, timeout}
use redeo.Reader.{
  BufioR, ResponseType, type_unknown, type_array, type_bulk, type_inline, type_error, type_int,
  type_nil,
}
use redeo.Replies.{
  peek_type, read_bulk, read_bulk_string, read_inline_string, read_int, read_error, read_nil,
  read_array_len,
}
use redeo.Scan.Assign.{Floats, scan_nil, scan_string, scan_int, assign_bytes}
use redeo.Scan.Loops.{Failure, of_resp, server_error, Result, OneOf, read_then, put, scan_array}
use redeo.Scan.Variables.{
  Var, string_var, bytes_var, null_string, Dst, nil_dst, not_pointer, nil_pointer_to, pointer,
}

module _ (rt : Runtime) (rd : IoReader) (fl : Floats) where
  open rd use {Src}
  open fl use {Float}

  abbrev pub Scanned : Type 0
  Scanned = Result Src (Dst Float)

  -- the case of a bulk, by the type of the destination
  scan_bulk : Dst Float → BufioR Src → Scanned
  scan_bulk (pointer (bytes_var o)) b =
      read_then (read_bulk rt rd [] b) (pointer (bytes_var o))
        (λ src. put (assign_bytes fl src (pointer (bytes_var o))) (pointer (bytes_var o)))
  scan_bulk (nil_pointer_to (bytes_var o)) b =
      read_then (read_bulk rt rd [] b) (nil_pointer_to (bytes_var o)) (λ src.
        put (assign_bytes fl src (nil_pointer_to (bytes_var o))) (nil_pointer_to (bytes_var o)))
  scan_bulk d b = read_then (read_bulk_string rt rd b) d (λ src. put (scan_string fl src d) d)

  -- The `switch` of `scan`; `one` scans an element of an array. Error replies do not come here.
  scan_typed : OneOf Src Float → ResponseType → Dst Float → BufioR Src → Scanned
  unfolding scan_bulk
  scan_typed one type_array d b =
      read_then (read_array_len rt rd b) d (λ sz. scan_array rt one sz d)
  scan_typed one type_nil d b = read_then (read_nil rt rd b) d (λ _. put (scan_nil fl d) d)
  scan_typed one type_int d b = read_then (read_int rt rd b) d (λ src. put (scan_int fl src d) d)
  scan_typed one type_inline d b =
      read_then (read_inline_string rt rd b) d (λ src. put (scan_string fl src d) d)
  scan_typed one type_bulk d b = scan_bulk d b
  scan_typed one type_error d b = err (of_resp bad_response_type) (b, d)
  scan_typed one type_unknown d b = err (of_resp bad_response_type) (b, d)

  -- an error reply is the error of `Scan`
  scan_server_error : Dst Float → BufioR Src → Scanned
  scan_server_error d b =
      read_then (read_error rt rd b) d (λ src b'. err (server_error src) (b', d))

  -- a destination that is not Scannable
  scan_plain_of : OneOf Src Float → ResponseType → Dst Float → BufioR Src → Scanned
  unfolding scan_server_error scan_typed
  scan_plain_of one type_error d b = scan_server_error d b
  scan_plain_of one type_array d b = scan_typed one type_array d b
  scan_plain_of one type_nil d b = scan_typed one type_nil d b
  scan_plain_of one type_int d b = scan_typed one type_int d b
  scan_plain_of one type_inline d b = scan_typed one type_inline d b
  scan_plain_of one type_bulk d b = scan_typed one type_bulk d b
  scan_plain_of one type_unknown d b = scan_typed one type_unknown d b

  scan_plain : OneOf Src Float → Dst Float → BufioR Src → Scanned
  unfolding scan_plain_of
  scan_plain one d b = read_then (peek_type rt rd b) d (λ typ. scan_plain_of one typ d)

  string_in : Bytes → Dst Float → Bytes
  string_in s (pointer (string_var s')) = s'
  string_in s _ = s

  -- behind `r.Scan(&s.Value)`
  null_result : Bytes → Bool → Scanned → Scanned
  unfolding string_in
  null_result s valid (ok _ (b, d)) = ok tt (b, pointer (null_string (string_in s d) true))
  null_result s valid (err e (b, d)) = err e (b, pointer (null_string (string_in s d) valid))
  null_result s valid panic = panic
  null_result s valid timeout = timeout

  -- `ScanResponse` of a `NullString`
  unfoldable pub scan_response :
      OneOf Src Float → ResponseType → Bytes → Bool → BufioR Src → Scanned
  unfolding null_result scan_plain
  scan_response one type_nil s valid b =
      read_then (read_nil rt rd b) (pointer (null_string s valid))
        (λ _ b'. ok tt (b', pointer (null_string s valid)))
  scan_response one _ s valid b = null_result s valid (scan_plain one (pointer (string_var s)) b)

  -- on a nil pointer, whose `Value` cannot be reached
  scan_response_nil : ResponseType → Dst Float → BufioR Src → Scanned
  scan_response_nil type_nil d b = read_then (read_nil rt rd b) d (λ _ b'. ok tt (b', d))
  scan_response_nil _ d b = panic

  -- behind `PeekType`
  scan_known : OneOf Src Float → ResponseType → Dst Float → BufioR Src → Scanned
  unfolding scan_server_error scan_response scan_response_nil scan_plain_of
  scan_known one type_error d b = scan_server_error d b
  scan_known one typ (pointer (null_string s valid)) b = scan_response one typ s valid b
  scan_known one typ (nil_pointer_to (null_string s valid)) b =
      scan_response_nil typ (nil_pointer_to (null_string s valid)) b
  scan_known one typ d b = scan_plain_of one typ d b

  -- `scan`; the fuel is the depth of nested arrays.
  unfoldable pub scan : ℕ → Dst Float → BufioR Src → Scanned
  unfolding scan_known
  scan zero d b = timeout
  scan (suc f) d b = read_then (peek_type rt rd b) d (λ typ. scan_known (scan f) typ d)

  scan_rest :
      List (Dst Float)
      → Scanned
      → (BufioR Src → Result Src (List (Dst Float)))
      → Result Src (List (Dst Float))
  scan_rest ds (ok _ (b, d)) rest = elim (rest b) [
    | ok _ (b', ds') ↦ ok tt (b', d ∷ ds')
    | err e (b', ds') ↦ err e (b', d ∷ ds')
    | panic ↦ panic
    | timeout ↦ timeout
  ]
  scan_rest ds (err e (b, d)) rest = err e (b, d ∷ ds)
  scan_rest ds panic rest = panic
  scan_rest ds timeout rest = timeout

  -- `Scan`
  unfoldable pub scan_all : ℕ → List (Dst Float) → BufioR Src → Result Src (List (Dst Float))
  unfolding scan_rest scan
  scan_all f [] b = ok tt (b, [])
  scan_all f (d ∷ ds) b = scan_rest ds (scan f d b) (scan_all f ds)
