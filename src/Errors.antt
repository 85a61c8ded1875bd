-- ===== src/Errors.antt =====
-- resp/resp.go: the errors of package resp, with their texts, and the fixed byte strings.
use redeo.Base.{
  ℕ, ◌+◌, ◌*◌, ◌/◌, ◌%◌, Bool, true, false, Option, none, some, [], ◌∷◌, ◌++◌, Bytes, codes, ltb,
  if◌then◌else◌,
}

-- The first seven are values of the type `protoError`; `expected p got` is made by `protoErrorf`,
-- with no byte where the line is too short. The rest come from package io, from the reader or writer
-- behind the buffers (`io n`), from command.go, and from redeotest/redeotest.go.
pub data Error : Type 0 where
  invalid_multi_bulk_length invalid_bulk_length inline_request_too_long : Error
  not_a_number not_a_nil_message bad_response_type : Error
  expected : ℕ → Option ℕ → Error
  eof unexpected_eof short_buffer short_write : Error
  no_more_args : Error
  unexpected_response : Error
  io : ℕ → Error

-- `string(c)` of a byte: the UTF-8 text of the code point.
unfoldable pub byte_string : ℕ → Bytes
byte_string c = if ltb c 0x80 then c ∷ [] else (0xc0 + c / 64) ∷ (0x80 + c % 64) ∷ []

unfoldable pub is_protocol_error : Error → Bool
is_protocol_error invalid_multi_bulk_length = true
is_protocol_error invalid_bulk_length = true
is_protocol_error inline_request_too_long = true
is_protocol_error not_a_number = true
is_protocol_error not_a_nil_message = true
is_protocol_error bad_response_type = true
is_protocol_error (expected _ _) = true
is_protocol_error _ = false

got_string : Option ℕ → Bytes
got_string none = codes " "
got_string (some c) = byte_string c

-- `Error()`. The text of the reader's own errors is not known here.
unfoldable pub error_message : (ℕ → Bytes) → Error → Bytes
unfolding byte_string got_string
error_message text invalid_multi_bulk_length = codes "Protocol error: invalid multibulk length"
error_message text invalid_bulk_length = codes "Protocol error: invalid bulk length"
error_message text inline_request_too_long = codes "Protocol error: too big inline request"
error_message text not_a_number = codes "Protocol error: expected a number"
error_message text not_a_nil_message = codes "Protocol error: expected a nil"
error_message text bad_response_type = codes "Protocol error: bad response type"
error_message text (expected p got) =
    codes "Protocol error: expected '"
    ++ (byte_string p ++ (codes "', got '" ++ (got_string got ++ codes "'")))
error_message text eof = codes "EOF"
error_message text unexpected_eof = codes "unexpected EOF"
error_message text short_buffer = codes "short buffer"
error_message text short_write = codes "short write"
error_message text no_more_args = codes "resp: no more arguments"
error_message text unexpected_response = codes "unexpected response Unknown"
error_message text (io n) = text n

abbrev pub crlf : Bytes
crlf = codes "\r\n"

abbrev pub bin_ok : Bytes
bin_ok = codes "+OK\r\n"

abbrev pub bin_zero : Bytes
bin_zero = codes ":0\r\n"

abbrev pub bin_one : Bytes
bin_one = codes ":1\r\n"

abbrev pub bin_nil : Bytes
bin_nil = codes "$-1\r\n"

abbrev pub max_buffer_size : ℕ
max_buffer_size = 64 * 1024
