-- ===== src/Tests/Serving.antt =====
-- The theorems on the server and the handlers, at small inputs.
use redeo.Base.{false, ◌≡◌, refl, none, [], ◌∷◌, ◌++◌, Bytes, codes, arith, All}
use redeo.Base.Int.{pos}
use redeo.Command
use redeo.Command.{Command}
use redeo.Value.{GoValue, slice_value, element, no_elements, int, nil_value}
use redeo.Handlers.Wrapper.{wrapper, wrapped, wrapper-Appends}
use redeo.Server.Serve.{serve_client}
use redeo.Server.Serve.Ends.{serve_client_ends, last_words}
use redeo.Reader.AtEnd.{bytes_reader-IsExhausted}
use redeo.Decimal.{format_nat, digits}
use redeo.Handlers.Answers.{ping_answer, echo_answer, ping-Appends, echo-Appends}
use redeo.Handlers.{ping, echo}
use redeo.Info.{new_server_info}
use redeo.Monad.{ok}
use redeo.Reader.Window.{window}
use redeo.Replies.{equal}
use redeo.Server.Perform.{Performed, perform_buffered, error_line}
use redeo.Server.Pipeline.{Exchange, requests, Served, IsServed, replies, pipeline_buffered}
use redeo.Server.{
  reply_of, Env, Cmds, handler, Session, Reply, perform, pipeline, lookup, unknown_command,
}
use redeo.Tests.{
  lower, reader, writer, writer-IsSink, writer-NeverFails, runtime, buffered_with,
  buffered_with-IsValid, room_of,
}
use redeo.Wire.{request}
use redeo.Writer.Flush.{output}
use redeo.Writer.Output.{Appends}

abbrev env : Env (Unit {0})
env = record {
  to_lower = lower;
  background = tt;
  with_client = λ c. c;
  ctx_error = λ c. none;
  error_text = λ n. [];
}

abbrev cmds : Cmds (Unit {0}) Bytes Bytes
cmds = (codes "ping", handler (ping runtime)) ∷ (codes "echo", handler (echo runtime)) ∷ []

abbrev session : Bytes → Session (Unit {0}) Bytes Bytes
session text = record {
  id = 1;
  rd = buffered_with text [];
  wr = room_of [];
  closed = false;
  cmd = none;
  scmd = none;
  info = new_server_info;
}

-- `ECHO hi`, `PING` and a command that does not exist
abbrev echo_hi : Exchange
echo_hi = record {
  name = codes "ECHO";
  args = codes "hi" ∷ [];
  reply = echo_answer (codes "ECHO") (codes "hi" ∷ []);
}

abbrev ping_it : Exchange
ping_it = record { name = codes "PING"; args = []; reply = ping_answer (codes "PING") [] }

abbrev no_such : Exchange
no_such = record {
  name = codes "GET";
  args = codes "k" ∷ [];
  reply = error_line (unknown_command (codes "GET"));
}

abbrev text : Bytes
text = codes "*2\r\n$4\r\nECHO\r\n$2\r\nhi\r\n*1\r\n$4\r\nPING\r\n*2\r\n$3\r\nGET\r\n$1\r\nk\r\n"

three_requests : window (session text).rd ≡ requests (echo_hi ∷ ping_it ∷ no_such ∷ [])
unfolding format_nat digits
three_requests = refl

three-IsServed :
    All
      (IsServed runtime reader writer writer-IsSink writer-NeverFails env cmds)
      (echo_hi ∷ ping_it ∷ no_such ∷ [])
unfolding lookup equal
three-IsServed = (
  (
    λ c r name_eq args_eq len_eq.
        echo-Appends runtime (codes "ECHO") (codes "hi" ∷ []) c r name_eq args_eq len_eq,
    omega arith,
  ),
  (
    (
      λ c r name_eq args_eq len_eq.
          ping-Appends runtime (codes "PING") [] c r name_eq args_eq len_eq,
      omega arith,
    ),
    ((refl, omega arith), tt),
  ),
)

pipeline_buffered_example :
    (s' : Session (Unit {0}) Bytes Bytes) × (pipeline runtime reader writer env cmds 3
        (session text)
      ≡ ok tt s')
    × Served runtime reader writer writer-IsSink writer-NeverFails env cmds
        (echo_hi ∷ ping_it ∷ no_such ∷ [])
        (session text)
        s'
pipeline_buffered_example =
    pipeline_buffered runtime reader writer writer-IsSink writer-NeverFails env cmds echo_hi
      (ping_it ∷ no_such ∷ []) 3 (session text) three-IsServed
      (buffered_with-IsValid text [] (omega arith)) three_requests tt (omega arith) (omega arith)

serve_client_ends_example :
    (t : Session (Unit {0}) Bytes Bytes) × (serve_client runtime reader writer env cmds
        (codes "10.0.0.1:4711")
        (session text)
      ≡ ok tt t)
    × (t.wr.buf ≡ [])
    × (output writer writer-IsSink t.wr
        ≡ (output writer writer-IsSink (session text).wr
            ++ replies (echo_hi ∷ ping_it ∷ no_such ∷ []))
          ++ last_words t.closed)
serve_client_ends_example =
    serve_client_ends runtime reader writer writer-IsSink writer-NeverFails env cmds echo_hi
      (ping_it ∷ no_such ∷ []) (codes "10.0.0.1:4711") (session text) three-IsServed
      (buffered_with-IsValid text [] (omega arith)) three_requests bytes_reader-IsExhausted tt refl
      (omega arith) (omega arith)

-- a function that answers with the arguments' number and nil
abbrev counted : Command (Unit {0}) → GoValue Bytes
counted c = slice_value (element (int (pos c.len)) (element nil_value no_elements))

wrapper-Appends_example :
    Appends
      (wrapped (counted (Command.new_command)))
      (reply_of (session [])).wr
      (wrapper runtime counted (Command.new_command) (reply_of (session []))).wr
wrapper-Appends_example =
    wrapper-Appends runtime counted Command.new_command (reply_of (session [])) (tt, (tt, tt))

abbrev get_text : Bytes
get_text = codes "*2\r\n$3\r\nGET\r\n$1\r\nk\r\n*1\r\n"

get_request :
    window (session get_text).rd ≡ request (codes "GET") (codes "k" ∷ []) ++ codes "*1\r\n"
unfolding format_nat digits
get_request = refl

get_unknown : no_such.reply ≡ error_line (unknown_command (codes "GET"))
get_unknown = refl

no_handler : lookup (codes "get") cmds ≡ none
unfolding lookup equal
no_handler = refl

perform_buffered_example :
    (s' : Session (Unit {0}) Bytes Bytes) × (perform runtime reader writer env cmds
        (codes "GET")
        (session get_text)
      ≡ ok tt s')
    × Performed runtime reader writer writer-IsSink writer-NeverFails env cmds
        (codes "GET")
        (codes "k" ∷ [])
        no_such.reply
        (session get_text)
        s'
unfolding lookup equal
perform_buffered_example =
    perform_buffered runtime reader writer writer-IsSink writer-NeverFails env cmds (codes "GET")
      (codes "k" ∷ []) no_such.reply (session get_text) (codes "*1\r\n")
      (buffered_with-IsValid get_text [] (omega arith)) get_request tt (omega arith) (omega arith)
      refl

abbrev fresh : Reply Bytes
fresh = record { wr = room_of []; closed = false }

abbrev ping_cmd : Command (Unit {0})
ping_cmd = record { name = codes "PING"; slots = codes "x" ∷ codes "y" ∷ []; len = 1; ctx = none }

ping-Appends_example :
    Appends (ping_answer (codes "PING") (codes "x" ∷ [])) fresh.wr (ping runtime ping_cmd fresh).wr
ping-Appends_example =
    ping-Appends runtime (codes "PING") (codes "x" ∷ []) ping_cmd fresh refl refl refl
