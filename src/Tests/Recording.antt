-- ===== src/Tests/Recording.antt =====
-- The theorems on the recorder, on recycled readers and writers, and on client pools, at small inputs.
use redeo.Base.{
  ℕ, zero, suc, ◌≡◌, ◌≤◌, refl, true, false, none, some, [], ◌∷◌, Bytes, codes, arith, length,
}
use redeo.Base.Int.{pos, negsuc}
use redeo.ClientPool.Histories as Histories
use redeo.ClientPool.{Conn, NetPool, NetConn, Pool, get_conn, put_conn}
use redeo.Decimal.{format_int, format_nat, digits}
use redeo.Errors.{Error, eof, max_buffer_size}
use redeo.Info.{new_server_info}
use redeo.Io.Memory.{bytes_reader}
use redeo.Line.Trim.{EndsInWord, ends}
use redeo.Line.{ascii_space}
use redeo.Monad.{Outcome, ok, err, timeout}
use redeo.Pools.{take_reader, take_writer, put_back}
use redeo.Reader.{reset_to}
use redeo.Writer as Writer
use redeo.Recorder.Collect.{replies, collect_unknown}
use redeo.Recorder.Decoded.{AreReadable}
use redeo.Recorder.Responses.{responses-append_elements}
use redeo.Recorder.{
  Recorder, nothing, text, number, failure, items, no_items, item, new_recorder, responses,
  response, last_item, collect,
}
use redeo.Server.Clients.{Globals, Reach, IsFresh, Reach-IsFresh, new_client, release, no_globals}
use redeo.Server.Clients as Clients
use redeo.Server.{Session}
use redeo.Tests.{runtime, buffered_with, buffered_with-IsValid}
use redeo.Value.Output.{shown_elements}
use redeo.Value.{
  nil_value, error_value, bool, int, uint, bulk_string, float, slice_value, map_value, Elements,
  no_elements, element, no_pairs, key_value, append_elements, error_text,
}
use redeo.Writer.{BufioW}

abbrev pool_get : ℕ → Outcome Error ℕ (NetConn Bytes Bytes)
pool_get zero = err eof 0
pool_get (suc n) = ok (codes "+OK\r\n", []) n

-- nil, an error, a slice of a string and a bool, a map from 7 to 2^64 - 1, and a float
abbrev values : Elements Bytes
values = element nil_value (
    element (error_value (codes "no")) (
      element (slice_value (element (bulk_string (codes "a")) (element (bool true) no_elements))) (
        element (map_value (key_value (int (pos 7)) (uint 18446744073709551615) no_pairs))
          (element (float (codes "1.5")) no_elements))))

no-EndsInWord : EndsInWord (error_text (codes "no"))
unfolding ascii_space error_text
no-EndsInWord = ends (codes "ERR n") b'o' refl

float-EndsInWord : EndsInWord (codes "1.5")
unfolding ascii_space
float-EndsInWord = ends (codes "1.") b'5' refl

values-AreReadable : AreReadable runtime 999 values
unfolding error_text
values-AreReadable = (
  tt,
  (
    (
      (omega arith, (omega arith, (omega arith, (omega arith, (omega arith, (omega arith, tt)))))),
      no-EndsInWord,
    ),
    (
      ((omega arith, omega arith), (tt, (tt, tt))),
      (
        ((omega arith, omega arith), (omega arith, omega arith, tt)),
        (((omega arith, (omega arith, (omega arith, tt))), float-EndsInWord), tt),
      ),
    ),
  ),
)

values_fit : length (shown_elements values) ≤ max_buffer_size
unfolding error_text format_int format_nat digits
values_fit = omega arith

responses-append_elements_example :
    (rec : Recorder) × (responses runtime
        (record { writer = append_elements runtime values new_recorder.writer })
      ≡ ok (replies values) rec)
    × (response runtime (record { writer = append_elements runtime values new_recorder.writer })
        ≡ ok (last_item (replies values)) rec)
    × (rec.writer.buf ≡ [])
    × (rec.writer.out ≡ shown_elements values)
responses-append_elements_example =
    responses-append_elements runtime values values-AreReadable values_fit (omega arith)
      (omega arith)

-- what the five values are read back as
replies_of_values :
    replies values
    ≡ nothing
      ∷ failure (codes "ERR no")
      ∷ items (item (text (codes "a")) (item (number (pos 1)) no_items))
      ∷ items (item (number (pos 7)) (item (number (negsuc 0)) no_items))
      ∷ text (codes "1.5")
      ∷ []
unfolding error_text
replies_of_values = refl

-- a reply that begins with a question mark
collect_unknown_example :
    collect runtime bytes_reader 1000 (buffered_with (codes "?\r\n") []) ≡ timeout
collect_unknown_example =
    collect_unknown runtime bytes_reader (buffered_with (codes "?\r\n") [])
      (buffered_with-IsValid (codes "?\r\n") [] (omega arith)) b'?' (codes "\r\n") refl
      (omega arith, (omega arith, (omega arith, (omega arith, (omega arith, tt))))) (omega arith)
      1000

-- A first client came, left bytes in its reader and its writer, and went.
abbrev left_behind : Session (Unit {0}) Bytes Bytes
left_behind = record {
  id = 1;
  rd = buffered_with (codes "GET") [];
  wr = record { out = []; buf = codes "+OK"; spare = [] };
  closed = true;
  cmd = none;
  scmd = none;
  info = new_server_info;
}

abbrev after_first : Globals Bytes Bytes
after_first =
    release left_behind
      (new_client {Ctx = Unit {0}} none none (codes "a") (codes "b") new_server_info no_globals).1

after_first-Reach : Reach (Unit {0}) no_globals 1 after_first
after_first-Reach =
    Clients.go left_behind (omega arith)
      (Clients.come none none (codes "a") (codes "b") new_server_info Clients.here)

Reach-IsFresh_example :
    IsFresh
      (codes "c")
      (codes "d")
      2
      (new_client {Ctx = Unit {0}}
        (some 0)
        (some 0)
        (codes "c")
        (codes "d")
        new_server_info
        after_first).0
Reach-IsFresh_example =
    Reach-IsFresh after_first-Reach (some 0) (some 0) (codes "c") (codes "d") new_server_info

-- connections to nowhere, from a pool that has `n` of them
abbrev net_pool : NetPool Bytes Bytes
net_pool = record {
  Conns = ℕ;
  get = pool_get;
  put = λ cn n. suc n;
  close_all = λ n. 0;
  close = λ cn. ([], []);
}

abbrev fresh_pool : Pool net_pool
fresh_pool = record { conns = 2; recycled = record { readers = []; writers = [] } }

-- a connection whose user left bytes in both directions
abbrev used : Conn Bytes Bytes
used = record {
  writer = record { out = []; buf = codes "*1\r\n"; spare = [] };
  reader = buffered_with (codes "$3\r\n") [];
  failed = false;
}

abbrev after_put : Pool net_pool
after_put = record {
  conns = 3;
  recycled = record { readers = used.reader ∷ []; writers = used.writer ∷ [] };
}

put_used : (put_conn net_pool (some used) fresh_pool).1 ≡ after_put
unfolding put_conn put_back
put_used = refl

after_put-Reach : Histories.Reach net_pool fresh_pool (put_conn net_pool (some used) fresh_pool).1
after_put-Reach =
    Histories.next Histories.here (Histories.return_conn used fresh_pool (omega arith))

abbrev taken : Conn Bytes Bytes
taken = record {
  writer = record { out = []; buf = []; spare = codes "*1\r\n" };
  reader = record { rd = codes "+OK\r\n"; buf = codes "$3\r\n"; r = 0; w = 0 };
  failed = false;
}

get_taken :
    get_conn net_pool (some 0) (some 0) (put_conn net_pool (some used) fresh_pool).1
    ≡ ok taken (record { conns = 2; recycled = record { readers = []; writers = [] } })
unfolding get_conn put_conn put_back take_reader take_writer reset_to Writer.reset_to
get_taken = refl

get_conn-IsFresh_example :
    (cn : NetConn Bytes Bytes) × (conns : ℕ) × (net_pool.get
        (put_conn net_pool (some used) fresh_pool).1.conns
      ≡ ok cn conns)
    × Histories.IsFreshConn net_pool cn taken
get_conn-IsFresh_example =
    Histories.get_conn-IsFresh net_pool 2 after_put-Reach (some 0) (some 0) get_taken
