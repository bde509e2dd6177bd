-- ===== src/Tests/Fuzz.antt =====
-- fuzz/fuzz_targets at a small request.
use h11r.Prelude.{
  ◌≤◌, ◌<◌, ◌≡◌, refl, subst, arith, Bool, true, false, Option, none, some, [], ◌∷◌, ◌++◌, Bytes,
  codes, length, leb, ok, is_ok,
}
use h11r.State.{server}
use h11r.Headers.{range}
use h11r.Events.{Limits}
use h11r.Connection.{new as new_connection, Connection}
use h11r.Connection.Receive.{receive_data}
use h11r.Connection.Receive.Progress.{weight}
use h11r.Fuzz.{Drained, poll}
use h11r.Fuzz.Polls.{Bounded, poll-Bounded}
use h11r.Fuzz.Returns.{runs_return}
use h11r.Fuzz.Runs.{run, run_holding, run_eof_first, receive_target, started}
use h11r.Wire.Head.{crlf}
use h11r.Wire.Parse.{HeadParser, RequestHead}
use h11r.Wire.Parse.Calm.{ValidMethods}
use h11r.Method.{from_bytes}
use h11r.Wire.Parse.Ends.{EndsWithin}

abbrev get : Bytes
get = codes "GET / HTTP/1.1" ++ (crlf ++ (codes "Host: a" ++ (crlf ++ crlf)))

abbrev get_head : RequestHead
get_head = record {
  end = 27;
  minor = some 1;
  method = codes "GET";
  path = codes "/";
  headers = (range 16 20, range 22 23) ∷ [];
}

abbrev method_of : Option RequestHead → Bytes
method_of (some head) = head.method
method_of none = []

abbrev if_long : Bool → Option RequestHead
if_long true = some get_head
if_long false = none

-- A parser that knows one request.
abbrev finds_get : HeadParser
finds_get = record {
  parse_request = λ bytes max. ok (if_long (leb 27 (length bytes)));
  parse_response = λ lenient bytes max. ok none;
  parse_headers = λ section max. ok none;
}

finds_get-EndsWithin : EndsWithin finds_get
finds_get-EndsWithin = record {
  request_end =
      λ bytes count head found. by_length bytes {head = head} (leb 27 (length bytes)) refl (cc);
  response_end = λ lenient bytes count head found. absurd (cc);
}
  where
    by_length :
        (bytes : Bytes) {head : RequestHead} (b : Bool)
        → leb 27 (length bytes) ≡ b
        → if_long b ≡ some head
        → (1 ≤ head.end) × (head.end ≤ length bytes)
    by_length bytes true long found = ground (arith, long, found)
    by_length bytes false long found = absurd (cc)

finds_get-ValidMethods : ValidMethods finds_get
unfolding h11r.Method.from_bytes
finds_get-ValidMethods = record {
  valid_method = λ bytes count head found. by_length (leb 27 (length bytes)) {head = head} (cc);
}
  where
    by_length :
        (b : Bool) {head : RequestHead}
        → if_long b ≡ some head
        → is_ok (from_bytes head.method) ≡ true
    by_length true found = subst (λ o. is_ok (from_bytes (method_of o)) ≡ true) found refl
    by_length false found = absurd (cc)

abbrev limits : Limits
limits = record { max_head_bytes = 100; max_header_count = 10 }

abbrev received : Drained
received = started (receive_data (new_connection server limits) get).0

poll-Bounded_example :
    Bounded (weight received.connection) received.connection.eof (poll finds_get 60 received)
poll-Bounded_example =
    poll-Bounded finds_get 60 received (finds_get-EndsWithin, finds_get-ValidMethods) enough
  where
    enough : weight received.connection < 60
    enough =
        unfold receive_data new_connection h11r.Connection.Receive.record_eof
          h11r.Wire.Buffer.extend h11r.Wire.Buffer.as_slice h11r.Wire.Buffer.new h11r.State.new
          h11r.State.state h11r.State.peer in
        omega arith

runs_return_example :
    (is_ok (run finds_get server 0 get 5) ≡ true)
    × (is_ok (run_holding finds_get server 0 get 5) ≡ true)
    × (is_ok (run_eof_first finds_get server 0 get) ≡ true)
    × (is_ok (receive_target finds_get (0 ∷ get)) ≡ true)
runs_return_example =
    runs_return finds_get server 0 get 5 (finds_get-EndsWithin, finds_get-ValidMethods)
      (omega arith) (omega arith)
