-- ===== src/Tests/Calls.antt =====
-- crates/h11r/src/connection at sequences of calls, and heads as they are written.
use h11r.Prelude.{◌≡◌, refl, true, none, some, ◌++◌, Bytes, codes, length, ok}
use h11r.State.{client, server}
use h11r.State.Invariant.{IsValid}
use h11r.Headers
use h11r.Headers.{Headers, push}
use h11r.Headers.Entries.{new-IsWellFormed, push-IsWellFormed}
use h11r.Method.{named}
use h11r.Events.{Limits, Request, Response}
use h11r.Connection.{new as new_connection, Connection}
use h11r.Connection.Send.{send_request, send_response}
use h11r.Connection.Body.{send_data_framing}
use h11r.Connection.Calls.{begins, goes_on, sends_request, sends_data, receives, Reached-IsValid}
use h11r.Connection.Receive.{receive_data}
use h11r.Connection.Receive.Held.{HeldFits}
use h11r.Connection.Heads.{send_request_end, send_response_end}
use h11r.Wire.Fields.{http11}
use h11r.Wire.Section.{fresh, poll}
use h11r.Wire.Head.{crlf}
use h11r.Wire.Parse.{HeadParser}

abbrev limits : Limits
limits = record { max_head_bytes = 100; max_header_count = 10 }

abbrev idle_client : Connection
idle_client = new_connection client limits

abbrev finds_nothing : HeadParser
finds_nothing = record {
  parse_request = λ head max. ok none;
  parse_response = λ lenient head max. ok none;
  parse_headers = λ section max. ok none;
}

abbrev post : Request
post = record {
  method = named (codes "POST");
  target = codes "/";
  headers = push (push Headers.new (codes "Host") (codes "a")) (codes "Content-Length") (codes "5");
  http_version = http11;
}

abbrev posting : Connection
posting = (send_request idle_client post).0

abbrev posted : Connection
posted = (send_data_framing posting 5).0

abbrev answered : Connection
answered = (receive_data posted (codes "HTTP/1.1 200 OK")).0

Reached-IsValid_example : IsValid answered.state × HeldFits answered
Reached-IsValid_example = Reached-IsValid {httparse = finds_nothing} (
    goes_on (goes_on (goes_on (begins client limits) (sends_request post)) (sends_data 5))
      (receives (codes "HTTP/1.1 200 OK")))

abbrev posted_head : Bytes
posted_head =
    codes "POST / HTTP/1.1"
    ++ (crlf ++ (codes "Host: a" ++ (crlf ++ (codes "Content-Length: 5" ++ (crlf ++ crlf)))))

send_request_end_example :
    (poll fresh (posted_head ++ codes "GET / HTTP/1.1") true).1 ≡ some (length posted_head)
unfolding send_request new_connection h11r.Connection.Send.check_request h11r.Wire.Buffer.as_slice
    h11r.Wire.Buffer.new h11r.Connection.Send.validate_request h11r.Wire.Target.valid_request_target
    h11r.Wire.Fields.valid_host h11r.Connection.request_event h11r.Connection.content_forbidden
    h11r.Connection.record_request h11r.State.new h11r.Wire.Lists.validate_headers Headers.is_valid
    push Headers.new h11r.Wire.Syntax.valid_name h11r.Wire.Syntax.valid_value
    h11r.Wire.Fields.check_send h11r.Wire.Fields.scan h11r.Wire.Syntax.eq_ignore_ascii_case
    h11r.Wire.Elements.elements h11r.Wire.Fields.framing h11r.Wire.Fields.join_length
    h11r.Wire.Number.parse_number h11r.Wire.Number.to_digit h11r.Wire.Number.next_number
    h11r.State.process_event h11r.Connection.advance_local h11r.Wire.Lists.upgrade_protocols
    h11r.Wire.Fields.persistent h11r.Wire.Head.serialize_request Headers.get_all
    h11r.Wire.Lists.has_field
send_request_end_example =
    send_request_end idle_client post posted_head (codes "GET / HTTP/1.1")
      (push-IsWellFormed _ (codes "Content-Length") (codes "5")
        (push-IsWellFormed _ (codes "Host") (codes "a") new-IsWellFormed))
      refl refl

abbrev idle_server : Connection
idle_server = new_connection server limits

abbrev fine : Response
fine = record {
  status = record { as_u16 = 200 };
  reason = codes "OK";
  headers = push Headers.new (codes "Content-Length") (codes "5");
  http_version = http11;
}

abbrev fine_head : Bytes
fine_head =
    codes "HTTP/1.1 200 OK"
    ++ (crlf
        ++ (codes "Content-Length: 5" ++ (crlf ++ (codes "Connection: close" ++ (crlf ++ crlf)))))

send_response_end_example :
    (poll fresh (fine_head ++ codes "HTTP/1.1 200 OK") true).1 ≡ some (length fine_head)
unfolding send_response new_connection h11r.Connection.Send.check_response
    h11r.Status.is_informational h11r.Status.is_success h11r.Wire.Lists.validate_reason
    h11r.Connection.Send.choose_framing h11r.Connection.Send.strip_codings
    h11r.Connection.Send.declared_framing h11r.Wire.Fields.has_transfer_encoding
    h11r.Connection.final_response_event h11r.Connection.record_response
    h11r.Connection.Send.close_reasons h11r.State.disable_keep_alive
    h11r.Wire.Lists.validate_headers Headers.is_valid push Headers.new h11r.Wire.Syntax.valid_name
    h11r.Wire.Syntax.valid_value h11r.Wire.Fields.check_send h11r.Wire.Fields.scan
    h11r.Wire.Syntax.eq_ignore_ascii_case h11r.Wire.Elements.elements h11r.Wire.Fields.framing
    h11r.Wire.Fields.join_length h11r.Wire.Number.parse_number h11r.Wire.Number.to_digit
    h11r.Wire.Number.next_number h11r.Connection.response_has_no_body h11r.Connection.opens_tunnel
    h11r.State.process_event h11r.Connection.advance_local Headers.get_all
    h11r.Wire.Fields.has_framing h11r.Wire.Lists.upgrade_protocols h11r.State.peer h11r.State.new
    h11r.Wire.Head.serialize_response h11r.Connection.Send.persistence_option
    h11r.Wire.Lists.set_connection_option Headers.retain
send_response_end_example =
    send_response_end idle_server fine fine_head (codes "HTTP/1.1 200 OK")
      (push-IsWellFormed _ (codes "Content-Length") (codes "5") new-IsWellFormed) refl
