-- ===== src/Connection/Heads.antt =====
-- crates/h11r/src/connection/send.rs: a head that is sent is over where the sender ends it.
use h11r.Prelude.{
  ◌≡◌, refl, arith, inl, inr, true, not, ◌&&◌, ◌||◌, some, List, [], ◌++◌, Bytes, length, all,
  is_empty, ◌==◌, Bool-cases, ok,
}
use h11r.Headers.{Headers}
use h11r.Headers.Entries.{IsWellFormed}
use h11r.State.{StateEvent}
use h11r.Status.{is_informational}
use h11r.Events.{Request, Response}
use h11r.Connection.{
  Connection, is_client, advance_local, request_event, opens_tunnel, response_has_no_body,
  final_response_event,
}
use h11r.Connection.Send.{
  validate_request, check_request, check_informational, is_http10_peer, send_informational_response,
  check_response, strip_codings, send_request, send_response, is_http11_peer, names_no_protocol,
}
use h11r.Wire.Buffer.{Framing, as_slice}
use h11r.Wire.Syntax.{is_line_value_byte, valid_name}
use h11r.Wire.Section.{fresh, poll}
use h11r.Wire.Fields.{Fields, is_http11, scan, check_send, has_framing, has_transfer_encoding}
use h11r.Wire.Lists.{validate_headers, validate_reason, upgrade_protocols}
use h11r.Wire.Target.{is_target_byte, valid_request_target}
use h11r.Wire.Head.Whole.{no_newline, all-weaken, refuses_newline}
use h11r.Wire.Head.Ends.{serialize_request_end, serialize_response_end}
use h11r.Connection.Gives.{
  Gives, Gives-ok, Gives-err, Gives-if, Gives-on_ok, Gives-attempt, Gives-and_then,
  Gives-outcome_if,
}
use h11r.Connection.OnLines.{
  OnLines, persistence_option-OnLines, validated, strip_codings-OnLines, choose_framing-OnLines,
}

reason_on_line :
    (reason : Bytes) {u : Unit {0}}
    → validate_reason reason ≡ ok u
    → all is_line_value_byte reason ≡ true
unfolding validate_reason
reason_on_line reason e = ground (arith, e)

abbrev AcceptedHead : Bytes → Headers × Framing → Type 0
AcceptedHead reason framed = OnLines framed.0 × (all is_line_value_byte reason ≡ true)

check_response-AcceptedHead :
    (c : Connection) (response : Response)
    → IsWellFormed response.headers
    → Gives (AcceptedHead response.reason) (check_response c response)
unfolding check_response
check_response-AcceptedHead c response w =
    let P = AcceptedHead response.reason in
    let status = response.status in
    let fields = scan response.headers in
    let is_11 = is_http11_peer c.peer_version && is_http11 response.http_version in
    let bodyless = response_has_no_body c status in
    let stripped = not is_11 && has_transfer_encoding fields in
    Gives-on_ok P (validate_headers response.headers) _ (λ _ valid.
      Gives-on_ok P (validate_reason response.reason) _ (λ _ reason.
        Gives-on_ok P (check_send fields) _ (λ _ _.
          Gives-if P
            (status.as_u16 == 426 && names_no_protocol (upgrade_protocols response.headers)) _ _
            (Gives-err P _)
            (Gives-if P ((status.as_u16 == 204 || opens_tunnel c status) && has_framing fields) _ _
              (Gives-err P _)
              (Gives-on_ok P (strip_codings fields bodyless stripped response.headers) _
                (λ headers kept_headers. record {
                  gives = λ framed e. (
                    (choose_framing-OnLines fields status response.http_version bodyless
                          (has_framing fields && not stripped) is_11 headers
                          ((strip_codings-OnLines fields bodyless stripped response.headers
                              (validated response.headers w valid)).gives
                            headers kept_headers)).gives
                        framed e,
                    reason_on_line response.reason reason,
                  );
                }))))))

-- The search for the end of a head, whatever follows it.
abbrev pub EndsItself : Bytes → Type 0
EndsItself wire = (more : Bytes) → (poll fresh (wire ++ more) true).1 ≡ some (length wire)

send_response-EndsItself :
    (c : Connection) (response : Response)
    → IsWellFormed response.headers
    → Gives EndsItself (send_response c response).1
unfolding send_response
send_response-EndsItself c response w =
    Gives-outcome_if EndsItself (is_client c.role || is_informational response.status) _ _
      (Gives-err EndsItself _)
      (Gives-attempt EndsItself c (check_response c response) _ (λ checked e.
        let (lines, reason) = (check_response-AcceptedHead c response w).gives checked e in
        Gives-and_then EndsItself (advance_local c (final_response_event c response.status)) _
          (λ d _. Gives-ok EndsItself _ (λ more.
            serialize_response_end response.http_version response.status response.reason _ more
              reason
              (persistence_option-OnLines _ (opens_tunnel c response.status) _ checked.0
                lines).on_line))))

target_on_line :
    (method target : Bytes) → valid_request_target method target ≡ true → no_newline target ≡ true
unfolding valid_request_target
target_on_line method target h =
    all-weaken is_target_byte (λ b. not (b == b'\n')) target (refuses_newline is_target_byte refl)
      (ground (arith, h))

abbrev AcceptedRequest : Request → Framing × List Bytes → Type 0
AcceptedRequest request checked = OnLines request.headers × (no_newline request.target ≡ true)

validate_request-accepts :
    (request : Request) (fields : Fields)
    → IsWellFormed request.headers
    → Gives
        (λ (_ : Unit {0}). AcceptedRequest request (Framing.chunked, []))
        (validate_request request fields)
unfolding validate_request
validate_request-accepts request fields w =
    let P = λ (_ : Unit {0}). AcceptedRequest request (Framing.chunked, []) in
    elim (Bool-cases (valid_request_target request.method.as_bytes request.target)) [
      | inl on_line ↦
          Gives-if P (not (valid_request_target request.method.as_bytes request.target)) _ _
            (Gives-err P _)
            (Gives-on_ok P (validate_headers request.headers) _ (λ _ valid. record {
              gives = λ _ _. (
                validated request.headers w valid,
                target_on_line request.method.as_bytes request.target on_line,
              );
            }))
      | inr refused ↦ rw refused (Gives-err P _)
    ]

check_request-AcceptedRequest :
    (request : Request) (fields : Fields)
    → IsWellFormed request.headers
    → Gives (AcceptedRequest request) (check_request request fields)
unfolding check_request
check_request-AcceptedRequest request fields w =
    Gives-on_ok (AcceptedRequest request) (validate_request request fields) _ (λ u valid. record {
      gives = λ checked _. (validate_request-accepts request fields w).gives u valid;
    })

send_request-EndsItself :
    (c : Connection) (request : Request)
    → IsWellFormed request.headers
    → valid_name request.method.as_bytes ≡ true
    → Gives EndsItself (send_request c request).1
unfolding send_request
send_request-EndsItself c request w is_method =
    Gives-outcome_if EndsItself (not (is_client c.role)) _ _ (Gives-err EndsItself _) (
      Gives-outcome_if EndsItself (not (is_empty (as_slice c.input))) _ _ (Gives-err EndsItself _) (
        Gives-attempt EndsItself c (check_request request (scan request.headers)) _ (λ checked e.
          let (lines, target) =
            (check_request-AcceptedRequest request (scan request.headers) w).gives checked e in
          Gives-and_then EndsItself (advance_local c (request_event request.method checked.1)) _
            (λ d _. Gives-ok EndsItself _ (λ more.
              serialize_request_end request (scan request.headers).host_at more is_method target
                lines.on_line)))))

check_informational-accepts :
    (c : Connection) (response : Response)
    → IsWellFormed response.headers
    → Gives
        (λ _. OnLines response.headers × (all is_line_value_byte response.reason ≡ true))
        (check_informational c response)
unfolding check_informational
check_informational-accepts c response w =
    let P = λ (_ : StateEvent).
      OnLines response.headers × (all is_line_value_byte response.reason ≡ true) in
    Gives-on_ok P (validate_headers response.headers) _ (λ _ valid.
      Gives-on_ok P (validate_reason response.reason) _ (λ _ reason. record {
        gives = λ _ _. (validated response.headers w valid, reason_on_line response.reason reason);
      }))

send_informational-EndsItself :
    (c : Connection) (response : Response)
    → IsWellFormed response.headers
    → Gives EndsItself (send_informational_response c response).1
unfolding send_informational_response
send_informational-EndsItself c response w =
    Gives-outcome_if EndsItself (is_client c.role || not (is_informational response.status)) _ _
      (Gives-err EndsItself _)
      (Gives-outcome_if EndsItself (is_http10_peer c.peer_version) _ _ (Gives-err EndsItself _) (
        Gives-attempt EndsItself c (check_informational c response) _ (λ event e.
          let (lines, reason) = (check_informational-accepts c response w).gives event e in
          Gives-and_then EndsItself (advance_local c event) _ (λ d _. Gives-ok EndsItself _ (λ more.
            serialize_response_end response.http_version response.status response.reason
              response.headers more reason lines.on_line)))))

-- If a request is accepted, then a receiver that searches what is written for the end of the head, with
-- anything at all behind it, finds it exactly at the end of what was written: no byte of the method, the
-- target or a field can end the head early or begin another message.
pub send_request_end :
    (c : Connection) (request : Request) (wire more : Bytes)
    → IsWellFormed request.headers
    → valid_name request.method.as_bytes ≡ true
    → (send_request c request).1 ≡ ok wire
    → (poll fresh (wire ++ more) true).1 ≡ some (length wire)
send_request_end c request wire more w is_method sent =
    (send_request-EndsItself c request w is_method).gives wire sent more

-- If a final response is accepted, then a receiver that searches what is written for the end of the head,
-- with anything at all behind it, finds it exactly at the end of what was written, with the framing and
-- connection fields that were added: neither the reason nor a field can split the response.
pub send_response_end :
    (c : Connection) (response : Response) (wire more : Bytes)
    → IsWellFormed response.headers
    → (send_response c response).1 ≡ ok wire
    → (poll fresh (wire ++ more) true).1 ≡ some (length wire)
send_response_end c response wire more w sent =
    (send_response-EndsItself c response w).gives wire sent more

-- The same for an informational response.
pub send_informational_response_end :
    (c : Connection) (response : Response) (wire more : Bytes)
    → IsWellFormed response.headers
    → (send_informational_response c response).1 ≡ ok wire
    → (poll fresh (wire ++ more) true).1 ≡ some (length wire)
send_informational_response_end c response wire more w sent =
    (send_informational-EndsItself c response w).gives wire sent more
