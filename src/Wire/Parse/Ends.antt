-- ===== src/Wire/Parse/Ends.antt =====
-- crates/h11r/src/wire/head.rs: the end of a parsed head lies in what was parsed.
use h11r.Prelude.{
  ℕ, ◌≤◌, ◌≡◌, refl, subst, Bool, true, false, ◌&&◌, Option, none, some, Bytes, length, Result, ok,
  err, on_ok, map_err, take, if◌then◌else◌,
}
use h11r.Headers.{slice}
use h11r.Method.{Method, InvalidMethod, from_bytes}
use h11r.Status.{StatusCode, InvalidStatusCode, from_u16}
use h11r.Events.{Request, Response}
use h11r.Wire.Errors.{remote}
use h11r.Wire.Head.{version, copy_headers, dropped_lines}
use h11r.Wire.Parse.{
  HeadParser, HeadError, RequestHead, ResponseHead, Failure, failed, panicked, head_message,
  if_complete, accept_method, accept_status, first_line, reason_of, parse_request_head,
  parse_response_head,
}

-- `httparse` documents the length of a complete head: it has some bytes, and all of them were given.
pub record EndsWithin (httparse : HeadParser) : Type 0 where
  pub request_end :
      (bytes : Bytes) (count : ℕ) (head : RequestHead)
      → httparse.parse_request bytes count ≡ ok (some head)
      → (1 ≤ head.end) × (head.end ≤ length bytes)
  pub response_end :
      (lenient : Bool) (bytes : Bytes) (count : ℕ) (head : ResponseHead)
      → httparse.parse_response lenient bytes count ≡ ok (some head)
      → (1 ≤ head.end) × (head.end ≤ length bytes)

accept_method-end :
    (bytes : Bytes) (head : RequestHead) {end : ℕ} {request : Request}
    → accept_method bytes head ≡ ok (some (end, request))
    → head.end ≡ end
unfolding accept_method
accept_method-end bytes head {end} {request} h = by_method (from_bytes head.method) h
  where
    by_method :
        (m : Result InvalidMethod Method)
        → elim m as (λ _. Result Failure (Option (ℕ × Request))) [
          | err _ ↦ err (panicked "httparse validates the method token")
          | ok method ↦ ok (
              some (
                head.end,
                record {
                  method = method;
                  target = head.path;
                  headers = copy_headers bytes head.headers false;
                  http_version = version head.minor;
                },
              ))
        ]
          ≡ ok (some (end, request))
        → head.end ≡ end
    by_method (ok method) e = cc
    by_method (err x) e = absurd (cc)

-- A request head that is parsed ends within the bytes given, behind the first of them.
pub parse_request_head-end :
    (httparse : HeadParser) (bytes : Bytes) (count : ℕ) {end : ℕ} {request : Request}
    → EndsWithin httparse
    → parse_request_head httparse bytes count ≡ ok (some (end, request))
    → (1 ≤ end) × (end ≤ length bytes)
unfolding parse_request_head
parse_request_head-end httparse bytes count {end} {request} w h =
    by_result (httparse.parse_request bytes count) refl h
  where
    by_result :
        (r : Result HeadError (Option RequestHead))
        → httparse.parse_request bytes count ≡ r
        → on_ok
            (map_err
              (λ (error : HeadError). failed (
                remote
                  (head_message "invalid request head: " error)
                  (some (if error.too_many_headers then 431 else 400))))
              r)
            (if_complete (accept_method bytes))
          ≡ ok (some (end, request))
        → (1 ≤ end) × (end ≤ length bytes)
    by_result (ok (some head)) e k =
        subst (λ n. (1 ≤ n) × (n ≤ length bytes)) (accept_method-end bytes head k)
          (w.request_end bytes count head e)
    by_result (ok none) e k = absurd (cc)
    by_result (err x) e k = absurd (cc)

accept_status-end :
    (lenient : Bool) (bytes : Bytes) (head : ResponseHead) {end : ℕ} {found : Response × Bool}
    → accept_status lenient bytes head ≡ ok (some (end, found))
    → head.end ≡ end
unfolding accept_status
accept_status-end lenient bytes head {end} {found} h = by_status (from_u16 head.code) h
  where
    found_for : StatusCode → Response × Bool
    found_for status = (
      record {
        status = status;
        reason = reason_of lenient (slice bytes (first_line (take head.end bytes)));
        headers = copy_headers bytes head.headers true;
        http_version = version head.minor;
      },
      lenient && dropped_lines bytes (first_line (take head.end bytes)) head.end head.headers,
    )

    by_status :
        (s : Result InvalidStatusCode StatusCode)
        → on_ok {B = Option (ℕ × (Response × Bool))}
            (map_err (λ _. failed (remote "invalid response status" none)) s)
            (λ status. ok (some (head.end, found_for status)))
          ≡ ok (some (end, found))
        → head.end ≡ end
    by_status (ok status) e = cc
    by_status (err x) e = absurd (cc)

-- A response head that is parsed ends within the bytes given, behind the first of them.
pub parse_response_head-end :
    (httparse : HeadParser) (bytes : Bytes) (count : ℕ) (lenient : Bool) {end : ℕ}
    {found : Response × Bool}
    → EndsWithin httparse
    → parse_response_head httparse bytes count lenient ≡ ok (some (end, found))
    → (1 ≤ end) × (end ≤ length bytes)
unfolding parse_response_head
parse_response_head-end httparse bytes count lenient {end} {found} w h =
    by_result (httparse.parse_response lenient bytes count) refl h
  where
    by_result :
        (r : Result HeadError (Option ResponseHead))
        → httparse.parse_response lenient bytes count ≡ r
        → on_ok
            (map_err
              (λ (error : HeadError).
                failed (remote (head_message "invalid response head: " error) none))
              r)
            (if_complete (accept_status lenient bytes))
          ≡ ok (some (end, found))
        → (1 ≤ end) × (end ≤ length bytes)
    by_result (ok (some head)) e k =
        subst (λ n. (1 ≤ n) × (n ≤ length bytes)) (accept_status-end lenient bytes head k)
          (w.response_end lenient bytes count head e)
    by_result (ok none) e k = absurd (cc)
    by_result (err x) e k = absurd (cc)
