-- ===== src/Wire/Parse.antt =====
-- crates/h11r/src/wire/head.rs and chunked.rs: heads and trailers are parsed.
-- The `httparse` crate is a parameter of what calls it.
pub mod Ends
pub mod Calm
use Prim.Native.String
use Prim.Native.String.{String}
use h11r.Prelude.{
  ℕ, ◌+◌, ◌-◌, Bool, true, false, ◌&&◌, Option, none, some, [], ◌∷◌, Bytes, drop, take, length, ltb,
  ◌==◌, if◌then◌else◌, Result, ok, err, on_ok, map_err,
}
use h11r.Headers.{Range, range, slice, Headers}
use h11r.Method.{from_bytes}
use h11r.Status.{from_u16}
use h11r.Events.{Request, Response}
use h11r.Wire.Errors.{RemoteProtocolError, remote}
use h11r.Wire.Elements.{count_while}
use h11r.Wire.Section.{fresh, poll}
use h11r.Wire.Head.{Slices, version, copy_headers, dropped_lines, normalize_obs_fold}

-- What `httparse::Error` tells: its text, and whether it is `TooManyHeaders`.
pub record HeadError : Type 0 where
  pub text : String
  pub too_many_headers : Bool

-- A complete head: its length, and what lies in it.
pub record RequestHead : Type 0 where
  pub end : ℕ
  pub minor : Option ℕ
  pub method : Bytes
  pub path : Bytes
  pub headers : Slices

pub record ResponseHead : Type 0 where
  pub end : ℕ
  pub minor : Option ℕ
  pub code : ℕ
  pub headers : Slices

-- `httparse`: a request, a response (leniently or not) and a field section, each with at most so many
-- fields; `none` stands for `Partial`.
pub record HeadParser : Type 0 where
  pub parse_request : Bytes → ℕ → Result HeadError (Option RequestHead)
  pub parse_response : Bool → Bytes → ℕ → Result HeadError (Option ResponseHead)
  pub parse_headers : Bytes → ℕ → Result HeadError (Option (ℕ × Slices))

-- An error of the peer, or the panic of an `expect`.
pub data Failure : Type 0 where
  failed : RemoteProtocolError → Failure
  panicked : String → Failure

abbrev head_message : String → HeadError → String
head_message before error = String.◌++◌ before error.text

accept_method : Bytes → RequestHead → Result Failure (Option (ℕ × Request))
accept_method head parsed = elim (from_bytes parsed.method) [
  | err _ ↦ err (panicked "httparse validates the method token")
  | ok method ↦ ok (
      some (
        parsed.end,
        record {
          method = method;
          target = parsed.path;
          headers = copy_headers head parsed.headers false;
          http_version = version parsed.minor;
        },
      ))
]

abbrev if_complete :
    {A B : Type 0} → (A → Result Failure (Option B)) → Option A → Result Failure (Option B)
if_complete next none = ok none
if_complete next (some a) = next a

unfoldable pub parse_request_head : HeadParser → Bytes → ℕ → Result Failure (Option (ℕ × Request))
unfolding accept_method
parse_request_head httparse head max_headers =
    on_ok
      (map_err
        (λ (error : HeadError). failed (
          remote (head_message "invalid request head: " error)
            (some (if error.too_many_headers then 431 else 400))))
        (httparse.parse_request head max_headers))
      (if_complete (accept_method head))

-- `split` into lines without a final CR, and the first that is not empty: the line from `start`, of
-- which the byte before `at` is a CR or not.
first_line_from : ℕ → ℕ → Bool → Bytes → Range
first_line_from start at cr [] = range start (if cr then at - 1 else at)
first_line_from start at cr (b ∷ rest) =
    let end = if cr then at - 1 else at in
    elim (b == b'\n') [
      | true ↦ elim (ltb start end) [
        | true ↦ range start end
        | false ↦ first_line_from (at + 1) (at + 1) false rest
      ]
      | false ↦ first_line_from start (at + 1) (b == b'\r') rest
    ]

unfoldable pub first_line : Bytes → Range
unfolding first_line_from
first_line bytes = first_line_from 0 0 false bytes

-- The position behind the spaces at `at`.
abbrev spaces : Bytes → ℕ → ℕ
spaces line at = at + count_while (λ b. b == b' ') (drop at line)

unfoldable pub reason_of : Bool → Bytes → Bytes
reason_of lenient line =
    if lenient then drop (spaces line (spaces line 8 + 3)) line else drop 13 line

accept_status : Bool → Bytes → ResponseHead → Result Failure (Option (ℕ × (Response × Bool)))
unfolding first_line reason_of
accept_status lenient head parsed =
    let line = first_line (take parsed.end head) in
    on_ok (map_err (λ _. failed (remote "invalid response status" none)) (from_u16 parsed.code))
      (λ status. ok (
        some (
          parsed.end,
          (
            record {
              status = status;
              reason = reason_of lenient (slice head line);
              headers = copy_headers head parsed.headers true;
              http_version = version parsed.minor;
            },
            lenient && dropped_lines head line parsed.end parsed.headers,
          ),
        )))

-- The response, and whether a line of its head was dropped.
unfoldable pub parse_response_head :
    HeadParser → Bytes → ℕ → Bool → Result Failure (Option (ℕ × (Response × Bool)))
unfolding accept_status
parse_response_head httparse head max_headers lenient =
    on_ok
      (map_err
        (λ (error : HeadError). failed (remote (head_message "invalid response head: " error) none))
        (httparse.parse_response lenient head max_headers))
      (if_complete (accept_status lenient head))

abbrev end_or {ℓ} : {A : Type ℓ} → Option A → A → A
end_or none a = a
end_or (some b) _ = b

unfoldable pub parse_trailers :
    HeadParser → Bytes → ℕ → Bool → Result Failure (Option (ℕ × Headers))
parse_trailers httparse bytes max_headers normalize_folding =
    let original_end = (poll fresh bytes false).1 in
    let section = take (end_or original_end (length bytes)) bytes in
    let normalized = if normalize_folding then normalize_obs_fold section else section in
    on_ok
      (map_err
        (λ (error : HeadError).
          failed (remote (head_message "invalid trailer field: " error) (some 400)))
        (httparse.parse_headers normalized max_headers))
      (if_complete (λ parsed.
        ok (some (end_or original_end parsed.0, copy_headers normalized parsed.1 false))))
