-- ===== src/Wire/Parse/Calm.antt =====
-- crates/h11r/src/wire/head.rs: the `expect` on a method token is of a success.
use h11r.Prelude.{
  ℕ, ◌≡◌, refl, Bool, true, false, Option, none, some, Bytes, Result, ok, err, is_ok, on_ok,
  map_err,
}
use h11r.Method.{Method, InvalidMethod, from_bytes}
use h11r.Events.{Request}
use h11r.Status.{StatusCode, InvalidStatusCode, from_u16}
use h11r.Wire.Errors.{RemoteProtocolError}
use h11r.Wire.Parse.Ends.{EndsWithin}
use h11r.Wire.Parse.{
  HeadParser, HeadError, RequestHead, Failure, failed, panicked, accept_method, accept_status,
  if_complete, parse_request_head, parse_response_head, parse_trailers,
}

-- `httparse` documents that the method of a request is a token.
pub record ValidMethods (httparse : HeadParser) : Type 0 where
  pub valid_method :
      (bytes : Bytes) (count : ℕ) (head : RequestHead)
      → httparse.parse_request bytes count ≡ ok (some head)
      → is_ok (from_bytes head.method) ≡ true

abbrev pub panics : {A : Type 0} → Result Failure A → Bool
panics (err (panicked message)) = true
panics _ = false

-- A result that is no panic.
pub record Calm {A : Type 0} (r : Result Failure A) : Type 0 where
  pub calm : panics r ≡ false

-- `?` behind an error of `httparse`, and a head that may be incomplete.
complete-Calm :
    {A B : Type 0} (r : Result HeadError (Option A)) (f : HeadError → RemoteProtocolError)
    (next : A → Result Failure (Option B))
    → ((a : A) → r ≡ ok (some a) → Calm (next a))
    → Calm (on_ok (map_err (λ e. failed (f e)) r) (if_complete next))
complete-Calm (ok none) f next k = record { calm = refl }
complete-Calm (ok (some a)) f next k = k a refl
complete-Calm (err e) f next k = record { calm = refl }

status-Calm :
    {A : Type 0} (r : Result InvalidStatusCode StatusCode) (e : RemoteProtocolError)
    (next : StatusCode → A)
    → Calm (on_ok (map_err (λ _. failed e) r) (λ s. ok (next s)))
status-Calm (ok s) e next = record { calm = refl }
status-Calm (err x) e next = record { calm = refl }

accept_method-Calm :
    (bytes : Bytes) (head : RequestHead)
    → is_ok (from_bytes head.method) ≡ true
    → Calm (accept_method bytes head)
unfolding accept_method
accept_method-Calm bytes head valid = by_method (from_bytes head.method) _ valid
  where
    by_method :
        (m : Result InvalidMethod Method) (next : Method → Option (ℕ × Request))
        → is_ok m ≡ true
        → Calm (elim m as (λ _. Result Failure (Option (ℕ × Request))) [
          | err _ ↦ err (panicked "httparse validates the method token")
          | ok method ↦ ok (next method)
        ])
    by_method (ok method) next h = record { calm = refl }
    by_method (err x) next h = absurd (cc)

pub parse_request_head-Calm :
    (httparse : HeadParser) (bytes : Bytes) (count : ℕ)
    → ValidMethods httparse
    → Calm (parse_request_head httparse bytes count)
unfolding parse_request_head
parse_request_head-Calm httparse bytes count valid =
    complete-Calm (httparse.parse_request bytes count) _ (accept_method bytes)
      (λ head found. accept_method-Calm bytes head (valid.valid_method bytes count head found))

pub parse_response_head-Calm :
    (httparse : HeadParser) (bytes : Bytes) (count : ℕ) (lenient : Bool)
    → Calm (parse_response_head httparse bytes count lenient)
unfolding parse_response_head accept_status
parse_response_head-Calm httparse bytes count lenient =
    complete-Calm (httparse.parse_response lenient bytes count) _ (accept_status lenient bytes)
      (λ head found. status-Calm (from_u16 head.code) _ _)

pub parse_trailers-Calm :
    (httparse : HeadParser) (bytes : Bytes) (count : ℕ) (folds : Bool)
    → Calm (parse_trailers httparse bytes count folds)
unfolding parse_trailers
parse_trailers-Calm httparse bytes count folds =
    complete-Calm (httparse.parse_headers _ count) _ _ (λ found is_found. record { calm = refl })

-- What `httparse` documents of the heads that it finds.
abbrev pub Documented : HeadParser → Type 0
Documented httparse = EndsWithin httparse × ValidMethods httparse
