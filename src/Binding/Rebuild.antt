-- ===== src/Binding/Rebuild.antt =====
-- crates/h11r-python/src/api/events.rs: an event object is rebuilt from its attributes.
use h11r.Prelude.{
  ◌≡◌, refl, ap, sym, arith, ==_refl, true, Option, none, some, List, [], ◌∷◌, Bytes, Bool-cases,
  inl, inr, bytes_eq, codes, ok, on_ok,
}
use h11r.Headers.{Headers, Field, iter}
use h11r.Method.{Method, from_bytes}
use h11r.Events.{Request}
use h11r.Wire.Fields.{Version, http10, http11}
use h11r.Binding.Python.{Python, IsLawful}
use h11r.Binding.Buffers.{text_or_buffer}
use h11r.Binding.Fields.{extract_headers, PyHeaders, new_py, py_headers, fields_eq, headers_eq}
use h11r.Binding.Events.{
  PyRequest, request_from_core, request_eq, registered, find_name, py_method, py_version,
  extract_method, extract_version, version_of, read_request, new_request,
}
use h11r.Binding.Extract.{text_or_buffer-bytes, pairs_of, extract_headers-py_headers}

bytes_eq-same : (a b : Bytes) → a ≡ b → bytes_eq a b ≡ true
bytes_eq-same [] b h = rw (sym h) refl
bytes_eq-same (x ∷ xs) b h = rw (sym h) (rw (==_refl x) (bytes_eq-same xs xs refl))

fields_eq_refl : (fields : List Field) → fields_eq fields fields ≡ true
fields_eq_refl [] = refl
fields_eq_refl ((name, value) ∷ rest) =
    rw (bytes_eq-same name name refl, bytes_eq-same value value refl) (fields_eq_refl rest)

headers_eq-same :
    (left right : PyHeaders) → iter left.fields ≡ iter right.fields → headers_eq left right ≡ true
unfolding headers_eq
headers_eq-same left right h = rw h (fields_eq_refl (iter right.fields))

bytes_eq_sound : (a b : Bytes) → bytes_eq a b ≡ true → a ≡ b
bytes_eq_sound [] [] h = refl
bytes_eq_sound [] (y ∷ ys) h = absurd (ground (arith, h))
bytes_eq_sound (x ∷ xs) [] h = absurd (ground (arith, h))
bytes_eq_sound (x ∷ xs) (y ∷ ys) h =
    let tails : bytes_eq xs ys ≡ true = ground (arith, h) in
    let first : x ≡ y = ground (arith, h) in rw (first, bytes_eq_sound xs ys tails) refl

find_name-same :
    (names : List Bytes) (name shared : Bytes) → find_name names name ≡ some shared → shared ≡ name
unfolding find_name
find_name-same [] name shared h = absurd (cc)
find_name-same (first ∷ rest) name shared h = elim (Bool-cases (bytes_eq name first)) [
  | inl found ↦
      let same : name ≡ first = bytes_eq_sound name first found in ground (arith, h, found, same)
  | inr other ↦ find_name-same rest name shared (ground (arith, h, other))
]

-- The object for a method, shared or not, has the bytes of the method.
pub py_method-as_bytes : (method : Method) → py_method method ≡ method.as_bytes
unfolding py_method
py_method-as_bytes method = by_name (find_name registered method.as_bytes) refl
  where
    by_name :
        (found : Option Bytes)
        → find_name registered method.as_bytes ≡ found
        → (elim found as (λ _. Bytes) [ some shared ↦ shared | none ↦ method.as_bytes ])
          ≡ method.as_bytes
    by_name none h = refl
    by_name (some shared) h = find_name-same registered method.as_bytes shared h

module _ (py : Python) (lawful : IsLawful py) where
  extract_method-py_method :
      (method : Method)
      → from_bytes method.as_bytes ≡ ok method
      → extract_method py (py.new_bytes (py_method method)) ≡ ok method
  unfolding extract_method
  extract_method-py_method method h =
      rw
        (
          py_method-as_bytes method,
          text_or_buffer-bytes py lawful (py.new_bytes method.as_bytes) method.as_bytes from_bytes
              (lawful.new_bytes_exact method.as_bytes),
        )
        (rw h refl)

  text_or_buffer-new_bytes : (bytes : Bytes) → text_or_buffer py (py.new_bytes bytes) ≡ ok bytes
  unfolding text_or_buffer
  text_or_buffer-new_bytes bytes =
      text_or_buffer-bytes py lawful (py.new_bytes bytes) bytes (λ b. b)
        (lawful.new_bytes_exact bytes)

  extract_version-py_version :
      (version : Version)
      → extract_version py (some (py.new_bytes (py_version version))) ≡ ok version
  unfolding extract_version py_version version_of
  extract_version-py_version http10 = rw (text_or_buffer-new_bytes (codes "1.0")) refl
  extract_version-py_version http11 = rw (text_or_buffer-new_bytes (codes "1.1")) refl

  -- A request whose method is a token is read back from the attributes of its event object: the method, the
  -- target and the version are the same, and so are the fields, in their order.
  read_request_back :
      (r : Request)
      → from_bytes r.method.as_bytes ≡ ok r.method
      → (headers : Headers) × ((read_request py
              (py.new_bytes (py_method r.method))
              (py.new_bytes r.target)
              (some (py.new_tuple (pairs_of py (py_headers r.headers))))
              (some (py.new_bytes (py_version r.http_version)))
            ≡ ok (record r { headers = headers }))
          × (iter headers ≡ iter r.headers))
  unfolding read_request
  read_request_back r h =
      let (headers, (read, same)) = extract_headers-py_headers py lawful r.headers in
      (
        headers,
        (
          rw (extract_method-py_method r.method h) (
              rw (text_or_buffer-new_bytes r.target)
                (rw read (rw (extract_version-py_version r.http_version) refl))),
          same,
        ),
      )

  extract_headers-object :
      (value : py.Object) (headers : Headers)
      → py.cast_headers value ≡ some headers
      → extract_headers py (some value) ≡ ok headers
  unfolding extract_headers
  extract_headers-object value headers h = rw (h, extract_headers) refl

  -- The same from the `Headers` object of the event, whose fields are taken as they are.
  read_request_same :
      (r : Request) (fields : py.Object)
      → from_bytes r.method.as_bytes ≡ ok r.method
      → py.cast_headers fields ≡ some r.headers
      → read_request py
          (py.new_bytes (py_method r.method))
          (py.new_bytes r.target)
          (some fields)
          (some (py.new_bytes (py_version r.http_version)))
        ≡ ok r
  unfolding read_request
  read_request_same r fields h is_fields = rw (extract_method-py_method r.method h) (
      rw (text_or_buffer-new_bytes r.target) (
        rw (extract_headers-object fields r.headers is_fields)
          (rw (extract_version-py_version r.http_version) refl)))

  request_eq_refl : (event : PyRequest) → request_eq event event ≡ true
  unfolding request_eq
  request_eq_refl event =
      rw
        (
          bytes_eq-same event.method event.method refl,
          bytes_eq-same event.target event.target refl,
          bytes_eq-same event.http_version event.http_version refl,
        )
        (rw (headers_eq-same event.headers event.headers refl) refl)

  -- In a Python whose `bytes` and tuples are lawful, a request event whose method is a token can be built
  -- again from its attributes. With the `Headers` object that the event holds, the object built is the
  -- event itself, field by field; with the pairs of that object in a tuple, it is one that compares equal
  -- to the event, as the event does to itself.
  pub new_request-from_core :
      (r : Request) (fields : py.Object)
      → from_bytes r.method.as_bytes ≡ ok r.method
      → py.cast_headers fields ≡ some (request_from_core r).headers.fields
      → (new_request py
            (py.new_bytes (request_from_core r).method)
            (py.new_bytes (request_from_core r).target)
            fields
            (some (py.new_bytes (request_from_core r).http_version))
          ≡ ok (request_from_core r))
        × ((made : PyRequest) × ((new_request py
                  (py.new_bytes (request_from_core r).method)
                  (py.new_bytes (request_from_core r).target)
                  (py.new_tuple (pairs_of py (py_headers (request_from_core r).headers.fields)))
                  (some (py.new_bytes (request_from_core r).http_version))
                ≡ ok made)
              × (request_eq made (request_from_core r) ≡ true)))
        × (request_eq (request_from_core r) (request_from_core r) ≡ true)
  unfolding new_request request_from_core request_eq new_py
  new_request-from_core r fields h is_fields =
      let (headers, (read, same)) = read_request_back r h in
      (
        ap (λ q. on_ok q (λ value. ok (request_from_core value)))
            (read_request_same r fields h is_fields),
        (
          request_from_core (record r { headers = headers }),
          (
            ap (λ q. on_ok q (λ value. ok (request_from_core value))) read,
            rw
                (
                  bytes_eq-same (py_method r.method) (py_method r.method) refl,
                  bytes_eq-same r.target r.target refl,
                  bytes_eq-same (py_version r.http_version) (py_version r.http_version) refl,
                )
                (rw (headers_eq-same (new_py headers) (new_py r.headers) same) refl),
          ),
        ),
        request_eq_refl (request_from_core r),
      )
