-- ===== src/Binding/Fields.antt =====
-- crates/h11r-python/src/api/headers.rs: the `Headers` class.
use h11r.Prelude.{
  Bool, true, false, ◌&&◌, Option, none, some, List, [], ◌∷◌, Bytes, bytes_eq, ok, err, on_ok,
}
use h11r.Headers
use h11r.Headers.{Headers, Field, push, iter, len}
use h11r.Binding.Python.{PyErr, PyResult, Python}
use h11r.Binding.Buffers.{with_buffer, with_text_or_buffer}

-- `items` is the tuple of pairs, built on first use.
pub record PyHeaders : Type 0 where
  pub fields : Headers
  pub items : Option (List Field)

unfoldable pub new_py : Headers → PyHeaders
new_py fields = record { fields = fields; items = none }

-- The pairs of `bytes`.
unfoldable pub py_headers : Headers → List Field
py_headers headers = iter headers

unfoldable pub items : PyHeaders → PyHeaders × List Field
unfolding py_headers
items h = elim h.items [
  | some pairs ↦ (h, pairs)
  | none ↦ let pairs = py_headers h.fields in (record h { items = some pairs }, pairs)
]

-- `self.fields == other.fields` compares the iterators.
abbrev pub fields_eq : List Field → List Field → Bool
fields_eq [] [] = true
fields_eq ((name, value) ∷ rest) ((other_name, other_value) ∷ others) =
    (bytes_eq name other_name && bytes_eq value other_value) && fields_eq rest others
fields_eq _ _ = false

unfoldable pub headers_eq : PyHeaders → PyHeaders → Bool
headers_eq left right = fields_eq (iter left.fields) (iter right.fields)

module _ (py : Python) where
  -- A pair of exact `bytes` skips the text and buffer checks.
  unfoldable pub push_slow : Headers → py.Object → py.Object → PyResult Headers
  unfolding with_text_or_buffer
  push_slow headers name value =
      on_ok (with_text_or_buffer py name (λ bytes. bytes))
        (λ n. with_text_or_buffer py value (λ v. push headers n v))

  unfoldable pub push_named : Headers → py.Object → py.Object → PyResult Headers
  unfolding push_slow
  push_named headers name value = elim (py.cast_exact_bytes name) [
    | some n ↦ elim (py.cast_exact_bytes value) [
      | some v ↦ ok (push headers n v)
      | none ↦ push_slow headers name value
    ]
    | none ↦ push_slow headers name value
  ]

  unfoldable pub push_pair : Headers → py.Object → PyResult Headers
  unfolding push_named
  push_pair headers item = elim (py.cast_tuple item) [
    | none ↦ err (PyErr.type_error "each header must be a 2-tuple")
    | some pair ↦ two_items headers pair
  ]
    where
      two_items : Headers → List py.Object → PyResult Headers
      two_items h (name ∷ (value ∷ [])) = push_named h name value
      two_items h _ = err (PyErr.type_error "each header must contain name and value")

  -- The two loops of `extract_headers`.
  unfoldable pub push_pairs : Headers → List py.Object → PyResult Headers
  unfolding push_pair
  push_pairs headers [] = ok headers
  push_pairs headers (pair ∷ rest) =
      on_ok (push_pair headers pair) (λ pushed. push_pairs pushed rest)

  unfoldable pub push_iterated : Headers → List (PyResult py.Object) → PyResult Headers
  unfolding push_pair
  push_iterated headers [] = ok headers
  push_iterated headers (next ∷ rest) =
      on_ok next (λ pair. on_ok (push_pair headers pair) (λ pushed. push_iterated pushed rest))

  unfoldable pub extract_headers : Option py.Object → PyResult Headers
  unfolding push_pairs push_iterated
  extract_headers none = ok Headers.new
  extract_headers (some value) = elim (py.cast_headers value) [
    | some headers ↦ ok headers
    | none ↦ elim (py.cast_exact_tuple value) [
      | some pairs ↦ push_pairs Headers.new pairs
      | none ↦ on_ok (py.try_iter value) (λ steps. push_iterated Headers.new steps)
    ]
  ]

  -- `Headers(fields=None)`
  unfoldable pub new : Option py.Object → PyResult PyHeaders
  unfolding extract_headers new_py
  new fields = on_ok (extract_headers fields) (λ headers. ok (new_py headers))

  unfoldable pub with_field_name : {R : Type 0} → py.Object → (Bytes → R) → PyResult R
  unfolding with_buffer
  with_field_name name consume = elim (py.cast_text name) [
    | some text ↦ ok (consume text.to_string_lossy)
    | none ↦ with_buffer py name consume
  ]

  -- `none` stands for the default.
  unfoldable pub get : PyHeaders → py.Object → PyResult (Option Bytes)
  unfolding with_field_name
  get h name = with_field_name name (λ bytes. first (Headers.get_all h.fields bytes))
    where
      first : List Bytes → Option Bytes
      first [] = none
      first (value ∷ _) = some value

  unfoldable pub get_all : PyHeaders → py.Object → PyResult (List Bytes)
  unfolding with_field_name
  get_all h name = with_field_name name (λ bytes. Headers.get_all h.fields bytes)
