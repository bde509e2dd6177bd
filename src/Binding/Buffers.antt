-- ===== src/Binding/Buffers.antt =====
-- crates/h11r-python/src/api/buffers.rs: bytes of Python buffers and text.
use h11r.Prelude.{
  ℕ, Bool, not, ◌++◌, none, some, Bytes, length, all, ltb, ok, err, on_ok, map_err, if◌then◌else◌,
}
use h11r.Connection.{Connection, Outcome, and_then, attempt}
use h11r.Wire.Errors.{LocalProtocolError}
use h11r.Binding.Python.{PyErr, is_type_error, is_attribute_error, PyResult, Python}

-- `local_error` of crates/h11r-python/src/api/mod.rs
unfoldable pub local_error : LocalProtocolError → PyErr
local_error error = PyErr.local_protocol_error error.message

abbrev pub is_ascii : Bytes → Bool
is_ascii bytes = all (λ b. ltb b 128) bytes

module _ (py : Python) where
  -- The bytes of a buffer that is not `bytes`.
  unfoldable pub copy_buffer : py.Object → PyResult Bytes
  copy_buffer value = on_ok (py.get_buffer value) (λ typed. elim typed [
    | some bytes ↦ bytes
    | none ↦ on_ok (py.view value) (λ view. view.tobytes)
  ])

  unfoldable pub with_buffer : {R : Type 0} → py.Object → (Bytes → R) → PyResult R
  unfolding copy_buffer
  with_buffer value consume = elim (py.cast_bytes value) [
    | some bytes ↦ ok (consume bytes)
    | none ↦ on_ok (copy_buffer value) (λ bytes. ok (consume bytes))
  ]

  unfoldable pub contiguous_buffer_len : py.Object → PyResult ℕ
  contiguous_buffer_len value = elim (py.cast_bytes value) [
    | some bytes ↦ ok (length bytes)
    | none ↦ on_ok (py.view value) (λ view. on_ok view.contiguous (λ contiguous.
        if not contiguous
        then err (PyErr.value_error "send_data_parts requires a contiguous buffer")
        else view.nbytes))
  ]

  -- The `nbytes` attribute, for an object that is no buffer.
  unfoldable pub nbytes_attribute : py.Object → PyErr → PyResult ℕ
  nbytes_attribute value buffer_error = elim (py.get_nbytes value) [
    | ok size ↦ size
    | err error ↦ if is_attribute_error error then err buffer_error else err error
  ]

  unfoldable pub body_nbytes : py.Object → PyResult ℕ
  unfolding contiguous_buffer_len nbytes_attribute
  body_nbytes value = elim (contiguous_buffer_len value) [
    | ok size ↦ ok size
    | err error ↦ if is_type_error error then nbytes_attribute value error else err error
  ]

  unfoldable pub with_text_or_buffer : {R : Type 0} → py.Object → (Bytes → R) → PyResult R
  unfolding with_buffer
  with_text_or_buffer value consume = elim (py.cast_text value) [
    | some text ↦ on_ok text.to_str (λ bytes.
        if not (is_ascii bytes)
        then err (PyErr.value_error "HTTP str inputs must be ASCII")
        else ok (consume bytes))
    | none ↦ with_buffer value consume
  ]

  unfoldable pub text_or_buffer : py.Object → PyResult Bytes
  unfolding with_text_or_buffer
  text_or_buffer value = with_text_or_buffer value (λ bytes. bytes)

-- An outcome of the core, with its error raised.
abbrev pub raising : {A : Type 0} → Outcome LocalProtocolError A → Outcome PyErr A
raising (c, result) = (c, map_err (λ e. local_error e) result)

-- The closure `framing` works on the connection.
unfoldable pub framed :
    (py : Python)
    → Connection
    → py.Object
    → (Connection → ℕ → Outcome LocalProtocolError (Bytes × Bytes))
    → Outcome PyErr Bytes
unfolding with_buffer
framed py c value framing = attempt c (with_buffer py value (λ bytes. bytes)) (λ bytes.
    and_then (raising (framing c (length bytes)))
      (λ d parts. (d, ok ((parts.0 ++ bytes) ++ parts.1))))
