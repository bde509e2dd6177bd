-- ===== src/Binding/Parts.antt =====
-- crates/h11r-python/src/api/connection.rs: body data in parts, without a copy of the body.
use h11r.Prelude.{◌≡◌, refl, ◌++◌, Bytes, length, ok, err, on_ok}
use h11r.Connection.{Outcome, and_then}
use h11r.Connection.Body.{send_data_framing}
use h11r.Wire.Errors.{LocalProtocolError}
use h11r.Wire.Number.{DataPrefix, prefix_bytes}
use h11r.Binding.Python.{Python}
use h11r.Binding.Buffers.{with_buffer, body_nbytes, raising, framed}
use h11r.Binding.Connection.{
  PyConnection, PyOutcome, on_core, frame_parts, send_data, send_data_parts,
}

-- The parts written in order: the prefix, the bytes of the object, the suffix.
abbrev pub written : {A : Type 0} → Bytes → PyOutcome (Bytes × (A × Bytes)) → PyOutcome Bytes
written body (c, result) = (c, on_ok result (λ parts. ok ((parts.0 ++ body) ++ parts.1.1)))

around_same :
    (py : Python) (c : PyConnection) (value : py.Object) (bytes : Bytes)
    (o : Outcome LocalProtocolError (DataPrefix × Bytes))
    → on_core c
        (and_then (raising (frame_parts o)) (λ d parts. (d, ok ((parts.0 ++ bytes) ++ parts.1))))
      ≡ written bytes (
        record c { core = (raising o).0 },
        on_ok (raising o).1 (λ parts. ok (prefix_bytes parts.0, (value, parts.1))),
      )
around_same py c value bytes (d, ok parts) = refl
around_same py c value bytes (d, err e) = refl

-- For a body whose length is that of its bytes, `send_data` returns just the three parts of
-- `send_data_parts` written in order, with the same errors and the same connection behind it.
pub send_data_parts-send_data :
    (py : Python) (c : PyConnection) (value : py.Object) (bytes : Bytes)
    → with_buffer py value (λ b. b) ≡ ok bytes
    → body_nbytes py value ≡ ok (length bytes)
    → send_data py c value ≡ written bytes (send_data_parts py c value)
unfolding send_data send_data_parts framed
send_data_parts-send_data py c value bytes read size =
    rw read (rw size (around_same py c value bytes (send_data_framing c.core (length bytes))))
