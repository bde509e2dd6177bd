-- ===== src/Fuzz/Start.antt =====
-- fuzz/fuzz_targets/common/mod.rs: the connections that the fuzz targets start from.
use h11r.Prelude.{
  ℕ, ◌≡◌, refl, subst, sym, arith, inl, inr, Bool, true, false, ◌==◌, Bool-cases, Result, ok, err,
}
use Prim.Native.Nat.{bit_and}
use h11r.State.{Role, client, server}
use h11r.Connection.{Connection}
use h11r.Connection.Send.{send_request}
use h11r.Connection.Receive.Progress.{weight}
use h11r.Fuzz.{Panic, not_zero, connection, connection_by}

-- A connection with nothing to do, whose input has not ended.
abbrev OpensIdle : Result Panic Connection → Type 0
OpensIdle (ok c) = (weight c ≡ 0) × (c.eof ≡ false)
OpensIdle (err _) = ⊥

pub record Opens (r : Result Panic Connection) : Type 0 where
  pub started : OpensIdle r

server-Opens :
    (choice : ℕ) (small lenient : Bool) → Opens (connection_by server choice small lenient)
unfolding connection_by h11r.Wire.Buffer.as_slice h11r.Connection.new h11r.Wire.Buffer.new
    h11r.State.state h11r.State.peer h11r.State.new h11r.Connection.lenient h11r.Events.new_limits
server-Opens choice true true = record { started = (refl, refl) }
server-Opens choice true false = record { started = (refl, refl) }
server-Opens choice false true = record { started = (refl, refl) }
server-Opens choice false false = record { started = (refl, refl) }

client_head : (small lenient : Bool) → Opens (connection_by client 1 small lenient)
unfolding connection_by send_request h11r.Method.from_bytes h11r.Connection.new
    h11r.Wire.Buffer.as_slice h11r.Wire.Buffer.new h11r.Connection.Send.check_request
    h11r.Connection.Send.validate_request h11r.Wire.Target.valid_request_target
    h11r.Wire.Lists.validate_headers h11r.Headers.is_valid h11r.Headers.extend h11r.Headers.new
    h11r.Wire.Syntax.valid_name h11r.Wire.Syntax.valid_value h11r.Wire.Fields.check_send
    h11r.Wire.Fields.scan h11r.Wire.Syntax.eq_ignore_ascii_case h11r.Wire.Fields.valid_host
    h11r.State.state h11r.State.peer h11r.State.new h11r.Connection.lenient h11r.Events.new_limits
    h11r.Connection.Body.end_of_message h11r.Wire.Fields.framing h11r.Connection.content_forbidden
    h11r.Wire.Lists.upgrade_protocols h11r.Headers.get_all h11r.Wire.Lists.has_field
    h11r.Connection.advance_local h11r.State.process_event h11r.Connection.request_event
    h11r.Connection.record_request h11r.Wire.Fields.persistent h11r.Wire.Elements.elements
    h11r.Wire.Lists.valid_protocol h11r.Wire.Lists.validate_trailers h11r.Headers.no_fields
client_head true true = record { started = (refl, refl) }
client_head true false = record { started = (refl, refl) }
client_head false true = record { started = (refl, refl) }
client_head false false = record { started = (refl, refl) }

client_connect : (small lenient : Bool) → Opens (connection_by client 2 small lenient)
unfolding connection_by send_request h11r.Method.from_bytes h11r.Connection.new
    h11r.Wire.Buffer.as_slice h11r.Wire.Buffer.new h11r.Connection.Send.check_request
    h11r.Connection.Send.validate_request h11r.Wire.Target.valid_request_target
    h11r.Wire.Lists.validate_headers h11r.Headers.is_valid h11r.Headers.extend h11r.Headers.new
    h11r.Wire.Syntax.valid_name h11r.Wire.Syntax.valid_value h11r.Wire.Fields.check_send
    h11r.Wire.Fields.scan h11r.Wire.Syntax.eq_ignore_ascii_case h11r.Wire.Fields.valid_host
    h11r.State.state h11r.State.peer h11r.State.new h11r.Connection.lenient h11r.Events.new_limits
    h11r.Connection.Body.end_of_message h11r.Wire.Fields.framing h11r.Connection.content_forbidden
    h11r.Wire.Lists.upgrade_protocols h11r.Headers.get_all h11r.Wire.Lists.has_field
    h11r.Connection.advance_local h11r.State.process_event h11r.Connection.request_event
    h11r.Connection.record_request h11r.Wire.Fields.persistent h11r.Wire.Elements.elements
    h11r.Wire.Lists.valid_protocol h11r.Wire.Lists.validate_trailers h11r.Headers.no_fields
client_connect true true = record { started = (refl, refl) }
client_connect true false = record { started = (refl, refl) }
client_connect false true = record { started = (refl, refl) }
client_connect false false = record { started = (refl, refl) }

client_upgrade : (small lenient : Bool) → Opens (connection_by client 3 small lenient)
unfolding connection_by send_request h11r.Method.from_bytes h11r.Connection.new
    h11r.Wire.Buffer.as_slice h11r.Wire.Buffer.new h11r.Connection.Send.check_request
    h11r.Connection.Send.validate_request h11r.Wire.Target.valid_request_target
    h11r.Wire.Lists.validate_headers h11r.Headers.is_valid h11r.Headers.extend h11r.Headers.new
    h11r.Wire.Syntax.valid_name h11r.Wire.Syntax.valid_value h11r.Wire.Fields.check_send
    h11r.Wire.Fields.scan h11r.Wire.Syntax.eq_ignore_ascii_case h11r.Wire.Fields.valid_host
    h11r.State.state h11r.State.peer h11r.State.new h11r.Connection.lenient h11r.Events.new_limits
    h11r.Connection.Body.end_of_message h11r.Wire.Fields.framing h11r.Connection.content_forbidden
    h11r.Wire.Lists.upgrade_protocols h11r.Headers.get_all h11r.Wire.Lists.has_field
    h11r.Connection.advance_local h11r.State.process_event h11r.Connection.request_event
    h11r.Connection.record_request h11r.Wire.Fields.persistent h11r.Wire.Elements.elements
    h11r.Wire.Lists.valid_protocol h11r.Wire.Lists.validate_trailers h11r.Headers.no_fields
client_upgrade true true = record { started = (refl, refl) }
client_upgrade true false = record { started = (refl, refl) }
client_upgrade false true = record { started = (refl, refl) }
client_upgrade false false = record { started = (refl, refl) }

client_get :
    (choice : ℕ) (small lenient : Bool)
    → (choice == 1) ≡ false
    → (choice == 2) ≡ false
    → (choice == 3) ≡ false
    → Opens (connection_by client choice small lenient)
unfolding connection_by send_request h11r.Method.from_bytes h11r.Connection.new
    h11r.Wire.Buffer.as_slice h11r.Wire.Buffer.new h11r.Connection.Send.check_request
    h11r.Connection.Send.validate_request h11r.Wire.Target.valid_request_target
    h11r.Wire.Lists.validate_headers h11r.Headers.is_valid h11r.Headers.extend h11r.Headers.new
    h11r.Wire.Syntax.valid_name h11r.Wire.Syntax.valid_value h11r.Wire.Fields.check_send
    h11r.Wire.Fields.scan h11r.Wire.Syntax.eq_ignore_ascii_case h11r.Wire.Fields.valid_host
    h11r.State.state h11r.State.peer h11r.State.new h11r.Connection.lenient h11r.Events.new_limits
    h11r.Connection.Body.end_of_message h11r.Wire.Fields.framing h11r.Connection.content_forbidden
    h11r.Wire.Lists.upgrade_protocols h11r.Headers.get_all h11r.Wire.Lists.has_field
    h11r.Connection.advance_local h11r.State.process_event h11r.Connection.request_event
    h11r.Connection.record_request h11r.Wire.Fields.persistent h11r.Wire.Elements.elements
    h11r.Wire.Lists.valid_protocol h11r.Wire.Lists.validate_trailers h11r.Headers.no_fields
client_get choice true true h1 h2 h3 = rw (h1, h2, h3) (record { started = (refl, refl) })
client_get choice true false h1 h2 h3 = rw (h1, h2, h3) (record { started = (refl, refl) })
client_get choice false true h1 h2 h3 = rw (h1, h2, h3) (record { started = (refl, refl) })
client_get choice false false h1 h2 h3 = rw (h1, h2, h3) (record { started = (refl, refl) })

client-Opens :
    (choice : ℕ) (small lenient : Bool) → Opens (connection_by client choice small lenient)
client-Opens choice small lenient = elim (Bool-cases (choice == 1)) [
  | inl one ↦ chosen 1 (ground (arith, one)) (client_head small lenient)
  | inr not_one ↦ elim (Bool-cases (choice == 2)) [
    | inl two ↦ chosen 2 (ground (arith, two)) (client_connect small lenient)
    | inr not_two ↦ elim (Bool-cases (choice == 3)) [
      | inl three ↦ chosen 3 (ground (arith, three)) (client_upgrade small lenient)
      | inr not_three ↦ client_get choice small lenient not_one not_two not_three
    ]
  ]
]
  where
    chosen :
        (n : ℕ)
        → choice ≡ n
        → Opens (connection_by client n small lenient)
        → Opens (connection_by client choice small lenient)
    chosen n e h = subst (λ m. Opens (connection_by client m small lenient)) (sym e) h

-- Whatever the control byte, the connection is made, its input has not ended and there is nothing to do.
pub connection-Opens : (role : Role) (control : ℕ) → Opens (connection role control)
unfolding connection
connection-Opens client control =
    client-Opens (bit_and control 3) (not_zero (bit_and control 128))
      (not_zero (bit_and control 32))
connection-Opens server control =
    server-Opens (bit_and control 3) (not_zero (bit_and control 128))
      (not_zero (bit_and control 32))
