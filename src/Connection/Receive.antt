-- ===== src/Connection/Receive.antt =====
-- crates/h11r/src/connection/receive.rs: peer bytes become events.
pub mod Accept
pub mod Payload
pub mod Events
pub mod Poison
pub mod Untouched
pub mod Progress
pub mod Held
pub mod Fuel
use h11r.Prelude.{Bool, true, not, ◌&&◌, Bytes, is_empty, Result, ok, err, if◌then◌else◌}
use h11r.State.{disable_keep_alive}
use h11r.Connection.{Connection, Outcome, is_client}
use h11r.Wire.Buffer
use h11r.Wire.Errors.{LocalProtocolError, local}

unfoldable pub record_eof : Connection → Connection
record_eof c = record c {
  eof = true;
  state = if is_client c.role then disable_keep_alive c.state else c.state;
}

unfoldable pub receive_data : Connection → Bytes → Outcome LocalProtocolError (Unit {0})
unfolding record_eof
receive_data c bytes =
    if c.eof && not (is_empty bytes) then (c, err (local "receive_data called after EOF")) else (
      (if is_empty bytes then record_eof c else record c { input = Buffer.extend c.input bytes }),
      ok tt,
    )
