-- ===== src/Tests/Machine.antt =====
-- crates/h11r/src/state.rs, method.rs and status.rs at concrete states and inputs.
use h11r.Prelude.{◌+◌, ◌≡◌, ◌≢◌, ◌↔◌, refl, arith, some, [], codes, ok, false}
use h11r.State.{
  client, server, done, error, idle, StateEvent, body_data, no_proposals, invalid_transition,
  ConnectionState, new, stabilize, stabilize_fuel, stabilize_loop, direct_transition, process_event,
  process_slow, process_error,
}
use h11r.State.Stable.{IsStable, stabilize_terminates}
use h11r.State.Invariant.{event, poison, Reach, start, next, IsValid, Reach-IsValid}
use h11r.State.Contract.{
  find_row, direct_contract, direct_transition-contract, fast_path-eq-slow, rejected_unchanged,
  Step-permanence,
}
use h11r.Method.{named, from_bytes}
use h11r.Method.Tokens.{AllTchars, from_bytes-AllTchars}
use h11r.Status.{StatusCode}

abbrev both_done : ConnectionState
both_done = record { client = done; server = done; keep_alive = false; proposals = no_proposals }

abbrev requested : ConnectionState
requested = (process_event new client (StateEvent.request no_proposals)).0

abbrev requested-Reach : Reach requested
requested-Reach = next start (event client (StateEvent.request no_proposals))

stabilize_terminates_example :
    (stabilize_loop (2 + stabilize_fuel) both_done ≡ some (stabilize both_done))
    × IsStable (stabilize both_done)
stabilize_terminates_example = stabilize_terminates 2 both_done

Reach-IsValid_example : IsValid requested
Reach-IsValid_example = Reach-IsValid requested-Reach

direct_transition-contract_example :
    direct_transition client idle (StateEvent.request no_proposals)
    ≡ find_row client idle (StateEvent.request no_proposals) direct_contract
direct_transition-contract_example =
    direct_transition-contract client idle (StateEvent.request no_proposals)

fast_path-eq-slow_example :
    process_event requested client body_data ≡ process_slow requested client body_data
fast_path-eq-slow_example = fast_path-eq-slow requested client body_data requested-Reach

rejected_unchanged_example : (process_event new client body_data).0 ≡ new
unfolding process_event new
rejected_unchanged_example = rejected_unchanged new client body_data {x = invalid_transition} refl

Step-permanence_example :
    (both_done.client ≡ error → (process_error both_done server).client ≡ error)
    × (both_done.server ≡ error → (process_error both_done server).server ≡ error)
    × (both_done.keep_alive ≡ false → (process_error both_done server).keep_alive ≡ false)
Step-permanence_example =
    Step-permanence {c = both_done} {d = process_error both_done server} (poison server)

from_bytes-AllTchars_example :
    (from_bytes (codes "PUT") ≡ ok (named (codes "PUT")))
    ↔ ((codes "PUT" ≢ []) × AllTchars (codes "PUT"))
from_bytes-AllTchars_example =
    from_bytes-AllTchars (codes "PUT") (omega arith, (omega arith, (omega arith, tt)))

abbrev not_found : StatusCode
not_found = record { as_u16 = 404 }
