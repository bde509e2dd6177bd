-- ===== src/State/Lasting.antt =====
-- crates/h11r/src/state.rs: what no number of calls undoes.
use h11r.Prelude.{◌≡◌, false}
use h11r.State.{Role, client, server, ConnectionState, error, state}
use h11r.State.Invariant.{Steps, here, further}
use h11r.State.Contract.{Step-permanence}

pub Steps-error :
    {c d : ConnectionState} (r : Role) → Steps c d → state c r ≡ error → state d r ≡ error
unfolding state
Steps-error r here h = h
Steps-error client (further s step) h = (Step-permanence step).0 (Steps-error client s h)
Steps-error server (further s step) h = (Step-permanence step).1 (Steps-error server s h)

pub Steps-keep_alive :
    {c d : ConnectionState} → Steps c d → c.keep_alive ≡ false → d.keep_alive ≡ false
Steps-keep_alive here h = h
Steps-keep_alive (further s step) h = (Step-permanence step).2 (Steps-keep_alive s h)
