-- ===== src/Connection/Lifecycle.antt =====
-- crates/h11r/src/connection/mod.rs: a connection is reused only between exchanges.
use h11r.Prelude.{◌≡◌, refl, arith, inl, inr, ◌⊎◌, Bool, true, not, ◌&&◌, ◌||◌, is_empty, is_ok}
use h11r.State
use h11r.State.{
  Role, client, server, peer, State, state_eq, no_proposal, disable_keep_alive, state_tag,
}
use h11r.Connection.{Connection, default_cycle, is_client, start_next_cycle}
use h11r.Wire.Buffer.{as_slice}

-- Whether the exchange is over, with nothing left that would make its reuse unsafe.
abbrev pub is_reusable : Connection → Bool
is_reusable c =
    state_eq c.state.client State.done
    && state_eq c.state.server State.done
    && c.state.keep_alive
    && no_proposal c.state.proposals
    && (not (is_client c.role) || is_empty (as_slice c.input))

pub role_cases : (r : Role) → (r ≡ client) ⊎ (r ≡ server)
role_cases client = inl refl
role_cases server = inr refl

-- A connection starts a new cycle exactly if it is reusable, and then both its states and its cycle are
-- those of a fresh connection, while the bytes received ahead stay.
pub start_next_cycle_iff :
    (c : Connection)
    → (is_ok (start_next_cycle c).1 ≡ is_reusable c)
      × (is_reusable c ≡ true
          → (start_next_cycle c).0 ≡ record c { state = State.new; cycle = default_cycle })
unfolding start_next_cycle State.start_next_cycle State.state peer
start_next_cycle_iff c = elim (role_cases c.role) [
  | inl at_client ↦ (ground (arith, at_client), λ h. ground (arith, at_client))
  | inr at_server ↦ (ground (arith, at_server), λ h. ground (arith, at_server))
]
