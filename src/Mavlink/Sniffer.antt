-- ===== src/Mavlink/Sniffer.antt =====
-- mavlink/sniffer_component.rs: the loop that receives frames on one connection. `M` is the type of the
-- messages that are no heartbeats.
pub mod Received
use uswarm_unitctl.Base.{ℕ, Bool, true, false, List, [], ◌∷◌, ◌++◌}
use uswarm_unitctl.Config.{MavlinkConfig}
use uswarm_unitctl.Mavlink.Frames.{MavHeader}
use uswarm_unitctl.Mavlink.Systems.{handle_heartbeat}

pub data ReceivedMessage (M : Type 0) : Type 0 where
  heartbeat : ReceivedMessage M
  other_message : M → ReceivedMessage M

-- What `conn.recv()` answers, a failed receiving task counting as the cancellation that it is taken for.
pub data RecvEvent (M : Type 0) : Type 0 where
  frame : MavHeader → ReceivedMessage M → RecvEvent M
  transient_error : RecvEvent M
  lost : RecvEvent M
  shutdown : RecvEvent M

-- The systems of the context, and the frames that were broadcast.
pub record SnifferState (M : Type 0) : Type 0 where
  pub systems : List ℕ
  pub broadcast : List (MavHeader × ReceivedMessage M)

-- How the loop ends: `true` for a lost connection, `false` for a shutdown.
pub data RecvExit : Type 0 where
  returned : Bool → RecvExit
  still_receiving : RecvExit

module _ {M : Type 0} (config : MavlinkConfig) where
  -- `if let MavMessage::HEARTBEAT(_) = &msg`
  abbrev discovered : MavHeader → ReceivedMessage M → List ℕ → List ℕ
  discovered header heartbeat systems = handle_heartbeat config systems header.system_id
  discovered header (other_message m) systems = systems

  -- `MavlinkSniffer::recv_loop`
  unfoldable pub recv_loop : List (RecvEvent M) → SnifferState M → RecvExit × SnifferState M
  unfolding handle_heartbeat
  recv_loop [] s = (still_receiving, s)
  recv_loop (frame header msg ∷ events) s = recv_loop events (record {
    systems = discovered header msg s.systems;
    broadcast = s.broadcast ++ (header, msg) ∷ [];
  })
  recv_loop (transient_error ∷ events) s = recv_loop events s
  recv_loop (lost ∷ events) s = (returned true, s)
  recv_loop (shutdown ∷ events) s = (returned false, s)
