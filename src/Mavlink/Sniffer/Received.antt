-- ===== src/Mavlink/Sniffer/Received.antt =====
-- mavlink/sniffer_component.rs: what a connection leaves in the context.
use uswarm_unitctl.Base.{ℕ, ◌≡◌, refl, sym, ◌∙◌, List, [], ◌∷◌, ◌++◌, append_assoc, append-nil}
use uswarm_unitctl.Config.{MavlinkConfig}
use uswarm_unitctl.Mavlink.Frames.{MavHeader}
use uswarm_unitctl.Mavlink.Systems.{handle_heartbeats}
use uswarm_unitctl.Mavlink.Sniffer.{
  ReceivedMessage, heartbeat, other_message, RecvEvent, frame, transient_error, lost, shutdown,
  SnifferState, recv_loop,
}

module _ {M : Type 0} where
  -- The frames up to the end of the loop, and the system ids of the heartbeats among them.
  abbrev pub frames_of : List (RecvEvent M) → List (MavHeader × ReceivedMessage M)
  frames_of [] = []
  frames_of (frame header msg ∷ events) = (header, msg) ∷ frames_of events
  frames_of (transient_error ∷ events) = frames_of events
  frames_of (lost ∷ events) = []
  frames_of (shutdown ∷ events) = []

  abbrev pub heard : List (MavHeader × ReceivedMessage M) → List ℕ
  heard [] = []
  heard ((header, heartbeat) ∷ frames) = header.system_id ∷ heard frames
  heard ((header, other_message m) ∷ frames) = heard frames

  -- The loop leaves the systems of the heartbeats that it received, and broadcasts every frame, once and
  -- in order; transient errors change nothing.
  pub recv_loop-received :
      (config : MavlinkConfig) (events : List (RecvEvent M)) (s : SnifferState M)
      → ((recv_loop config events s).1.systems
          ≡ handle_heartbeats config s.systems (heard (frames_of events)))
        × ((recv_loop config events s).1.broadcast ≡ s.broadcast ++ frames_of events)
  unfolding recv_loop handle_heartbeats
  recv_loop-received config [] s = (refl, sym (append-nil s.broadcast))
  recv_loop-received config (frame header heartbeat ∷ events) s =
      let (systems, broadcast) = recv_loop-received config events _ in
      (systems, broadcast ∙ append_assoc s.broadcast _ (frames_of events))
  recv_loop-received config (frame header (other_message m) ∷ events) s =
      let (systems, broadcast) = recv_loop-received config events _ in
      (systems, broadcast ∙ append_assoc s.broadcast _ (frames_of events))
  recv_loop-received config (transient_error ∷ events) s = recv_loop-received config events s
  recv_loop-received config (lost ∷ events) s = (refl, sym (append-nil s.broadcast))
  recv_loop-received config (shutdown ∷ events) s = (refl, sym (append-nil s.broadcast))
