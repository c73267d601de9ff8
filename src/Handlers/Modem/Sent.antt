-- ===== src/Handlers/Modem/Sent.antt =====
-- What reaches the modem.
use uswarm_unitctl.Base.{
  ℕ, ◌≤◌, ◌≡◌, ◌⊎◌, inl, inr, refl, true, Option, none, some, [], ◌∷◌, ◌++◌, arith, Bool-cases, err,
}
use uswarm_unitctl.Messages.{CommandEnvelope, CommandPayload, ModemCommandPayload, modem_commands}
use uswarm_unitctl.Handlers.Defs.{HandlerExit, finished}
use uswarm_unitctl.Handlers.Modem.{
  Modem, Calls, is_allowed_at_command, at_timeout, max_at_timeout_ms, modem_reply, run_at_command,
  dispatch_modem, handle_modem_commands,
}

abbrev pub IsFailure : HandlerExit → Type 0
IsFailure (finished (err m)) = Unit
IsFailure _ = ⊥

-- One call was made, of the payload's command as it came, and its answer is the reply.
pub record IsSent (p : ModemCommandPayload) (command : Modem) (calls : Calls)
    (out : HandlerExit × Calls) : Type 0 where
  pub allowed : is_allowed_at_command p.command ≡ true
  pub limited : at_timeout p.timeout_ms ≤ max_at_timeout_ms
  pub one_call : out.1 ≡ calls ++ (p.command, at_timeout p.timeout_ms) ∷ []
  pub reply : out.0 ≡ finished (modem_reply p.command (command p.command (at_timeout p.timeout_ms)))

at_timeout_limited : (t : Option ℕ) → at_timeout t ≤ max_at_timeout_ms
unfolding at_timeout
at_timeout_limited none = omega arith
at_timeout_limited (some t) = omega arith

run_sends :
    (modem : Option Modem) (p : ModemCommandPayload) (calls : Calls)
    → let out = run_at_command modem p calls in
      ((out.1 ≡ calls) × IsFailure out.0)
      ⊎ ((command : Modem) × (modem ≡ some command) × IsSent p command calls out)
unfolding run_at_command
run_sends none p calls = elim (Bool-cases (is_allowed_at_command p.command)) [
  | inl yes' ↦ rw yes' (inl (refl, tt))
  | inr no' ↦ rw no' (inl (refl, tt))
]
run_sends (some command) p calls = elim (Bool-cases (is_allowed_at_command p.command)) [
  | inl yes' ↦ rw yes' (
      inr (
        command,
        refl,
        record {
          allowed = yes';
          limited = at_timeout_limited p.timeout_ms;
          one_call = refl;
          reply = refl;
        },
      ))
  | inr no' ↦ rw no' (inl (refl, tt))
]

module _ {V : Type 0} where
  dispatch_sends :
      (modem : Option Modem) (payload : CommandPayload V) (calls : Calls)
      → let out = dispatch_modem modem payload calls in
        ((out.1 ≡ calls) × IsFailure out.0)
        ⊎ ((p : ModemCommandPayload) × (command : Modem) × (payload ≡ modem_commands p)
            × (modem ≡ some command)
            × IsSent p command calls out)
  unfolding dispatch_modem
  dispatch_sends modem (modem_commands p) calls = elim (run_sends modem p calls) [
    | inl h ↦ inl h
    | inr (command, e, s) ↦ inr (p, command, refl, e, s)
  ]
  dispatch_sends modem _ calls = inl (refl, tt)

  -- A run of the handler either fails and sends nothing to the modem, or it sends exactly one
  -- command: that of a modem payload, unchanged, which the allowlist lets through, with a timeout
  -- of 30 seconds at most, and what the modem answers is the handler's reply.
  pub handle_modem_commands-sends :
      (modem : Option Modem) (e : CommandEnvelope V) (calls : Calls)
      → let out = handle_modem_commands modem e calls in
        ((out.1 ≡ calls) × IsFailure out.0)
        ⊎ ((p : ModemCommandPayload) × (command : Modem) × (e.payload ≡ modem_commands p)
            × (modem ≡ some command)
            × IsSent p command calls out)
  unfolding handle_modem_commands
  handle_modem_commands-sends modem e calls = dispatch_sends modem e.payload calls
