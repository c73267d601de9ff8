-- ===== src/Restart/Handler/Outcomes.antt =====
-- What an answer of the restart handler says about the machine.
use mathlib.Core.Path.{subst}
use uswarm_unitctl.Base.{
  ℕ, zero, suc, ◌+◌, ◌/◌, ◌≤◌, ◌<◌, ◌≡◌, ◌≢◌, refl, sym, ap, ◌∙◌, append_assoc, inl, inr, true,
  Option, none, some, List, [], ◌∷◌, ◌++◌, Text, codes, length, length-append, Result, ok, err,
  arith, Bool-cases, Option-cases,
}
use uswarm_unitctl.Messages.{
  CommandEnvelope, CommandPayload, RestartTarget, camera, mavlink, modem, unitctl, reboot, restart,
  CommandResultData, restart_result,
}
use uswarm_unitctl.Handlers.Defs.{finished}
use uswarm_unitctl.Restart.Files.{write}
use uswarm_unitctl.Restart.Verify.{Output, is_success}
use uswarm_unitctl.Restart.Verify.Window.{is_active, verify_active_sound}
use uswarm_unitctl.Restart.Handler.{
  pending_file_name, RestartHandler, System, Machine, unit_for, verified, verify_unit,
  after_restart, restart_unit, after_self_restart, record_restart, exec_self_restart, systemctl,
  restart_target, dispatch_restart, schedule_reboot, handle_restart, polls,
}

answer_of : {a b : CommandResultData} → finished (ok a) ≡ finished (ok b) → a ≡ b
answer_of h = cc

refused_ne_done : {x : Text} {a : CommandResultData} → finished (err x) ≡ finished (ok a) → ⊥
refused_ne_done h = cc

-- `call` `n` times.
abbrev pub times : ℕ → Text × List Text → List (Text × List Text)
times zero call = []
times (suc n) call = call ∷ times n call

polls-times :
    (unit : Text) (n : ℕ)
    → polls unit n ≡ times n (codes "systemctl", codes "is-active" ∷ unit ∷ [])
polls-times unit zero = refl
polls-times unit (suc n) =
    ap (λ rest. systemctl (codes "is-active") unit ∷ rest) (polls-times unit n)

verified_sound :
    (target : RestartTarget) (unit : Text) (v : Option (ℕ × Result (Unit {0}) Text)) (m : Machine)
    (answer : CommandResultData)
    → (verified target unit v m).0 ≡ finished (ok answer)
    → (answer ≡ restart_result target)
      × (n : ℕ) × (v ≡ some (n, ok tt))
      × ((verified target unit v m).1.calls ≡ m.calls ++ polls unit n)
unfolding verified
verified_sound target unit none m answer e = ground arith
verified_sound target unit (some (n, ok u)) m answer e = (sym (answer_of e), n, refl, refl)
verified_sound target unit (some (n, err x)) m answer e = ground arith

module _ (sys : System) where
  -- `systemctl restart <unit>` succeeded, and after it `systemctl is-active <unit>` found the unit
  -- active `polled` times, up to the end of the window; no other program was run from `m` to `m'`.
  pub record IsRestarted (unit : Text) (h : RestartHandler) (m m' : Machine) : Type 0 where
    pub out : Output
    pub restarted :
        sys.run (length m.calls) (codes "systemctl", codes "restart" ∷ unit ∷ []) ≡ ok out
    pub succeeded : is_success out ≡ true
    pub polls : ℕ
    pub polled : 0 < polls
    pub window : sys.instant m.readings + h.verify_window ≤ sys.instant (m.readings + polls)
    pub active :
        (j : ℕ)
        → j < polls
        → is_active
            (sys.run (suc (length m.calls) + j) (codes "systemctl", codes "is-active" ∷ unit ∷ []))
          ≡ true
    pub calls :
        m'.calls
        ≡ m.calls
          ++ (codes "systemctl", codes "restart" ∷ unit ∷ [])
            ∷ times polls (codes "systemctl", codes "is-active" ∷ unit ∷ [])

  -- What a positive answer for a target has behind it.
  abbrev pub IsDone : RestartHandler → Machine → Machine → RestartTarget → Type 0
  IsDone h m m' camera = IsRestarted (codes "camera") h m m'
  IsDone h m m' mavlink = IsRestarted (codes "mavlink") h m m'
  IsDone h m m' modem = IsRestarted (codes "modem-restart") h m m'
  IsDone h m m' unitctl = ⊥
  IsDone h m m' reboot = (m'.reboots ≡ m.reboots + 1) × (m'.calls ≡ m.calls)

  -- The machine when the unit is polled for the first time.
  abbrev started : Text → Machine → Machine
  started unit m = record m { calls = m.calls ++ systemctl (codes "restart") unit ∷ [] }

  verify_unit_sound :
      (h : RestartHandler) (target : RestartTarget) (unit : Text) (m : Machine)
      (answer : CommandResultData)
      → (verify_unit sys h target unit m).0 ≡ finished (ok answer)
      → (answer ≡ restart_result target)
        × (n : ℕ) × (0 < n)
        × (sys.instant m.readings + h.verify_window ≤ sys.instant (m.readings + n))
        × ((j : ℕ)
            → j < n
            → is_active (sys.run (length m.calls + j) (systemctl (codes "is-active") unit)) ≡ true)
        × ((verify_unit sys h target unit m).1.calls ≡ m.calls ++ polls unit n)
  unfolding verify_unit
  verify_unit_sound h target unit m answer e =
      let (same, n, found, ran) = verified_sound target unit _ m answer e in
      let (a, b, c) =
        verify_active_sound (λ k. sys.run (length m.calls + k) (systemctl (codes "is-active") unit))
          (λ k. sys.instant (m.readings + k)) h.verify_window
          (h.verify_window / h.verify_interval + 2) n found in
      (
        same,
        n,
        a,
        subst (λ r. sys.instant r + h.verify_window ≤ sys.instant (m.readings + n)) (omega arith) b,
        c,
        ran,
      )

  after_restart_sound :
      (h : RestartHandler) (target : RestartTarget) (unit : Text) (m : Machine)
      (answer : CommandResultData) (result : Result Output Text)
      → sys.run (length m.calls) (systemctl (codes "restart") unit) ≡ result
      → (after_restart sys h target unit result (started unit m)).0 ≡ finished (ok answer)
      → (answer ≡ restart_result target)
        × IsRestarted unit h m (after_restart sys h target unit result (started unit m)).1
  unfolding after_restart
  after_restart_sound h target unit m answer (err x) ran e = absurd (ground arith)
  after_restart_sound h target unit m answer (ok out) ran e = elim (Bool-cases (is_success out)) [
    | inr failed ↦ absurd (refused_ne_done (rw failed at e))
    | inl good ↦
        let (same, n, a, b, c, calls) =
          verify_unit_sound h target unit (started unit m) answer (rw good at e) in
        (
          same,
          rw good (record {
            out = out;
            restarted = ran;
            succeeded = good;
            polls = n;
            polled = a;
            window = b;
            active = λ j before.
                subst (λ i. is_active (sys.run i (systemctl (codes "is-active") unit)) ≡ true)
                  (omega (arith, length-append m.calls (systemctl (codes "restart") unit ∷ [])))
                  (c j before);
            calls =
                calls
                ∙ append_assoc m.calls (systemctl (codes "restart") unit ∷ []) (polls unit n)
                ∙ ap (λ l. m.calls ++ systemctl (codes "restart") unit ∷ l) (polls-times unit n);
          }),
        )
  ]

  restart_unit_sound :
      (h : RestartHandler) (target : RestartTarget) (unit : Text) (m : Machine)
      (answer : CommandResultData)
      → (restart_unit sys h target unit m).0 ≡ finished (ok answer)
      → (answer ≡ restart_result target) × IsRestarted unit h m (restart_unit sys h target unit m).1
  unfolding restart_unit
  restart_unit_sound h target unit m answer e = after_restart_sound h target unit m answer _ refl e

  after_self_restart_sound :
      (result : Result Output Text) (m : Machine) (answer : CommandResultData)
      → (after_self_restart sys result m).0 ≢ finished (ok answer)
  unfolding after_self_restart
  after_self_restart_sound (err x) m answer e = ground arith
  after_self_restart_sound (ok out) m answer e = ground arith

  record_restart_sound :
      (uuid : Text) (error : Option Text) (m : Machine) (answer : CommandResultData)
      → (record_restart sys uuid error m).0 ≢ finished (ok answer)
  unfolding record_restart
  record_restart_sound uuid (some x) m answer e = ground arith
  record_restart_sound uuid none m answer e =
      after_self_restart_sound
        (sys.run (length m.calls) (systemctl (codes "restart") (codes "unitctl")))
        (record m {
          files = write m.files pending_file_name (uuid ++ 10 ∷ []);
          calls = m.calls ++ systemctl (codes "restart") (codes "unitctl") ∷ [];
        })
        answer e

  exec_sound :
      (uuid : Text) (m : Machine) (answer : CommandResultData)
      → (exec_self_restart sys uuid m).0 ≢ finished (ok answer)
  unfolding exec_self_restart
  exec_sound uuid m answer e = elim (Option-cases sys.create_dir_error) [
    | inl free ↦ record_restart_sound uuid sys.write_error m answer (rw free at e)
    | inr (x, failed) ↦ refused_ne_done (rw failed at e)
  ]

  target_sound :
      (h : RestartHandler) (target : RestartTarget) (uuid : Text) (m : Machine)
      (answer : CommandResultData)
      → (restart_target sys h target uuid m).0 ≡ finished (ok answer)
      → (answer ≡ restart_result target) × IsDone h m (restart_target sys h target uuid m).1 target
  unfolding restart_target schedule_reboot unit_for
  target_sound h camera uuid m answer e = restart_unit_sound h camera (codes "camera") m answer e
  target_sound h mavlink uuid m answer e = restart_unit_sound h mavlink (codes "mavlink") m answer e
  target_sound h modem uuid m answer e =
      restart_unit_sound h modem (codes "modem-restart") m answer e
  target_sound h unitctl uuid m answer e = absurd (exec_sound uuid m answer e)
  target_sound h reboot uuid m answer e = (sym (answer_of e), (refl, refl))

  dispatch_sound :
      {V : Type 0} (h : RestartHandler) (payload : CommandPayload V) (uuid : Text) (m : Machine)
      (answer : CommandResultData)
      → (dispatch_restart sys h payload uuid m).0 ≡ finished (ok answer)
      → (target : RestartTarget) × (payload ≡ restart target)
        × (answer ≡ restart_result target)
        × IsDone h m (dispatch_restart sys h payload uuid m).1 target
  unfolding dispatch_restart
  dispatch_sound h (restart target) uuid m answer e =
      let (a, b) = target_sound h target uuid m answer e in (target, refl, a, b)
  dispatch_sound h _ uuid m answer e = absurd (refused_ne_done e)

module _ {V : Type 0} (sys : System) where
  -- A positive answer names the target of the request. For the camera, mavlink and modem units it is
  -- only given after `systemctl restart` of the unit of that name (`modem-restart` for the modem)
  -- succeeded and every `systemctl is-active` of the same unit up to the end of the window found it
  -- active, and these are the programs that were run. For a reboot one more reboot waits for its delay
  -- and no program was run; for the service itself it is never given by this handler.
  pub handle_restart_sound :
      (h : RestartHandler) (e : CommandEnvelope V) (m : Machine) (answer : CommandResultData)
      → (handle_restart sys h e m).0 ≡ finished (ok answer)
      → (target : RestartTarget) × (e.payload ≡ restart target)
        × (answer ≡ restart_result target)
        × IsDone sys h m (handle_restart sys h e m).1 target
  unfolding handle_restart
  handle_restart_sound h e m answer done = dispatch_sound sys h e.payload e.uuid m answer done
