-- ===== src/Restart/Handler/Pending.antt =====
-- The pending file of a restart of the service itself.
use uswarm_unitctl.Base.{
  ◌≡◌, ◌⊎◌, refl, inl, inr, true, not, ◌&&◌, none, some, [], ◌∷◌, ◌++◌, Text, codes, length,
  is_some, Result, ok, err, Bool-cases,
}
use uswarm_unitctl.Messages.{CommandEnvelope, unitctl, restart}
use uswarm_unitctl.Handlers.Defs.{HandlerExit, finished, parked}
use uswarm_unitctl.Restart.Files.{read, read_written, read_deleted}
use uswarm_unitctl.Restart.Verify.{Output, is_success}
use uswarm_unitctl.Restart.Handler.{
  pending_file_name, RestartHandler, System, Machine, delete_pending_file, after_self_restart,
  record_restart, exec_self_restart, restart_target, dispatch_restart, handle_restart, systemctl,
}

abbrev pub IsFailed : HandlerExit → Type 0
IsFailed (finished (err message)) = Unit
IsFailed _ = ⊥

-- The handler waits to be killed, with the uuid in the pending file.
abbrev pub IsPending : Text → HandlerExit × Machine → Type 0
IsPending uuid out =
    (out.0 ≡ parked) × (read out.1.files pending_file_name ≡ some (uuid ++ 10 ∷ []))

-- The handler failed and left no pending file.
abbrev pub IsWithdrawn : HandlerExit × Machine → Type 0
IsWithdrawn out = IsFailed out.0 × (read out.1.files pending_file_name ≡ none)

module _ (sys : System) where
  withdrawn :
      (m : Machine)
      → sys.can_remove ≡ true
      → read (delete_pending_file sys m).files pending_file_name ≡ none
  unfolding delete_pending_file
  withdrawn m h = rw h (read_deleted m.files pending_file_name)

  after_self_restart-IsPending :
      (uuid : Text) (result : Result Output Text) (m : Machine)
      → sys.can_remove ≡ true
      → read m.files pending_file_name ≡ some (uuid ++ 10 ∷ [])
      → IsPending uuid (after_self_restart sys result m)
        ⊎ IsWithdrawn (after_self_restart sys result m)
  unfolding after_self_restart
  after_self_restart-IsPending uuid (err x) m h e = inr (tt, withdrawn m h)
  after_self_restart-IsPending uuid (ok out) m h e =
      elim (Bool-cases (not (is_success out) && is_some out.code)) [
        | inl failed ↦ rw failed (inr (tt, withdrawn m h))
        | inr good ↦ rw good (inl (refl, e))
      ]

  exec-IsPending :
      (uuid : Text) (m : Machine)
      → sys.create_dir_error ≡ none
      → sys.write_error ≡ none
      → sys.can_remove ≡ true
      → IsPending uuid (exec_self_restart sys uuid m) ⊎ IsWithdrawn (exec_self_restart sys uuid m)
  unfolding exec_self_restart record_restart
  exec-IsPending uuid m created written h =
      rw (created, written, exec_self_restart, record_restart)
        (after_self_restart-IsPending uuid
          (sys.run (length m.calls) (systemctl (codes "restart") (codes "unitctl"))) _ h
          (read_written m.files pending_file_name (uuid ++ 10 ∷ [])))

  -- On a directory that can be created and written and whose files can be removed, a request to
  -- restart the service itself has two outcomes: the handler never answers and the pending file
  -- holds the uuid, or it answers with an error and there is no pending file.
  pub handle_restart-IsPending :
      {V : Type 0} (h : RestartHandler) (e : CommandEnvelope V) (m : Machine)
      → e.payload ≡ restart unitctl
      → sys.create_dir_error ≡ none
      → sys.write_error ≡ none
      → sys.can_remove ≡ true
      → IsPending e.uuid (handle_restart sys h e m) ⊎ IsWithdrawn (handle_restart sys h e m)
  unfolding handle_restart dispatch_restart restart_target
  handle_restart-IsPending h e m asked created written can =
      rw asked (exec-IsPending e.uuid m created written can)
