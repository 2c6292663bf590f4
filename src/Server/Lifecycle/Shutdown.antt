-- ===== src/Server/Lifecycle/Shutdown.antt =====
-- What has happened when `main` returns.
use cel_admission_polyfill.Prelude.{true, ◌≡◌, Option}
use cel_admission_polyfill.Webhook.Run
use cel_admission_polyfill.Context.{ContextError, IsSome}
use cel_admission_polyfill.Webhook.Run.{RunState, RunPc}
use cel_admission_polyfill.Webhook.Run.Result.{Holds}
use cel_admission_polyfill.Server.Lifecycle.{finished, returned, Process, server_error, Reach}
use cel_admission_polyfill.Server.Lifecycle.Invariant.{
  is_finished, has_returned, IsSound, finished-told, finished-left, is_finished→eq,
}
use cel_admission_polyfill.Server.Lifecycle.Invariant.Steps.{Reach-IsSound}

module _ {E : Type 0} where
  all_left :
      (s : Process E)
      → IsSound s
      → is_finished s.plugin ≡ true
      → is_finished s.webhook ≡ true
      → IsSome (server_error s) × (has_returned s.run.pc ≡ true)
  all_left s i p w =
      (i.webhook_told (finished-told s.webhook w), i.run_left (finished-left s.webhook w))

  returned_closed :
      (parent : Option ContextError) (run : RunState E) (pc : RunPc E)
      → has_returned pc ≡ true
      → Holds parent run pc
      → run.is_closed ≡ true
  returned_closed parent run Run.waiting h k = cc
  returned_closed parent run Run.closing h k = cc
  returned_closed parent run Run.closed h k = cc
  returned_closed parent run (Run.returned r) h (done, shut, c, same) = shut

  -- When `main` has returned, the plugin's and the webhook's goroutines have ended, the server context
  -- is done, the webhook's `Run` has returned, and its server is closed.
  pub main_shutdown :
      (s : Process E)
      → Reach s
      → s.main ≡ returned
      → (s.plugin ≡ finished)
        × (s.webhook ≡ finished)
        × IsSome (server_error s)
        × (has_returned s.run.pc ≡ true)
        × (s.run.is_closed ≡ true)
  main_shutdown s r h =
      let i = Reach-IsSound r in
      let (p, w) = i.all_finished h in
      let (done, left) = all_left s i p w in
      (
        is_finished→eq s.plugin p,
        is_finished→eq s.webhook w,
        done,
        left,
        returned_closed (server_error s) s.run s.run.pc left i.run_holds,
      )
