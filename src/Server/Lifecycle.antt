-- ===== src/Server/Lifecycle.antt =====
-- The life of the process: the end of `main` in cmd/cel-admission-polyfill/main.go, from the loop over
-- the validators on, with the goroutine that runs the plugin, the one that runs the webhook, and the
-- two of `(*webhook).Run`. The informers' goroutines and the loop that refreshes the REST mapper, for
-- which `main` does not wait, are left out.
pub mod Invariant
pub mod Shutdown
pub mod Progress
mod Tests
use cel_admission_polyfill.Prelude.{ℕ, ◌+◌, ◌-◌, ◌≡◌, ◌≢◌, Option, none, some}
use cel_admission_polyfill.Webhook.Run
use cel_admission_polyfill.Context.{ContextError, canceled, Actor, program, environment, first_of}
use cel_admission_polyfill.Webhook.Run.{RunState, started}

-- Where a goroutine of `main` stands: not started, in `Run`, before `serverCancel()`, before
-- `waitGroup.Done()`, or at its end.
pub data WorkerPc : Type 0 where
  absent : WorkerPc
  running : WorkerPc
  stopped : WorkerPc
  told : WorkerPc
  finished : WorkerPc

-- Where `main` stands: before it starts the plugin, before it starts the webhook, before it starts
-- the factories, at `waitGroup.Wait()`, or at its end.
pub data MainPc : Type 0 where
  at_plugin : MainPc
  at_webhook : MainPc
  at_factories : MainPc
  waiting : MainPc
  returned : MainPc

-- `root` is the error of `ctx`, which a signal cancels, and `server_context` what `serverCancel` has
-- set; `run` is the state of the webhook's `Run`.
pub record Process (E : Type 0) : Type 0 where
  pub root : Option ContextError
  pub server_context : Option ContextError
  pub run : RunState E
  pub plugin : WorkerPc
  pub webhook : WorkerPc
  pub wait_group : ℕ
  pub main : MainPc

-- `serverContext.Err()`
abbrev pub server_error : {E : Type 0} → Process E → Option ContextError
server_error s = first_of s.server_context s.root

abbrev pub initial : {E : Type 0} → Process E
initial = record {
  root = none;
  server_context = none;
  run = started;
  plugin = absent;
  webhook = absent;
  wait_group = 0;
  main = at_plugin;
}

-- `serverCancel()`, which leaves the error that the server context has
abbrev pub cancelled : {E : Type 0} → Process E → Option ContextError
cancelled s = first_of (server_error s) (some canceled)

pub data Step {E : Type 0} (s : Process E) : Actor → Process E → Type 0 where
  signal : s.root ≡ none → Step s environment (record s { root = some canceled })
  start_plugin :
      s.main ≡ at_plugin
      → Step s program
          (record s { plugin = running; wait_group = s.wait_group + 1; main = at_webhook })
  start_webhook :
      s.main ≡ at_webhook
      → Step s program
          (record s { webhook = running; wait_group = s.wait_group + 1; main = at_factories })
  start_factories : s.main ≡ at_factories → Step s program (record s { main = waiting })
  -- a step of the webhook's `Run`, or of the goroutine that it has started
  run_step :
      (a : Actor) (r : RunState E)
      → s.webhook ≢ absent
      → Run.Step (server_error s) s.run a r
      → Step s a (record s { run = r })
  -- `evaluator.Run` returns when the context is done, or else by itself.
  plugin_stops :
      (c : ContextError)
      → s.plugin ≡ running
      → server_error s ≡ some c
      → Step s program (record s { plugin = stopped })
  plugin_fails : s.plugin ≡ running → Step s environment (record s { plugin = stopped })
  plugin_tells :
      s.plugin ≡ stopped → Step s program (record s { plugin = told; server_context = cancelled s })
  plugin_finishes :
      s.plugin ≡ told
      → Step s program (record s { plugin = finished; wait_group = s.wait_group - 1 })
  webhook_stops :
      (r : Option (Run.RunError E))
      → s.webhook ≡ running
      → s.run.pc ≡ Run.returned r
      → Step s program (record s { webhook = stopped })
  webhook_tells :
      s.webhook ≡ stopped
      → Step s program (record s { webhook = told; server_context = cancelled s })
  webhook_finishes :
      s.webhook ≡ told
      → Step s program (record s { webhook = finished; wait_group = s.wait_group - 1 })
  main_returns : s.main ≡ waiting → s.wait_group ≡ 0 → Step s program (record s { main = returned })

pub data Reach {E : Type 0} : Process E → Type 0 where
  begin : Reach initial
  later : {s t : Process E} {a : Actor} → Reach s → Step s a t → Reach t
