-- ===== src/Server/Lifecycle/Tests.antt =====
-- Runs of the process: one that a signal ends, and its first steps.
use cel_admission_polyfill.Prelude.{◌≡◌, ◌≢◌, refl, arith, String, true, Option, none, some}
use cel_admission_polyfill.Webhook.Run
use cel_admission_polyfill.Context.{ContextError, canceled, Actor, IsSome}
use cel_admission_polyfill.Webhook.Run.{RunState, of_context, run_error}
use cel_admission_polyfill.Webhook.Run.Result
use cel_admission_polyfill.Webhook.Run.Result.{run_returns_context_error}
use cel_admission_polyfill.Server.Lifecycle.{
  WorkerPc, MainPc, finished, returned, Process, server_error, initial, Step, signal, start_plugin,
  start_webhook, start_factories, run_step, plugin_stops, plugin_fails, plugin_tells,
  plugin_finishes, webhook_stops, webhook_tells, webhook_finishes, main_returns, Reach, begin,
  later,
}
use cel_admission_polyfill.Server.Lifecycle.Shutdown.{main_shutdown}
use cel_admission_polyfill.Server.Lifecycle.Invariant.{has_returned}
use cel_admission_polyfill.Server.Lifecycle.Progress.{Goes, by_plugin, main_ends}

abbrev Failure : Type 0
Failure = String

module _ {s : Process Failure} where
  -- a step of the webhook's `Run`
  on_run :
      {a : Actor} {r : RunState Failure}
      → s.webhook ≢ WorkerPc.absent
      → Run.Step (server_error s) s.run a r
      → Step s a (record s { run = r })
  on_run w st = run_step _ _ w st

-- The plugin has failed while `main` starts, and has not told it yet.
abbrev plugin_failed : Process Failure
plugin_failed = record initial {
  plugin = WorkerPc.stopped;
  wait_group = 1;
  main = MainPc.at_webhook;
}

reach_plugin_failed : Reach plugin_failed
reach_plugin_failed = later (later begin (start_plugin refl)) (plugin_fails refl)

main_ends_example : (t : Process Failure) × Goes plugin_failed t × (t.main ≡ returned)
main_ends_example = main_ends plugin_failed reach_plugin_failed (by_plugin refl)

failed_run : RunState Failure
failed_run = record {
  fork = some canceled;
  server = Run.ended;
  server_error = some "address in use";
  is_closed = true;
  pc = Run.returned (some (of_context canceled));
}

-- The server fails to listen: `Run` returns that its context was cancelled.
reach_failed : Result.Reach none failed_run
unfolding failed_run run_error
reach_failed =
    Result.step
      (Result.step
        (Result.step
          (Result.step (Result.step (Result.begin none) (Run.serve_returns "address in use" refl))
            (Run.cancel_fork refl))
          (Run.fork_done canceled refl refl))
        (Run.close refl))
      (Run.return refl)

failed_pc : failed_run.pc ≡ Run.returned (some (of_context canceled))
unfolding failed_run
failed_pc = refl

run_returns_context_error_example :
    IsSome (Run.fork_error none failed_run)
    × (failed_run.is_closed ≡ true)
    × (c : ContextError) × (◌≡◌ {A = Option (Run.RunError Failure)}
        (some (of_context canceled))
        (some (of_context c)))
run_returns_context_error_example =
    run_returns_context_error none failed_run (some (of_context canceled)) reach_failed failed_pc

started_run : (w : WorkerPc) → w ≡ WorkerPc.running → w ≢ WorkerPc.absent
started_run w e h = ground arith

stopped_run : RunState Failure
stopped_run = record {
  fork = none;
  server = Run.serving;
  server_error = none;
  is_closed = true;
  pc = Run.returned (some (of_context canceled));
}

end : Process Failure
unfolding stopped_run
end = record {
  root = some canceled;
  server_context = some canceled;
  run = stopped_run;
  plugin = finished;
  webhook = finished;
  wait_group = 0;
  main = returned;
}

reach_end : Reach end
unfolding end stopped_run run_error
reach_end =
    later
      (later
        (later
          (later
            (later
              (later
                (later
                  (later
                    (later
                      (later
                        (later
                          (later (later (later begin (start_plugin refl)) (start_webhook refl))
                            (start_factories refl))
                          (signal refl))
                        (run_step _ _ (started_run _ refl) (Run.fork_done canceled refl refl)))
                      (run_step _ _ (started_run _ refl) (Run.close refl)))
                    (run_step _ _ (started_run _ refl) (Run.return refl)))
                  (webhook_stops _ refl refl))
                (webhook_tells refl))
              (webhook_finishes refl))
            (plugin_stops canceled refl refl))
          (plugin_tells refl))
        (plugin_finishes refl))
      (main_returns refl refl)

end_returned : end.main ≡ returned
unfolding end
end_returned = refl

main_shutdown_example :
    (end.plugin ≡ finished)
    × (end.webhook ≡ finished)
    × IsSome (server_error end)
    × (has_returned end.run.pc ≡ true)
    × (end.run.is_closed ≡ true)
main_shutdown_example = main_shutdown end reach_end end_returned
