-- ===== src/Server/Lifecycle/Invariant/Steps.antt =====
-- Every step of the process keeps the invariant.
use cel_admission_polyfill.Prelude.{true, ◌≡◌, refl, Option, some, arith}
use cel_admission_polyfill.Webhook.Run
use cel_admission_polyfill.Context.{
  ContextError, canceled, Actor, first_of, first_of-IsSome, cancelled-IsSome, parent-IsSome,
}
use cel_admission_polyfill.Webhook.Run.{RunState}
use cel_admission_polyfill.Webhook.Run.Result.{Holds, Holds-moved, Step-Holds}
use cel_admission_polyfill.Server.Lifecycle.{
  running, stopped, Process, server_error, initial, cancelled, Step, signal, start_plugin,
  start_webhook, start_factories, run_step, plugin_stops, plugin_fails, plugin_tells,
  plugin_finishes, webhook_stops, webhook_tells, webhook_finishes, main_returns, Reach, begin,
  later,
}
use cel_admission_polyfill.Server.Lifecycle.Invariant.{has_returned, IsSound, no_share-finished}

module _ {E : Type 0} where
  initial-IsSound : IsSound (initial {E = E})
  initial-IsSound = record {
    counted = refl;
    plugin_begun = refl;
    webhook_begun = refl;
    all_finished = λ h. cc;
    plugin_told = λ h. cc;
    webhook_told = λ h. cc;
    run_left = λ h. cc;
    run_holds = tt;
  }

  told-Holds :
      (s : Process E)
      → Holds (server_error s) s.run s.run.pc
      → Holds (first_of (cancelled s) s.root) s.run s.run.pc
  told-Holds s h =
      Holds-moved (server_error s) (first_of (cancelled s) s.root) s.run s.run s.run.pc
        (parent-IsSome s.run.fork (server_error s) (first_of (cancelled s) s.root)
          (λ x. cancelled-IsSome (server_error s) s.root canceled))
        (λ x. x) h

  -- Once `Run` has returned, only the goroutine of the server moves.
  Step-returned :
      {parent : Option ContextError} {s t : RunState E} {a : Actor}
      → Run.Step parent s a t
      → has_returned s.pc ≡ true
      → has_returned t.pc ≡ true
  Step-returned (Run.serve_returns e w) h = h
  Step-returned (Run.cancel_fork w) h = h
  Step-returned {s = s} (Run.fork_done c w e) h = absurd (ground arith)
  Step-returned {s = s} (Run.close w) h = absurd (ground arith)
  Step-returned (Run.return w) h = refl

  plugin_stopped :
      (s : Process E) → IsSound s → s.plugin ≡ running → IsSound (record s { plugin = stopped })
  plugin_stopped s i e = record {
    counted = ground (arith, i.counted);
    plugin_begun = ground (arith, i.plugin_begun);
    webhook_begun = i.webhook_begun;
    all_finished = λ h. absurd (ground (arith, i.all_finished h));
    plugin_told = λ h. cc;
    webhook_told = i.webhook_told;
    run_left = i.run_left;
    run_holds = i.run_holds;
  }

  pub Step-IsSound : {s t : Process E} {a : Actor} → Step s a t → IsSound s → IsSound t
  Step-IsSound {s} (signal e) i = record {
    counted = i.counted;
    plugin_begun = i.plugin_begun;
    webhook_begun = i.webhook_begun;
    all_finished = i.all_finished;
    plugin_told = λ h. first_of-IsSome s.server_context canceled;
    webhook_told = λ h. first_of-IsSome s.server_context canceled;
    run_left = i.run_left;
    run_holds =
        Holds-moved (server_error s) (first_of s.server_context (some canceled)) s.run s.run
          s.run.pc
          (parent-IsSome s.run.fork (server_error s) (first_of s.server_context (some canceled))
            (λ x. first_of-IsSome s.server_context canceled))
          (λ x. x) i.run_holds;
  }
  Step-IsSound {s} (start_plugin e) i = record {
    counted = ground (arith, i.counted, i.plugin_begun);
    plugin_begun = refl;
    webhook_begun = ground (arith, i.webhook_begun);
    all_finished = λ h. cc;
    plugin_told = λ h. cc;
    webhook_told = i.webhook_told;
    run_left = i.run_left;
    run_holds = i.run_holds;
  }
  Step-IsSound {s} (start_webhook e) i = record {
    counted = ground (arith, i.counted, i.webhook_begun);
    plugin_begun = ground (arith, i.plugin_begun);
    webhook_begun = refl;
    all_finished = λ h. cc;
    plugin_told = i.plugin_told;
    webhook_told = λ h. cc;
    run_left = λ h. cc;
    run_holds = i.run_holds;
  }
  Step-IsSound {s} (start_factories e) i = record {
    counted = i.counted;
    plugin_begun = ground (arith, i.plugin_begun);
    webhook_begun = ground (arith, i.webhook_begun);
    all_finished = λ h. cc;
    plugin_told = i.plugin_told;
    webhook_told = i.webhook_told;
    run_left = i.run_left;
    run_holds = i.run_holds;
  }
  Step-IsSound {s} (run_step a r w st) i = record {
    counted = i.counted;
    plugin_begun = i.plugin_begun;
    webhook_begun = i.webhook_begun;
    all_finished = i.all_finished;
    plugin_told = i.plugin_told;
    webhook_told = i.webhook_told;
    run_left = λ h. Step-returned st (i.run_left h);
    run_holds = Step-Holds st i.run_holds;
  }
  Step-IsSound {s} (plugin_stops c e d) i = plugin_stopped s i e
  Step-IsSound {s} (plugin_fails e) i = plugin_stopped s i e
  Step-IsSound {s} (plugin_tells e) i = record {
    counted = ground (arith, i.counted);
    plugin_begun = ground (arith, i.plugin_begun);
    webhook_begun = i.webhook_begun;
    all_finished = λ h. absurd (ground (arith, i.all_finished h));
    plugin_told = λ h. cancelled-IsSome (server_error s) s.root canceled;
    webhook_told = λ h. cancelled-IsSome (server_error s) s.root canceled;
    run_left = i.run_left;
    run_holds = told-Holds s i.run_holds;
  }
  Step-IsSound {s} (plugin_finishes e) i = record {
    counted = ground (arith, i.counted);
    plugin_begun = ground (arith, i.plugin_begun);
    webhook_begun = i.webhook_begun;
    all_finished = λ h. absurd (ground (arith, i.all_finished h));
    plugin_told = λ h. i.plugin_told (rw e refl);
    webhook_told = i.webhook_told;
    run_left = i.run_left;
    run_holds = i.run_holds;
  }
  Step-IsSound {s} (webhook_stops r e q) i = record {
    counted = ground (arith, i.counted);
    plugin_begun = i.plugin_begun;
    webhook_begun = ground (arith, i.webhook_begun);
    all_finished = λ h. absurd (ground (arith, i.all_finished h));
    plugin_told = i.plugin_told;
    webhook_told = λ h. cc;
    run_left = λ h. rw q refl;
    run_holds = i.run_holds;
  }
  Step-IsSound {s} (webhook_tells e) i = record {
    counted = ground (arith, i.counted);
    plugin_begun = i.plugin_begun;
    webhook_begun = ground (arith, i.webhook_begun);
    all_finished = λ h. absurd (ground (arith, i.all_finished h));
    plugin_told = λ h. cancelled-IsSome (server_error s) s.root canceled;
    webhook_told = λ h. cancelled-IsSome (server_error s) s.root canceled;
    run_left = λ h. i.run_left (rw e refl);
    run_holds = told-Holds s i.run_holds;
  }
  Step-IsSound {s} (webhook_finishes e) i = record {
    counted = ground (arith, i.counted);
    plugin_begun = i.plugin_begun;
    webhook_begun = ground (arith, i.webhook_begun);
    all_finished = λ h. absurd (ground (arith, i.all_finished h));
    plugin_told = i.plugin_told;
    webhook_told = λ h. i.webhook_told (rw e refl);
    run_left = λ h. i.run_left (rw e refl);
    run_holds = i.run_holds;
  }
  Step-IsSound {s} (main_returns e z) i = record {
    counted = i.counted;
    plugin_begun = ground (arith, i.plugin_begun);
    webhook_begun = ground (arith, i.webhook_begun);
    all_finished = λ h. (
      no_share-finished s.plugin (ground (arith, i.plugin_begun)) (omega (arith, i.counted)),
      no_share-finished s.webhook (ground (arith, i.webhook_begun)) (omega (arith, i.counted)),
    );
    plugin_told = i.plugin_told;
    webhook_told = i.webhook_told;
    run_left = i.run_left;
    run_holds = i.run_holds;
  }

  pub Reach-IsSound : {s : Process E} → Reach s → IsSound s
  Reach-IsSound begin = initial-IsSound
  Reach-IsSound (later r st) = Step-IsSound st (Reach-IsSound r)
