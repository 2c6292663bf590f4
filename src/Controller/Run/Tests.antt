-- ===== src/Controller/Run/Tests.antt =====
-- A controller with one worker that is stopped while an item is queued and its cache has synced.
use cel_admission_polyfill.Prelude.{◌≡◌, refl, true, Option, some, arith}
use cel_admission_polyfill.Context.{canceled}
use cel_admission_polyfill.Controller.Run
use cel_admission_polyfill.Controller.Run.{
  RunError, of_context, returned, RunState, begun, context_result, Reach, begin, later, add, synced,
  start_worker, all_started, stopped, shut_down, drained, return, end,
}
use cel_admission_polyfill.Controller.Run.Result.{Ends, run_returns}
use cel_admission_polyfill.Controller.Run.Progress.{Goes, run_ends}

abbrev synced_state : RunState
synced_state = record (begun (some canceled)) { queued = 1; pc = Run.starting 1; has_synced = true }

reach_synced : Reach 1 synced_state
reach_synced = later (later (begin (some canceled)) (add refl)) (synced refl)

run_ends_example :
    (t : RunState) × (r : Option RunError) × Goes 1 synced_state t × (t.pc ≡ returned r)
run_ends_example = run_ends 1 synced_state reach_synced tt

-- Its worker ends before it calls `runWorker`, so that `Run` returns with the item still queued.
abbrev final : RunState
final = record (begun (some canceled)) {
  pc = returned (some (of_context canceled));
  has_synced = true;
  queued = 1;
  is_shutting_down = true;
}

reach_final : Reach 1 final
unfolding context_result
reach_final =
    later
      (later
        (later
          (later
            (later (later (later reach_synced (start_worker 0 refl)) (all_started refl))
              (stopped canceled refl refl))
            (shut_down refl))
          (drained refl refl))
        (end canceled (omega arith) refl))
      (return refl refl)

run_returns_example : Ends final (some (of_context canceled))
run_returns_example = run_returns final (some (of_context canceled)) reach_final refl
