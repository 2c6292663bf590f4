-- ===== src/Server/Lifecycle/Progress.antt =====
-- The process ends: once something makes it stop, some step of the program is possible until `main` has
-- returned, and each step leaves less work.
use cel_admission_polyfill.Prelude.{
  ℕ, suc, ◌+◌, ◌<◌, ◌≡◌, refl, Option, none, some, arith, inl, inr, ◌⊎◌, true,
}
use cel_admission_polyfill.Webhook.Run
use cel_admission_polyfill.Webhook.Run.{RunState, RunPc, ServerPc, serving, ended}
use cel_admission_polyfill.Context.{
  ContextError, canceled, Actor, program, IsSome, IsSome→some, first_of-IsSome, cancelled-IsSome,
}
use cel_admission_polyfill.Server.Lifecycle.{
  WorkerPc, absent, running, stopped, told, finished, MainPc, at_plugin, at_webhook, at_factories,
  waiting, returned, Process, server_error, Step, signal, start_plugin, start_webhook,
  start_factories, run_step, plugin_stops, plugin_fails, plugin_tells, plugin_finishes,
  webhook_stops, webhook_tells, webhook_finishes, main_returns, Reach,
}
use cel_admission_polyfill.Server.Lifecycle.Invariant.{IsSound, has_told, left_run}
use cel_admission_polyfill.Server.Lifecycle.Invariant.Steps.{Reach-IsSound, Step-IsSound}

-- The work that is left for each part of the state.
abbrev worker_work : WorkerPc → ℕ
worker_work absent = 4
worker_work running = 3
worker_work stopped = 2
worker_work told = 1
worker_work finished = 0

abbrev main_work : MainPc → ℕ
main_work at_plugin = 2
main_work at_webhook = 2
main_work at_factories = 2
main_work waiting = 1
main_work returned = 0

abbrev pc_work : {E : Type 0} → RunPc E → ℕ
pc_work Run.waiting = 3
pc_work Run.closing = 2
pc_work Run.closed = 1
pc_work (Run.returned r) = 0

abbrev server_work : ServerPc → ℕ
server_work serving = 2
server_work ServerPc.stopped = 1
server_work ended = 0

abbrev signal_work : Option ContextError → ℕ
signal_work none = 1
signal_work (some c) = 0

abbrev pub run_work : {E : Type 0} → RunState E → ℕ
run_work r = pc_work r.pc + server_work r.server

abbrev pub work : {E : Type 0} → Process E → ℕ
work s =
    signal_work s.root
    + run_work s.run
    + worker_work s.plugin
    + worker_work s.webhook
    + main_work s.main

-- A goroutine that has left `Run` has told the others, or is about to.
left_cases : (p : WorkerPc) → left_run p ≡ true → (p ≡ stopped) ⊎ (has_told p ≡ true)
left_cases absent h = cc
left_cases running h = cc
left_cases stopped h = inl refl
left_cases told h = inr refl
left_cases finished h = inr refl

module _ {E : Type 0} where
  run_step-lt :
      {parent : Option ContextError} {s t : RunState E} {a : Actor}
      → Run.Step parent s a t
      → run_work t < run_work s
  run_step-lt (Run.serve_returns e w) = ground arith
  run_step-lt (Run.cancel_fork w) = ground arith
  run_step-lt (Run.fork_done c w e) = ground arith
  run_step-lt (Run.close w) = ground arith
  run_step-lt (Run.return w) = ground arith

  Step-lt : {s t : Process E} {a : Actor} → Step s a t → IsSound s → work t < work s
  Step-lt {s} (signal e) i = ground arith
  Step-lt {s} (start_plugin e) i = ground (arith, i.plugin_begun)
  Step-lt {s} (start_webhook e) i = ground (arith, i.webhook_begun)
  Step-lt {s} (start_factories e) i = ground arith
  Step-lt {s} (run_step a r w st) i = omega (arith, run_step-lt st)
  Step-lt {s} (plugin_stops c e d) i = ground arith
  Step-lt {s} (plugin_fails e) i = ground arith
  Step-lt {s} (plugin_tells e) i = ground arith
  Step-lt {s} (plugin_finishes e) i = ground arith
  Step-lt {s} (webhook_stops r e q) i = ground arith
  Step-lt {s} (webhook_tells e) i = ground arith
  Step-lt {s} (webhook_finishes e) i = ground arith
  Step-lt {s} (main_returns e z) i = ground arith

  -- `s` goes to `t` by steps of the program alone.
  pub data Goes : Process E → Process E → Type 0 where
    stay : {s : Process E} → Goes s s
    go : {s t u : Process E} → Step s program t → Goes t u → Goes s u

  run_progress :
      (s : Process E) (c : ContextError) (pc : RunPc E)
      → server_error s ≡ some c
      → s.webhook ≡ running
      → s.run.pc ≡ pc
      → (t : Process E) × Step s program t
  run_progress s c Run.waiting d w e =
      let (c', done) =
        IsSome→some (Run.fork_error (server_error s) s.run) (rw d (first_of-IsSome s.run.fork c)) in
      (_, run_step program _ (λ a. ground arith) (Run.fork_done c' e done))
  run_progress s c Run.closing d w e = (_, run_step program _ (λ a. ground arith) (Run.close e))
  run_progress s c Run.closed d w e = (_, run_step program _ (λ a. ground arith) (Run.return e))
  run_progress s c (Run.returned r) d w e = (_, webhook_stops r w e)

  webhook_progress :
      (s : Process E) (c : ContextError) (w : WorkerPc)
      → IsSound s
      → server_error s ≡ some c
      → s.main ≡ waiting
      → s.plugin ≡ finished
      → s.webhook ≡ w
      → (t : Process E) × Step s program t
  webhook_progress s c absent i d m p w = absurd (ground (arith, i.webhook_begun))
  webhook_progress s c running i d m p w = run_progress s c s.run.pc d w refl
  webhook_progress s c stopped i d m p w = (_, webhook_tells w)
  webhook_progress s c told i d m p w = (_, webhook_finishes w)
  webhook_progress s c finished i d m p w = (_, main_returns m (ground (arith, i.counted)))

  plugin_progress :
      (s : Process E) (c : ContextError) (p : WorkerPc)
      → IsSound s
      → server_error s ≡ some c
      → s.main ≡ waiting
      → s.plugin ≡ p
      → (t : Process E) × Step s program t
  plugin_progress s c absent i d m p = absurd (ground (arith, i.plugin_begun))
  plugin_progress s c running i d m p = (_, plugin_stops c p d)
  plugin_progress s c stopped i d m p = (_, plugin_tells p)
  plugin_progress s c told i d m p = (_, plugin_finishes p)
  plugin_progress s c finished i d m p = webhook_progress s c s.webhook i d m p refl

  -- At each place of `main`, it has returned or some step of the program is possible.
  main_progress :
      (s : Process E) (c : ContextError) (m : MainPc)
      → IsSound s
      → server_error s ≡ some c
      → s.main ≡ m
      → (s.main ≡ returned) ⊎ ((t : Process E) × Step s program t)
  main_progress s c at_plugin i d m = inr (_, start_plugin m)
  main_progress s c at_webhook i d m = inr (_, start_webhook m)
  main_progress s c at_factories i d m = inr (_, start_factories m)
  main_progress s c waiting i d m = inr (plugin_progress s c s.plugin i d m refl)
  main_progress s c returned i d m = inl m

  -- A context that is done stays done.
  Step-done :
      {s t : Process E} {a : Actor} → Step s a t → IsSome (server_error s) → IsSome (server_error t)
  Step-done {s = s} (signal e) h = first_of-IsSome s.server_context canceled
  Step-done (start_plugin e) h = h
  Step-done (start_webhook e) h = h
  Step-done (start_factories e) h = h
  Step-done (run_step a r w st) h = h
  Step-done (plugin_stops c e d) h = h
  Step-done (plugin_fails e) h = h
  Step-done {s = s} (plugin_tells e) h = cancelled-IsSome (server_error s) s.root canceled
  Step-done (plugin_finishes e) h = h
  Step-done (webhook_stops r e q) h = h
  Step-done {s = s} (webhook_tells e) h = cancelled-IsSome (server_error s) s.root canceled
  Step-done (webhook_finishes e) h = h
  Step-done (main_returns e z) h = h

  Goes-append :
      (n : ℕ) (s : Process E)
      → work s < n
      → IsSound s
      → IsSome (server_error s)
      → (t : Process E) × Goes s t × (t.main ≡ returned)
  Goes-append ℕ.zero s h i d = absurd (omega arith)
  Goes-append (suc n) s h i d =
      let (c, e) = IsSome→some (server_error s) d in
      elim (main_progress s c s.main i e refl) [
        | inl r ↦ (s, stay, r)
        | inr (t, st) ↦
            let (u, path, r) =
              Goes-append n t (omega (arith, Step-lt st i)) (Step-IsSound st i) (Step-done st d) in
            (u, go st path, r)
      ]

  done_ends :
      (s : Process E)
      → IsSound s
      → IsSome (server_error s)
      → (t : Process E) × Goes s t × (t.main ≡ returned)
  done_ends s i d = Goes-append (suc (work s)) s (omega arith) i d

  step_ends :
      (s t : Process E)
      → IsSound s
      → Step s program t
      → IsSome (server_error t)
      → (u : Process E) × Goes s u × (u.main ≡ returned)
  step_ends s t i st d = let (u, path, r) = done_ends t (Step-IsSound st i) d in (u, go st path, r)

  -- What makes the process stop: the server context is done, as it is after a signal, or the `Run` of the
  -- plugin or of the webhook has ended.
  pub data IsStopped (s : Process E) : Type 0 where
    by_context : IsSome (server_error s) → IsStopped s
    by_plugin : left_run s.plugin ≡ true → IsStopped s
    by_webhook : left_run s.webhook ≡ true → IsStopped s

  -- From every state in which the server context is done, as after a signal, or in which the `Run` of the
  -- plugin or of the webhook has ended, be it that nobody has been told yet, the steps of the program
  -- alone lead to a state in which `main` has returned.
  pub main_ends :
      (s : Process E) → Reach s → IsStopped s → (t : Process E) × Goes s t × (t.main ≡ returned)
  main_ends s r (by_context d) = done_ends s (Reach-IsSound r) d
  main_ends s r (by_plugin h) = elim (left_cases s.plugin h) [
    | inl e ↦
        step_ends s _ (Reach-IsSound r) (plugin_tells e)
          (cancelled-IsSome (server_error s) s.root canceled)
    | inr e ↦ done_ends s (Reach-IsSound r) (IsSound.plugin_told (Reach-IsSound r) e)
  ]
  main_ends s r (by_webhook h) = elim (left_cases s.webhook h) [
    | inl e ↦
        step_ends s _ (Reach-IsSound r) (webhook_tells e)
          (cancelled-IsSome (server_error s) s.root canceled)
    | inr e ↦ done_ends s (Reach-IsSound r) (IsSound.webhook_told (Reach-IsSound r) e)
  ]
