-- ===== src/Webhook/Run/Result.antt =====
-- What `Run` returns, and when.
use cel_admission_polyfill.Prelude.{true, ◌≡◌, refl, subst, Option, none, some, arith}
use cel_admission_polyfill.Context.{
  ContextError, canceled, Actor, first_of, IsSome, some→IsSome, IsSome→some, cancelled-IsSome,
  parent-IsSome,
}
use cel_admission_polyfill.Webhook.Run.{
  RunError, of_context, RunPc, waiting, closing, closed, returned, RunState, fork_error, run_error,
  Step, serve_returns, cancel_fork, fork_done, close, return, started, ServerPc,
}

-- What holds where `Run` stands: past its wait the context is done, past `Close` the server is
-- closed, and what it returns is the error of a context.
abbrev pub Holds : {E : Type 0} → Option ContextError → RunState E → RunPc E → Type 0
Holds parent s waiting = Unit
Holds parent s closing = IsSome (fork_error parent s)
Holds parent s closed = IsSome (fork_error parent s) × (s.is_closed ≡ true)
Holds parent s (returned r) =
    IsSome (fork_error parent s)
    × (s.is_closed ≡ true)
    × (c : ContextError) × (r ≡ some (of_context c))

module _ {E : Type 0} where
  -- A context that is done stays done.
  pub Holds-moved :
      (parent parent' : Option ContextError) (s t : RunState E) (pc : RunPc E)
      → (IsSome (fork_error parent s) → IsSome (fork_error parent' t))
      → (s.is_closed ≡ true → t.is_closed ≡ true)
      → Holds parent s pc
      → Holds parent' t pc
  Holds-moved parent parent' s t waiting f g h = tt
  Holds-moved parent parent' s t closing f g h = f h
  Holds-moved parent parent' s t closed f g h = (f h.0, g h.1)
  Holds-moved parent parent' s t (returned r) f g (h, k, c, l) = (f h, g k, c, l)

  run_error-IsSome :
      (parent : Option ContextError) (s : RunState E)
      → IsSome (fork_error parent s)
      → (c : ContextError) × (run_error parent s ≡ some (of_context c))
  unfolding run_error
  run_error-IsSome parent s h =
      let (c, e) = IsSome→some (fork_error parent s) h in (c, ground (arith, e))

  -- `h` at the place where the thread is known to stand
  at_place :
      (parent : Option ContextError) (s : RunState E) (pc : RunPc E)
      → s.pc ≡ pc
      → Holds parent s s.pc
      → Holds parent s pc
  at_place parent s pc e h = subst (Holds parent s) e h

  pub Step-Holds :
      {parent : Option ContextError} {s t : RunState E} {a : Actor}
      → Step parent s a t
      → Holds parent s s.pc
      → Holds parent t t.pc
  Step-Holds {parent} {s} (serve_returns e w) h =
      Holds-moved parent parent s (record s { server = ServerPc.stopped; server_error = some e })
        s.pc (λ x. x) (λ x. x) h
  Step-Holds {parent} {s} (cancel_fork w) h =
      Holds-moved parent parent s
        (record s {
          server = ServerPc.ended;
          fork = first_of (fork_error parent s) (some canceled);
        })
        s.pc (λ x. cancelled-IsSome (fork_error parent s) parent canceled) (λ x. x) h
  Step-Holds {parent} {s} (fork_done c w e) h = some→IsSome (fork_error parent s) c e
  Step-Holds {parent} {s} (close w) h = (at_place parent s closing w h, refl)
  Step-Holds {parent} {s} (return w) h =
      let (done, shut) = at_place parent s closed w h in
      let (c, same) = run_error-IsSome parent s done in (done, shut, c, same)

  -- The states of `Run`, with the error of the context that it was given: that context may be done
  -- from the start, or be done at any time.
  pub data Reach : Option ContextError → RunState E → Type 0 where
    begin : (parent : Option ContextError) → Reach parent started
    step :
        {parent : Option ContextError} {s t : RunState E} {a : Actor}
        → Reach parent s
        → Step parent s a t
        → Reach parent t
    parent_done :
        {parent : Option ContextError} {s : RunState E} (c : ContextError)
        → parent ≡ none
        → Reach parent s
        → Reach (some c) s

  Reach-Holds :
      {parent : Option ContextError} {s : RunState E} → Reach parent s → Holds parent s s.pc
  Reach-Holds (begin parent) = tt
  Reach-Holds (step r st) = Step-Holds st (Reach-Holds r)
  Reach-Holds (parent_done {parent = parent} {s = s} c e r) =
      Holds-moved parent (some c) s s s.pc (parent-IsSome s.fork parent (some c) (λ x. tt)) (λ x. x)
        (Reach-Holds r)

  -- When `Run` has returned, the server was closed, the forked context is done, and what it returned
  -- is the error of a context: not nil, and never the error of the server, also where the server
  -- failed to listen.
  pub run_returns_context_error :
      (parent : Option ContextError) (s : RunState E) (r : Option (RunError E))
      → Reach parent s
      → s.pc ≡ returned r
      → IsSome (fork_error parent s)
        × (s.is_closed ≡ true)
        × (c : ContextError) × (r ≡ some (of_context c))
  run_returns_context_error parent s r reach e =
      at_place parent s (returned r) e (Reach-Holds reach)
