-- ===== src/Webhook/Run.antt =====
-- `(*webhook).Run`, as the steps of its two goroutines: the one that called it, which waits for the
-- forked context, and the one that serves.
pub mod Result
use cel_admission_polyfill.Context.{ContextError, canceled, Actor, program, environment, first_of}
use cel_admission_polyfill.Prelude.{Bool, true, false, ◌≡◌, Option, none, some}

-- The error that `Run` returns: `fork.Err()`, or `serverError`.
pub data RunError (E : Type 0) : Type 0 where
  of_context : ContextError → RunError E
  of_server : E → RunError E

-- Where `Run` stands: at `<-fork.Done()`, before `srv.Close()`, before `fork.Err()`, or returned.
pub data RunPc (E : Type 0) : Type 0 where
  waiting : RunPc E
  closing : RunPc E
  closed : RunPc E
  returned : Option (RunError E) → RunPc E

-- Where the goroutine stands: in `ListenAndServeTLS`, before `cancel()`, or at its end.
pub data ServerPc : Type 0 where
  serving : ServerPc
  stopped : ServerPc
  ended : ServerPc

-- `fork` is what the own `cancel` of the forked context has set, and `is_closed` says that
-- `srv.Close` has been called.
pub record RunState (E : Type 0) : Type 0 where
  pub fork : Option ContextError
  pub server : ServerPc
  pub server_error : Option E
  pub is_closed : Bool
  pub pc : RunPc E

-- `fork.Err()`: what the fork's own `cancel` has set, if it was called, or else that of its parent
abbrev pub fork_error : {E : Type 0} → Option ContextError → RunState E → Option ContextError
fork_error parent s = first_of s.fork parent

-- `err := fork.Err(); if err == nil { err = serverError }`
unfoldable pub run_error : {E : Type 0} → Option ContextError → RunState E → Option (RunError E)
run_error parent s = elim (fork_error parent s) [
  | some c ↦ some (of_context c)
  | none ↦ elim s.server_error [ none ↦ none | some e ↦ some (of_server e) ]
]

-- the start of `Run`, up to the `go`
abbrev pub started : {E : Type 0} → RunState E
started = record {
  fork = none;
  server = serving;
  server_error = none;
  is_closed = false;
  pc = waiting;
}

-- A step, while the error of the context that `Run` was given is `parent`.
pub data Step {E : Type 0} (parent : Option ContextError) (s : RunState E)
    : Actor → RunState E → Type 0 where
  -- `serverError = srv.ListenAndServeTLS(…)`
  serve_returns :
      (e : E)
      → s.server ≡ serving
      → Step parent s environment (record s { server = stopped; server_error = some e })
  -- `cancel()`, which leaves the error that the fork has, its parent's included
  cancel_fork :
      s.server ≡ stopped
      → Step parent s program
          (record s { server = ended; fork = first_of (fork_error parent s) (some canceled) })
  -- `<-fork.Done()`
  fork_done :
      (c : ContextError)
      → s.pc ≡ waiting
      → fork_error parent s ≡ some c
      → Step parent s program (record s { pc = closing })
  -- `srv.Close()`, whose error is only logged
  close : s.pc ≡ closing → Step parent s program (record s { is_closed = true; pc = closed })
  -- the end of `Run`
  return : s.pc ≡ closed → Step parent s program (record s { pc = returned (run_error parent s) })
