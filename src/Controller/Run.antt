-- ===== src/Controller/Run.antt =====
-- `(*controller).Run`, as the steps of the goroutine that called it and of its workers. The workers
-- are alike, so that the state counts how many stand at each place, and of the work queue how many
-- items there are: `queued` are waiting, `dirty` are being processed and were added again meanwhile.
-- The handlers of events add items, as steps of the environment, until the queue is shut down.
pub mod Result
pub mod Progress
mod Tests
use cel_admission_polyfill.Prelude.{
  ℕ, suc, ◌+◌, ◌-◌, ◌<◌, Bool, true, false, ◌≡◌, Option, none, some,
}
use cel_admission_polyfill.Context.{ContextError, Actor, program, environment}

-- The error that `Run` returns: `ctx.Err()`, or `errors.New("cache sync failed")`.
pub data RunError : Type 0 where
  of_context : ContextError → RunError
  sync_failed : RunError

-- Where `Run` stands: at `WaitForNamedCacheSync`, in the loop that starts workers, with so many rounds
-- to go, at `<-ctx.Done()`, before `ShutDownWithDrain`, in it, at `waitGroup.Wait()`, or returned.
pub data RunPc : Type 0 where
  syncing : RunPc
  starting : ℕ → RunPc
  waiting : RunPc
  stopping : RunPc
  draining : RunPc
  joining : RunPc
  returned : Option RunError → RunPc

-- `has_synced` is set when `WaitForNamedCacheSync` has returned true; `idle` workers are before a test of `wait.Until`, `getting` ones at `c.queue.Get()`, and
-- `processing` ones have an item.
pub record RunState : Type 0 where
  pub ctx : Option ContextError
  pub pc : RunPc
  pub has_synced : Bool
  pub idle : ℕ
  pub getting : ℕ
  pub processing : ℕ
  pub wait_group : ℕ
  pub queued : ℕ
  pub dirty : ℕ
  pub is_shutting_down : Bool

-- `err := ctx.Err(); if err == nil { err = errors.New("cache sync failed") }`
unfoldable pub sync_error : Option ContextError → Option RunError
sync_error none = some sync_failed
sync_error (some c) = some (of_context c)

-- `return ctx.Err()`
unfoldable pub context_result : Option ContextError → Option RunError
context_result none = none
context_result (some c) = some (of_context c)

-- the start of `Run`, with what the queue holds already, and a context that may be done
abbrev pub begun : Option ContextError → RunState
begun ctx = record {
  ctx = ctx;
  pc = syncing;
  has_synced = false;
  idle = 0;
  getting = 0;
  processing = 0;
  wait_group = 0;
  queued = 0;
  dirty = 0;
  is_shutting_down = false;
}

-- A step of a controller with so many workers.
pub data Step (workers : ℕ) (s : RunState) : Actor → RunState → Type 0 where
  cancel :
      (c : ContextError) → s.ctx ≡ none → Step workers s environment (record s { ctx = some c })
  -- a handler adds a key that is not in the queue, or one that is being processed
  add : s.is_shutting_down ≡ false → Step workers s environment (record s { queued = s.queued + 1 })
  add_again :
      s.is_shutting_down ≡ false
      → s.dirty < s.processing
      → Step workers s environment (record s { dirty = s.dirty + 1 })
  synced :
      s.pc ≡ syncing
      → Step workers s environment (record s { pc = starting workers; has_synced = true })
  -- `WaitForNamedCacheSync` returns false, as it does when the context is done
  not_synced :
      s.pc ≡ syncing → Step workers s environment (record s { pc = returned (sync_error s.ctx) })
  sync_stopped :
      (c : ContextError)
      → s.pc ≡ syncing
      → s.ctx ≡ some c
      → Step workers s program (record s { pc = returned (sync_error s.ctx) })
  start_worker :
      (n : ℕ)
      → s.pc ≡ starting (suc n)
      → Step workers s program
          (record s { pc = starting n; idle = s.idle + 1; wait_group = s.wait_group + 1 })
  all_started : s.pc ≡ starting 0 → Step workers s program (record s { pc = waiting })
  stopped :
      (c : ContextError)
      → s.pc ≡ waiting
      → s.ctx ≡ some c
      → Step workers s program (record s { pc = stopping })
  shut_down :
      s.pc ≡ stopping → Step workers s program (record s { pc = draining; is_shutting_down = true })
  drained : s.pc ≡ draining → s.processing ≡ 0 → Step workers s program (record s { pc = joining })
  return :
      s.pc ≡ joining
      → s.wait_group ≡ 0
      → Step workers s program (record s { pc = returned (context_result s.ctx) })
  -- `wait.Until` calls `runWorker`, unless the context is done: then the goroutine ends
  work :
      0 < s.idle
      → s.ctx ≡ none
      → Step workers s program (record s { idle = s.idle - 1; getting = s.getting + 1 })
  end :
      (c : ContextError)
      → 0 < s.idle
      → s.ctx ≡ some c
      → Step workers s program (record s { idle = s.idle - 1; wait_group = s.wait_group - 1 })
  -- `Get` returns an item, or that the queue is shut down
  get :
      0 < s.getting
      → 0 < s.queued
      → Step workers s program (record s {
        getting = s.getting - 1;
        processing = s.processing + 1;
        queued = s.queued - 1;
      })
  get_shutdown :
      0 < s.getting
      → s.queued ≡ 0
      → s.is_shutting_down ≡ true
      → Step workers s program (record s { getting = s.getting - 1; idle = s.idle + 1 })
  -- the item has been handled, and `Done` called; if it was added again, it is queued
  done :
      s.dirty < s.processing
      → Step workers s program (record s { processing = s.processing - 1; getting = s.getting + 1 })
  done_again :
      0 < s.processing
      → 0 < s.dirty
      → Step workers s program (record s {
        processing = s.processing - 1;
        getting = s.getting + 1;
        queued = s.queued + 1;
        dirty = s.dirty - 1;
      })

pub data Reach (workers : ℕ) : RunState → Type 0 where
  begin : (ctx : Option ContextError) → Reach workers (begun ctx)
  later : {s t : RunState} {a : Actor} → Reach workers s → Step workers s a t → Reach workers t
