-- ===== src/Controller/Run/Progress.antt =====
-- `Run` ends: once its context is done, its steps and those of its workers lead to its return.
use cel_admission_polyfill.Prelude.{
  ℕ, zero, suc, ◌+◌, ◌*◌, ◌<◌, true, ◌≡◌, refl, ◌⊎◌, inl, inr, Option, some, arith, subst, sym,
}
use cel_admission_polyfill.Context.{ContextError, program, IsSome, IsSome→some}
use cel_admission_polyfill.Controller.Run.{
  RunError, RunPc, syncing, starting, waiting, stopping, draining, joining, returned, RunState,
  Step, Reach, sync_stopped, start_worker, all_started, stopped, shut_down, drained, return, work,
  end, get, get_shutdown, done, done_again,
}
use cel_admission_polyfill.Controller.Run.Result.{
  IsSound, Step-IsSound, Reach-IsSound, place_lem, none_not_some,
}

abbrev pc_work : RunPc → ℕ
pc_work syncing = 1
pc_work (starting n) = 2 * n + 5
pc_work waiting = 4
pc_work stopping = 3
pc_work draining = 2
pc_work joining = 1
pc_work (returned r) = 0

-- The work that is left once the context is done: items are handled, and workers go to their end.
abbrev left : RunState → ℕ
left s = pc_work s.pc + s.idle + 2 * s.getting + 3 * s.processing + 2 * s.queued + 2 * s.dirty

zero_or_pos : (n : ℕ) → (n ≡ 0) ⊎ (0 < n)
zero_or_pos zero = inl refl
zero_or_pos (suc n) = inr (omega arith)

module _ (workers : ℕ) where
  -- `s` goes to `t` by steps of `Run` and of its workers alone.
  pub data Goes : RunState → RunState → Type 0 where
    stay : {s : RunState} → Goes s s
    go : {s t u : RunState} → Step workers s program t → Goes t u → Goes s u

  Step-lt : {s t : RunState} → Step workers s program t → IsSome s.ctx → left t < left s
  Step-lt (sync_stopped c e q) h = ground arith
  Step-lt (start_worker n e) h = ground arith
  Step-lt (all_started e) h = ground arith
  Step-lt (stopped c e q) h = ground arith
  Step-lt (shut_down e) h = ground arith
  Step-lt (drained e z) h = ground arith
  Step-lt (return e z) h = ground arith
  Step-lt {s} (work l e) h = absurd (none_not_some s.ctx e h)
  Step-lt (end c l e) h = omega arith
  Step-lt (get l q) h = omega arith
  Step-lt (get_shutdown l q d) h = omega arith
  Step-lt (done l) h = omega arith
  Step-lt (done_again l q) h = omega arith

  Step-ctx : {s t : RunState} → Step workers s program t → t.ctx ≡ s.ctx
  Step-ctx (sync_stopped c e q) = refl
  Step-ctx (start_worker n e) = refl
  Step-ctx (all_started e) = refl
  Step-ctx (stopped c e q) = refl
  Step-ctx (shut_down e) = refl
  Step-ctx (drained e z) = refl
  Step-ctx (return e z) = refl
  Step-ctx (work l e) = refl
  Step-ctx (end c l e) = refl
  Step-ctx (get l q) = refl
  Step-ctx (get_shutdown l q d) = refl
  Step-ctx (done l) = refl
  Step-ctx (done_again l q) = refl

  -- A worker that has an item can be done with it.
  item_progress :
      (s : RunState) → IsSound s → 0 < s.processing → (t : RunState) × Step workers s program t
  item_progress s i l = elim (zero_or_pos s.dirty) [
    | inl z ↦ (_, done (omega arith))
    | inr d ↦ (_, done_again l d)
  ]

  get_progress :
      (s : RunState)
      → 0 < s.getting
      → s.is_shutting_down ≡ true
      → (t : RunState) × Step workers s program t
  get_progress s l down = elim (zero_or_pos s.queued) [
    | inl z ↦ (_, get_shutdown l z down)
    | inr q ↦ (_, get l q)
  ]

  join_progress :
      (s : RunState) (c : ContextError)
      → IsSound s
      → s.ctx ≡ some c
      → s.pc ≡ joining
      → s.is_shutting_down ≡ true
      → (t : RunState) × Step workers s program t
  join_progress s c i q e down = elim (zero_or_pos s.idle) [
    | inr l ↦ (_, end c l q)
    | inl no_idle ↦ elim (zero_or_pos s.processing) [
      | inr l ↦ item_progress s i l
      | inl no_item ↦ elim (zero_or_pos s.getting) [
        | inr l ↦ get_progress s l down
        | inl no_get ↦ (_, return e (omega (arith, i.counted)))
      ]
    ]
  ]

  run_progress :
      (s : RunState) (c : ContextError) (pc : RunPc)
      → IsSound s
      → s.ctx ≡ some c
      → s.pc ≡ pc
      → ((r : Option RunError) × (s.pc ≡ returned r)) ⊎ ((t : RunState) × Step workers s program t)
  run_progress s c syncing i q e = inr (_, sync_stopped c e q)
  run_progress s c (starting zero) i q e = inr (_, all_started e)
  run_progress s c (starting (suc n)) i q e = inr (_, start_worker n e)
  run_progress s c waiting i q e = inr (_, stopped c e q)
  run_progress s c stopping i q e = inr (_, shut_down e)
  run_progress s c draining i q e = elim (zero_or_pos s.processing) [
    | inl z ↦ inr (_, drained e z)
    | inr l ↦ inr (item_progress s i l)
  ]
  run_progress s c joining i q e = inr (join_progress s c i q e (place_lem s joining e i).2)
  run_progress s c (returned r) i q e = inl (r, e)

  Goes-append :
      (n : ℕ) (s : RunState)
      → left s < n
      → IsSound s
      → IsSome s.ctx
      → (t : RunState) × (r : Option RunError) × Goes s t × (t.pc ≡ returned r)
  Goes-append zero s h i d = absurd (omega arith)
  Goes-append (suc n) s h i d =
      let (c, q) = IsSome→some s.ctx d in
      elim (run_progress s c s.pc i q refl) [
        | inl (r, e) ↦ (s, r, stay, e)
        | inr (t, st) ↦
            let (u, r, path, e) =
              Goes-append n t (omega (arith, Step-lt st d)) (Step-IsSound st i)
                (subst IsSome (sym (Step-ctx st)) d) in
            (u, r, go st path, e)
      ]

  -- From every state in which the context is done, the steps of `Run` and of its workers alone lead
  -- to a state in which `Run` has returned, provided that the reconciler returns on every item that a
  -- worker has.
  pub run_ends :
      (s : RunState)
      → Reach workers s
      → IsSome s.ctx
      → (t : RunState) × (r : Option RunError) × Goes s t × (t.pc ≡ returned r)
  run_ends s r d = Goes-append (suc (left s)) s (omega arith) (Reach-IsSound r) d
