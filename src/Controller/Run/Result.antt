-- ===== src/Controller/Run/Result.antt =====
-- What `Run` returns, and what holds then.
use cel_admission_polyfill.Prelude.{
  ℕ, suc, false, ◌+◌, ◌-◌, ◌≤◌, true, ◌≡◌, refl, ◌⊎◌, inl, inr, Option, none, some, arith, subst,
  sym, ◌∙◌,
}
use cel_admission_polyfill.Context.{ContextError, Actor, IsSome, some→IsSome, IsSome→some}
use cel_admission_polyfill.Controller.Run.{
  RunError, of_context, sync_failed, RunPc, syncing, starting, waiting, stopping, draining, joining,
  returned, RunState, sync_error, context_result, Step, Reach, begin, later, cancel, add, add_again,
  synced, not_synced, sync_stopped, start_worker, all_started, stopped, shut_down, drained, return,
  work, end, get, get_shutdown, done, done_again,
}

-- What a `Run` that has returned `r` leaves: all workers have ended, and none has an item. Either the
-- cache did not sync, and `r` is the context's error, or that the sync failed; or the cache synced, `r` is
-- the context's error, and the queue is shut down.
abbrev pub Ends : RunState → Option RunError → Type 0
Ends s r =
    (s.wait_group ≡ 0)
    × (s.idle + s.getting + s.processing ≡ 0)
    × (((s.has_synced ≡ false)
          × ((r ≡ some sync_failed)
              ⊎ ((c : ContextError) × (s.ctx ≡ some c) × (r ≡ some (of_context c)))))
        ⊎ ((s.has_synced ≡ true)
            × (s.is_shutting_down ≡ true)
            × (c : ContextError) × (s.ctx ≡ some c)
            × (r ≡ some (of_context c))))

abbrev pub At : RunState → RunPc → Type 0
At s syncing = (s.wait_group ≡ 0) × (s.has_synced ≡ false)
At s (starting n) = s.has_synced ≡ true
At s waiting = s.has_synced ≡ true
At s stopping = (s.has_synced ≡ true) × IsSome s.ctx
At s draining = (s.has_synced ≡ true) × IsSome s.ctx × (s.is_shutting_down ≡ true)
At s joining = (s.has_synced ≡ true) × IsSome s.ctx × (s.is_shutting_down ≡ true)
At s (returned r) = Ends s r

pub record IsSound (s : RunState) : Type 0 where
  pub counted : s.wait_group ≡ s.idle + s.getting + s.processing
  pub dirty_le : s.dirty ≤ s.processing
  pub at_pc : At s s.pc

-- `Run` stays where it stands: what is done stays done, and where no worker is left none comes back.
At-moved :
    (s t : RunState) (pc : RunPc)
    → (s.wait_group ≡ 0 → t.wait_group ≡ 0)
    → t.wait_group ≡ t.idle + t.getting + t.processing
    → t.has_synced ≡ s.has_synced
    → (IsSome s.ctx → t.ctx ≡ s.ctx)
    → (s.is_shutting_down ≡ true → t.is_shutting_down ≡ true)
    → At s pc
    → At t pc
At-moved s t syncing w p y c d (h, k) = (w h, y ∙ k)
At-moved s t (starting n) w p y c d h = y ∙ h
At-moved s t waiting w p y c d h = y ∙ h
At-moved s t stopping w p y c d (h, k) = (y ∙ h, subst IsSome (sym (c k)) k)
At-moved s t draining w p y c d (h, k, l) = (y ∙ h, subst IsSome (sym (c k)) k, d l)
At-moved s t joining w p y c d (h, k, l) = (y ∙ h, subst IsSome (sym (c k)) k, d l)
At-moved s t (returned r) w p y c d (h, z, inl (n, inl k)) = (w h, sym p ∙ w h, inl (y ∙ n, inl k))
At-moved s t (returned r) w p y c d (h, z, inl (n, inr (e, k, l))) =
    (w h, sym p ∙ w h, inl (y ∙ n, inr (e, c (some→IsSome s.ctx e k) ∙ k, l)))
At-moved s t (returned r) w p y c d (h, z, inr (n, k, e, l, m)) =
    (w h, sym p ∙ w h, inr (y ∙ n, d k, e, c (some→IsSome s.ctx e l) ∙ l, m))

pub place_lem : (s : RunState) (pc : RunPc) → s.pc ≡ pc → IsSound s → At s pc
place_lem s pc e i = subst (At s) e i.at_pc

sync-Ends :
    (s t : RunState)
    → t.ctx ≡ s.ctx
    → t.wait_group ≡ t.idle + t.getting + t.processing
    → (t.wait_group ≡ 0) × (t.has_synced ≡ false)
    → Ends t (sync_error s.ctx)
unfolding sync_error
sync-Ends s t e p (w, y) = (w, sym p ∙ w, inl (y, sync_ends_at s.ctx refl))
  where
    sync_ends_at :
        (o : Option ContextError)
        → s.ctx ≡ o
        → (sync_error o ≡ some sync_failed)
          ⊎ ((c : ContextError) × (t.ctx ≡ some c) × (sync_error o ≡ some (of_context c)))
    sync_ends_at none q = inl refl
    sync_ends_at (some c) q = inr (c, e ∙ q, refl)

context_result-some :
    (o : Option ContextError) (c : ContextError)
    → o ≡ some c
    → context_result o ≡ some (of_context c)
unfolding context_result
context_result-some o c e = ground arith

-- A step after which `Run` stands where it stood.
abbrev Moves : RunState → RunState → Type 0
Moves s t =
    (s.wait_group ≡ 0 → t.wait_group ≡ 0)
    × (t.has_synced ≡ s.has_synced)
    × (IsSome s.ctx → t.ctx ≡ s.ctx)
    × (s.is_shutting_down ≡ true → t.is_shutting_down ≡ true)

moved :
    (s t : RunState)
    → t.pc ≡ s.pc
    → t.wait_group ≡ t.idle + t.getting + t.processing
    → t.dirty ≤ t.processing
    → Moves s t
    → IsSound s
    → IsSound t
moved s t e counted dirty_le (w, p, c, d) i = record {
  counted = counted;
  dirty_le = dirty_le;
  at_pc = subst (At t) (sym e) (At-moved s t s.pc w counted p c d i.at_pc);
}

pub none_not_some : (o : Option ContextError) → o ≡ none → IsSome o → ⊥
none_not_some none e h = h
none_not_some (some c) e h = cc

module _ {workers : ℕ} where
  pub Step-IsSound : {s t : RunState} {a : Actor} → Step workers s a t → IsSound s → IsSound t
  Step-IsSound {s} (cancel c e) i =
      moved s (record s { ctx = some c }) refl i.counted i.dirty_le
        (λ h. h, refl, λ h. absurd (none_not_some s.ctx e h), λ h. h) i
  Step-IsSound {s} (add e) i =
      moved s (record s { queued = s.queued + 1 }) refl i.counted i.dirty_le
        (λ h. h, refl, λ h. refl, λ h. h) i
  Step-IsSound {s} (add_again e l) i =
      moved s (record s { dirty = s.dirty + 1 }) refl i.counted (omega arith)
        (λ h. h, refl, λ h. refl, λ h. h) i
  Step-IsSound {s} (synced e) i = record {
    counted = i.counted;
    dirty_le = i.dirty_le;
    at_pc = refl;
  }
  Step-IsSound {s} (not_synced e) i = record {
    counted = i.counted;
    dirty_le = i.dirty_le;
    at_pc =
        sync-Ends s (record s { pc = returned (sync_error s.ctx) }) refl i.counted
          (place_lem s syncing e i);
  }
  Step-IsSound {s} (sync_stopped c e q) i = record {
    counted = i.counted;
    dirty_le = i.dirty_le;
    at_pc =
        sync-Ends s (record s { pc = returned (sync_error s.ctx) }) refl i.counted
          (place_lem s syncing e i);
  }
  Step-IsSound {s} (start_worker n e) i = record {
    counted = omega (arith, i.counted);
    dirty_le = i.dirty_le;
    at_pc = place_lem s (starting (suc n)) e i;
  }
  Step-IsSound {s} (all_started e) i = record {
    counted = i.counted;
    dirty_le = i.dirty_le;
    at_pc = place_lem s (starting 0) e i;
  }
  Step-IsSound {s} (stopped c e q) i = record {
    counted = i.counted;
    dirty_le = i.dirty_le;
    at_pc = (place_lem s waiting e i, some→IsSome s.ctx c q);
  }
  Step-IsSound {s} (shut_down e) i = record {
    counted = i.counted;
    dirty_le = i.dirty_le;
    at_pc = let (y, h) = place_lem s stopping e i in (y, h, refl);
  }
  Step-IsSound {s} (drained e z) i = record {
    counted = i.counted;
    dirty_le = i.dirty_le;
    at_pc = place_lem s draining e i;
  }
  Step-IsSound {s} (return e z) i =
      let (y, h, down) = place_lem s joining e i in
      let (c, q) = IsSome→some s.ctx h in
      record {
        counted = i.counted;
        dirty_le = i.dirty_le;
        at_pc = (z, sym i.counted ∙ z, inr (y, down, c, q, context_result-some s.ctx c q));
      }
  Step-IsSound {s} (work l e) i =
      moved s (record s { idle = s.idle - 1; getting = s.getting + 1 }) refl
        (omega (arith, i.counted)) i.dirty_le (λ h. h, refl, λ h. refl, λ h. h) i
  Step-IsSound {s} (end c l e) i =
      moved s (record s { idle = s.idle - 1; wait_group = s.wait_group - 1 }) refl
        (omega (arith, i.counted)) i.dirty_le (λ h. omega arith, refl, λ h. refl, λ h. h) i
  Step-IsSound {s} (get l q) i =
      moved s
        (record s { getting = s.getting - 1; processing = s.processing + 1; queued = s.queued - 1 })
        refl (omega (arith, i.counted)) (omega (arith, i.dirty_le))
        (λ h. h, refl, λ h. refl, λ h. h) i
  Step-IsSound {s} (get_shutdown l q d) i =
      moved s (record s { getting = s.getting - 1; idle = s.idle + 1 }) refl
        (omega (arith, i.counted)) i.dirty_le (λ h. h, refl, λ h. refl, λ h. h) i
  Step-IsSound {s} (done l) i =
      moved s (record s { processing = s.processing - 1; getting = s.getting + 1 }) refl
        (omega (arith, i.counted)) (omega arith) (λ h. h, refl, λ h. refl, λ h. h) i
  Step-IsSound {s} (done_again l q) i =
      moved s
        (record s {
          processing = s.processing - 1;
          getting = s.getting + 1;
          queued = s.queued + 1;
          dirty = s.dirty - 1;
        })
        refl (omega (arith, i.counted)) (omega (arith, i.dirty_le))
        (λ h. h, refl, λ h. refl, λ h. h) i

  pub Reach-IsSound : {s : RunState} → Reach workers s → IsSound s
  Reach-IsSound (begin ctx) = record {
    counted = refl;
    dirty_le = omega arith;
    at_pc = (refl, refl);
  }
  Reach-IsSound (later r st) = Step-IsSound st (Reach-IsSound r)

  -- When `Run` has returned, its error is not nil, no worker is left, and no item is being processed.
  -- Either the cache did not sync, and the error is that of the context, which is done, or that the sync
  -- failed; or the cache synced, the error is that of the context, which is done, and the queue is shut
  -- down.
  pub run_returns :
      (s : RunState) (r : Option RunError) → Reach workers s → s.pc ≡ returned r → Ends s r
  run_returns s r reach e = place_lem s (returned r) e (Reach-IsSound reach)
