-- ===== src/Server/Lifecycle/Invariant.antt =====
-- What holds in every state of the process: what the wait group counts, and who has told whom.
pub mod Steps
use cel_admission_polyfill.Prelude.{ℕ, ◌+◌, Bool, true, false, ◌≡◌, refl, arith}
use cel_admission_polyfill.Webhook.Run
use cel_admission_polyfill.Context.{IsSome}
use cel_admission_polyfill.Webhook.Run.{RunPc}
use cel_admission_polyfill.Webhook.Run.Result.{Holds}
use cel_admission_polyfill.Server.Lifecycle.{
  WorkerPc, absent, running, stopped, told, finished, MainPc, at_plugin, at_webhook, at_factories,
  waiting, returned, Process, server_error,
}

-- How much of the wait group a goroutine has.
abbrev pub share : WorkerPc → ℕ
share absent = 0
share running = 1
share stopped = 1
share told = 1
share finished = 0

abbrev pub has_told : WorkerPc → Bool
has_told absent = false
has_told running = false
has_told stopped = false
has_told told = true
has_told finished = true

abbrev pub is_absent : WorkerPc → Bool
is_absent absent = true
is_absent running = false
is_absent stopped = false
is_absent told = false
is_absent finished = false

abbrev pub left_run : WorkerPc → Bool
left_run absent = false
left_run running = false
left_run stopped = true
left_run told = true
left_run finished = true

abbrev pub is_finished : WorkerPc → Bool
is_finished absent = false
is_finished running = false
is_finished stopped = false
is_finished told = false
is_finished finished = true

-- Which goroutines `main` has yet to start.
abbrev pub before_plugin : MainPc → Bool
before_plugin at_plugin = true
before_plugin at_webhook = false
before_plugin at_factories = false
before_plugin waiting = false
before_plugin returned = false

abbrev pub before_webhook : MainPc → Bool
before_webhook at_plugin = true
before_webhook at_webhook = true
before_webhook at_factories = false
before_webhook waiting = false
before_webhook returned = false

abbrev pub has_returned : {E : Type 0} → RunPc E → Bool
has_returned Run.waiting = false
has_returned Run.closing = false
has_returned Run.closed = false
has_returned (Run.returned r) = true

pub record IsSound {E : Type 0} (s : Process E) : Type 0 where
  pub counted : s.wait_group ≡ share s.plugin + share s.webhook
  pub plugin_begun : is_absent s.plugin ≡ before_plugin s.main
  pub webhook_begun : is_absent s.webhook ≡ before_webhook s.main
  pub all_finished :
      s.main ≡ returned → (is_finished s.plugin ≡ true) × (is_finished s.webhook ≡ true)
  pub plugin_told : has_told s.plugin ≡ true → IsSome (server_error s)
  pub webhook_told : has_told s.webhook ≡ true → IsSome (server_error s)
  pub run_left : left_run s.webhook ≡ true → has_returned s.run.pc ≡ true
  pub run_holds : Holds (server_error s) s.run s.run.pc

pub no_share-finished : (p : WorkerPc) → is_absent p ≡ false → share p ≡ 0 → is_finished p ≡ true
no_share-finished absent h k = cc
no_share-finished running h k = ground arith
no_share-finished stopped h k = ground arith
no_share-finished told h k = ground arith
no_share-finished finished h k = refl

pub finished-told : (p : WorkerPc) → is_finished p ≡ true → has_told p ≡ true
finished-told absent h = cc
finished-told running h = cc
finished-told stopped h = cc
finished-told told h = cc
finished-told finished h = refl

pub finished-left : (p : WorkerPc) → is_finished p ≡ true → left_run p ≡ true
finished-left absent h = cc
finished-left running h = cc
finished-left stopped h = cc
finished-left told h = cc
finished-left finished h = refl

pub is_finished→eq : (p : WorkerPc) → is_finished p ≡ true → p ≡ finished
is_finished→eq absent h = cc
is_finished→eq running h = cc
is_finished→eq stopped h = cc
is_finished→eq told h = cc
is_finished→eq finished h = refl
