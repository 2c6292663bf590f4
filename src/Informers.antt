-- ===== src/Informers.antt =====
-- pkg/generated/informers/externalversions/factory.go: the shared informer factory. Each method that
-- holds the lock is one function; what `Start` starts is the list of the goroutines that it launches.
-- `K` stands for the `reflect.Type` of an object, and `Informer` for a `cache.SharedIndexInformer`.
pub mod Start
pub mod Sharing
pub mod Threads
pub mod Typed
pub mod Access
mod Tests
use cel_admission_polyfill.Prelude.{
  ℕ, ◌+◌, ◌-◌, String, Bool, true, false, Option, none, some, List, [], ◌∷◌, Dict, lookup, insert,
  Comparable,
}
use cel_admission_polyfill.Pki.{ℤ}

-- `sharedInformerFactory`, without its lock. A `time.Duration` is a number of nanoseconds.
pub record Factory (K Client Tweak Informer : Type 0) : Type 0 where
  pub client : Client
  pub namespace : String
  pub tweak_list_options : Option Tweak
  pub default_resync : ℤ
  pub custom_resync : Dict K ℤ
  pub informers : Dict K Informer
  pub started_informers : Dict K Bool
  pub wg : ℕ
  pub shutting_down : Bool

-- `SharedInformerOption`
abbrev pub Opt : Type 0 → Type 0 → Type 0 → Type 0 → Type 0
Opt K Client Tweak Informer = Factory K Client Tweak Informer → Factory K Client Tweak Informer

-- the loop of `WithCustomResyncConfig`, over the types of the objects in the configuration
resync_from : {K : Type 0} ⦃comparable : Comparable K⦄ → Dict K ℤ → Dict K ℤ → Dict K ℤ
resync_from custom [] = custom
resync_from custom ((k, v) ∷ config) = resync_from (insert k v custom) config

unfoldable pub with_custom_resync_config :
    {K Client Tweak Informer : Type 0} ⦃comparable : Comparable K⦄
    → Dict K ℤ
    → Opt K Client Tweak Informer
unfolding resync_from
with_custom_resync_config config f = record f { custom_resync = resync_from f.custom_resync config }

module _ {K Client Tweak Informer : Type 0} where
  unfoldable pub with_tweak_list_options : Option Tweak → Opt K Client Tweak Informer
  with_tweak_list_options tweak f = record f { tweak_list_options = tweak }

  unfoldable pub with_namespace : String → Opt K Client Tweak Informer
  with_namespace namespace f = record f { namespace = namespace }

  -- `for _, opt := range options { factory = opt(factory) }`
  unfoldable pub apply_all : List (Opt K Client Tweak Informer) → Opt K Client Tweak Informer
  apply_all [] f = f
  apply_all (opt ∷ options) f = apply_all options (opt f)

  unfoldable pub new_with_options :
      Client → ℤ → List (Opt K Client Tweak Informer) → Factory K Client Tweak Informer
  unfolding apply_all
  new_with_options client default_resync options = apply_all options (record {
    client = client;
    namespace = "";
    tweak_list_options = none;
    default_resync = default_resync;
    custom_resync = [];
    informers = [];
    started_informers = [];
    wg = 0;
    shutting_down = false;
  })

  -- `NewSharedInformerFactory`
  unfoldable pub new_shared : Client → ℤ → Factory K Client Tweak Informer
  unfolding new_with_options
  new_shared client default_resync = new_with_options client default_resync []

  -- `NewFilteredSharedInformerFactory`
  unfoldable pub new_filtered : Client → ℤ → String → Option Tweak → Factory K Client Tweak Informer
  unfolding new_with_options with_namespace with_tweak_list_options
  new_filtered client default_resync namespace tweak =
      new_with_options client default_resync
        (with_namespace namespace ∷ with_tweak_list_options tweak ∷ [])

  -- the part of `Shutdown` under the lock; after it, `Shutdown` waits for `f.wg` to be zero
  unfoldable pub shutdown : Opt K Client Tweak Informer
  shutdown f = record f { shutting_down = true }

  -- `f.wg.Done()`, at the end of a goroutine that `Start` has launched
  unfoldable pub finish : Opt K Client Tweak Informer
  finish f = record f { wg = f.wg - 1 }

-- the loop of `WaitForCacheSync`
synced_of : {K Informer : Type 0} → (Informer → Bool) → Dict K Informer → Dict K Bool
synced_of wait [] = []
synced_of wait ((k, informer) ∷ m) = (k, wait informer) ∷ synced_of wait m

-- what `Start` has done once it has launched one more
launch : {F A : Type 0} → A → F × List A → F × List A
launch a (f, launched) = (f, a ∷ launched)

module _ {K Client Tweak Informer : Type 0} ⦃comparable : Comparable K⦄ where
  -- `f.startedInformers[informerType]`, which is false for a type that is not in the map
  unfoldable pub is_started : K → Factory K Client Tweak Informer → Bool
  is_started k f = elim (lookup k f.started_informers) [ none ↦ false | some b ↦ b ]

  -- `f.wg.Add(1)` and `f.startedInformers[informerType] = true`
  unfoldable pub mark : K → Factory K Client Tweak Informer → Factory K Client Tweak Informer
  mark k f = record f { wg = f.wg + 1; started_informers = insert k true f.started_informers }

  -- the loop of `Start`, over the informers that are left, with those that it launches
  unfoldable pub start_all :
      Dict K Informer
      → Factory K Client Tweak Informer
      → Factory K Client Tweak Informer × List (K × Informer)
  unfolding is_started mark launch
  start_all [] f = (f, [])
  start_all ((k, informer) ∷ m) f = elim (is_started k f) [
    | true ↦ start_all m f
    | false ↦ launch (k, informer) (start_all m (mark k f))
  ]

  -- `Start`
  unfoldable pub start :
      Factory K Client Tweak Informer → Factory K Client Tweak Informer × List (K × Informer)
  unfolding start_all
  start f = elim f.shutting_down [ true ↦ (f, []) | false ↦ start_all f.informers f ]

  -- the informers that `WaitForCacheSync` waits for
  started_of : Factory K Client Tweak Informer → Dict K Informer → Dict K Informer
  unfolding is_started
  started_of f [] = []
  started_of f ((k, informer) ∷ m) = elim (is_started k f) [
    | true ↦ (k, informer) ∷ started_of f m
    | false ↦ started_of f m
  ]

  -- `WaitForCacheSync`; `wait` is what `cache.WaitForCacheSync` returns for an informer
  unfoldable pub wait_for_cache_sync :
      (Informer → Bool) → Factory K Client Tweak Informer → Dict K Bool
  unfolding started_of synced_of
  wait_for_cache_sync wait f = synced_of wait (started_of f f.informers)

  -- the period for the informers of a type
  unfoldable pub resync_period : K → Factory K Client Tweak Informer → ℤ
  resync_period k f = elim (lookup k f.custom_resync) [ none ↦ f.default_resync | some d ↦ d ]

  -- `InformerFor`, of an object of the type `k`
  unfoldable pub informer_for :
      K
      → (Client → ℤ → Informer)
      → Factory K Client Tweak Informer
      → Informer × Factory K Client Tweak Informer
  unfolding resync_period
  informer_for k new_func f = elim (lookup k f.informers) [
    | some informer ↦ (informer, f)
    | none ↦
        let informer = new_func f.client (resync_period k f) in
        (informer, record f { informers = insert k informer f.informers })
  ]
