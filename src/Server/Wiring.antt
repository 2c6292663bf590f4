-- ===== src/Server/Wiring.antt =====
-- The middle of `main` in cmd/cel-admission-polyfill/main.go: the informer factories of its clients, the
-- REST mapper and its refresh, and the start of the factories. The factories of Kubernetes and of the
-- definitions, and the mapper, are of libraries, and parameters; the factory of the custom resources is
-- that of Informers.
mod Tests
use cel_admission_polyfill.Prelude.{
  ◌*◌, Bool, false, ◌≡◌, refl, Option, none, some, List, [], Comparable,
}
use cel_admission_polyfill.Pki.{ℤ, pos}
use cel_admission_polyfill.Transformed.{Pair}
use cel_admission_polyfill.Clientset.Config.{Clientset}
use cel_admission_polyfill.Server.Startup.{WrappedClient, Clients}
use cel_admission_polyfill.Informers.{Factory, new_shared, start}

-- `30*time.Second`
abbrev pub resync_period : ℤ
resync_period = pos (30 * 1_000_000_000)

-- What `main` calls of other libraries here; `group_resources` and `discovery_mapper` are
-- `restmapper.GetAPIGroupResources` and `restmapper.NewDiscoveryRESTMapper`. `reset` is the method of
-- the mapper.
pub record Libraries (Kube Rest Apiextensions KubeFactory ApiFactory Groups Mapper E W : Type 0)
    : Type 0 where
  pub new_kube_factory : WrappedClient Kube Rest → ℤ → KubeFactory
  pub new_api_factory : Option Apiextensions → ℤ → ApiFactory
  pub start_kube_factory : KubeFactory → W → W
  pub start_api_factory : ApiFactory → W → W
  pub group_resources : Option Kube → W → Pair Groups E × W
  pub discovery_mapper : Option Groups → Mapper
  pub reset : W → W

-- The factories of `main`; `T` stands for the Go types of objects.
pub record Factories (T CustomClient Tweak Informer KubeFactory ApiFactory : Type 0) : Type 0 where
  pub factory : KubeFactory
  pub custom_factory : Factory T CustomClient Tweak Informer
  pub apiextensions_factory : ApiFactory

module _ {Kube Rest Apiextensions KubeFactory ApiFactory Groups Mapper E W : Type 0}
    (lib : Libraries Kube Rest Apiextensions KubeFactory ApiFactory Groups Mapper E W) where
  -- the factories, of the clients with which `main` goes on
  unfoldable pub new_factories :
      {T Tweak Informer Dynamic Discovery : Type 0} ⦃comparable : Comparable T⦄
      → Clients Kube Dynamic Apiextensions Rest Discovery
      → Factories T (Option (Clientset Rest Discovery)) Tweak Informer KubeFactory ApiFactory
  new_factories clients = record {
    factory = lib.new_kube_factory clients.kube_client resync_period;
    custom_factory = new_shared clients.custom_client resync_period;
    apiextensions_factory = lib.new_api_factory clients.apiextensions_client resync_period;
  }

  mapped : Pair Groups E × W → Pair Mapper E × W
  mapped ((groups, none), w) = ((some (lib.discovery_mapper groups), none), w)
  mapped ((groups, some e), w) = ((none, some e), w)

  -- the function that the lazy mapper loads with, by the discovery of the Kubernetes client
  unfoldable pub load_rest_mapper : WrappedClient Kube Rest → W → Pair Mapper E × W
  unfolding mapped
  load_rest_mapper kube w = mapped (lib.group_resources kube.client w)

  -- the condition of the poll that refreshes the mapper: it is never done, and has no error
  unfoldable pub refresh : W → (Bool × Option E) × W
  refresh w = ((false, none), lib.reset w)

  -- the three calls of `Start`, with what the last one launches
  unfoldable pub start_factories :
      {T CustomClient Tweak Informer : Type 0} ⦃comparable : Comparable T⦄
      → Factories T CustomClient Tweak Informer KubeFactory ApiFactory
      → W
      → (Factories T CustomClient Tweak Informer KubeFactory ApiFactory × List (T × Informer)) × W
  start_factories f w =
      let (custom_factory, launched) = start f.custom_factory in
      (
        (record f { custom_factory = custom_factory }, launched),
        lib.start_api_factory f.apiextensions_factory (lib.start_kube_factory f.factory w),
      )

  -- `main` asks the factory of the custom resources for no informer, and so its `Start` launches none,
  -- whatever the clients are: the policies are read through the informers of the Kubernetes factory,
  -- whose client is the wrapped one.
  pub start_factories-new_factories :
      {T Tweak Informer Dynamic Discovery : Type 0} ⦃comparable : Comparable T⦄
      (clients : Clients Kube Dynamic Apiextensions Rest Discovery) (w : W)
      → start_factories {T = T} {Tweak = Tweak} {Informer = Informer} (new_factories clients) w ≡ (
        (new_factories clients, []),
        lib.start_api_factory
            (lib.new_api_factory clients.apiextensions_client resync_period)
            (lib.start_kube_factory (lib.new_kube_factory clients.kube_client resync_period) w),
      )
  unfolding start_factories new_factories new_shared start
  start_factories-new_factories clients w = refl
