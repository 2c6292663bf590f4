-- ===== src/Lib.antt =====
-- A verification library of the CEL admission webhook (the Go program of
-- cmd/cel-admission-polyfill), with its two tools, cmd/interceptor and cmd/gentls.
--
-- The API server sends the webhook an AdmissionReview over HTTP. The handler decodes it and
-- asks one validator, which is a list of validators, of which there is one: the CEL plugin. The
-- plugin lets policies and bindings pass, waits for its caches, and asks the evaluator of
-- policies, which is a library of Kubernetes. That evaluator reads policies through a client
-- that replaces the native policy types by custom resources: the injected client, two
-- transformed clients and the conversions between the types. It gets the schemas of other
-- resources from a resolver that caches them. The generic controller reconciles the objects of
-- an informer, from a work queue, with a lister. The PKI helpers make the certificates that a
-- webhook is served with; gentls writes them to files. main runs the plugin and the HTTP server
-- in goroutines of their own, which tell each other to stop through a context, and waits for
-- both. The interceptor is a proxy that renames the API version of policies in what passes
-- through it. The clientset of the custom resources, its fakes for tests, its informers and listers
-- are generated code.
--
-- The parts, and the code that each is about:
--   Prelude      shared names, Go's comparisons, maps, and code that panics
--   Admission    what the parts share of Kubernetes' types: attributes, validators, errors
--   Context      Go's contexts, and who takes a step
--   Wire         the types of admission/v1, encoding/json and net/http that the webhook reads and writes
--   Webhook      pkg/webhook/server.go: handleWebhookValidate is handle_webhook_validate, parseRequest
--                parse_request, reviewResponse review_response, convertExtra convert_extra; Run is
--                the step relation of Webhook/Run
--   Multi        pkg/validator/multi.go: NewMulti is new_multi, with handles and validate
--   Plugin       pkg/controller/admissionregistration.x-k8s.io/v1alpha1/plugin.go: Validate is
--                validate, isPolicyResource is_policy_resource
--   Injected     injected_client.go beside it: the four conversions, and the clients of both types
--   Transformed  pkg/controller/transformed_client.go and client.go: one function for each method
--   Resolver     pkg/controller/schemaresolver/resolver.go: ResolveSchema is resolve_schema,
--                purgeCRDFromCache purge_crd_from_cache; Resolver/Threads has the steps of threads,
--                and Resolver/Run those of Run
--   Lister       pkg/controller/lister.go, informer.go and interface.go; Lister/Generated the listers
--                under pkg/generated/listers
--   Clientset    pkg/generated/clientset/versioned/typed: the clients of policies and of bindings;
--                Clientset/Config the constructors there and in clientset.go, NewForConfig is
--                new_for_config; Clientset/Fake the clients under fake, and Clientset/Fake/Simple
--                fake/clientset_generated.go
--   Scheme       zz_generated.register.go of the types, and the registers of scheme and of fake
--   Controller   pkg/controller/generic.go: the event handlers, runWorker is run_worker, its inner
--                function process_item, reconcile; Run is the step relation of Controller/Run
--   Informers    pkg/generated/informers/externalversions/factory.go: Start is start, InformerFor
--                informer_for; Informers/Threads has the steps of its callers and goroutines, and
--                Informers/Typed the accessors of both types, ForResource is for_resource
--   Interceptor  cmd/interceptor/main.go: Rewrite is rewrite, ModifyResponse modify_response;
--                Interceptor/Serve has runServer, run_server, and loadClientConfig
--   Gentls       cmd/gentls/main.go
--   Pki          pkg/pki: GenerateCA is generate_ca, CreateCertificate create_certificate, serialNumber
--                serial_number
--   Policy       pkg/apis/admissionregistration.x-k8s.io/v1alpha1: types.go, and in Policy/Memory and
--                Policy/Copies zz_generated.deepcopy.go, each DeepCopyInto an ..._into, each DeepCopy
--                a copy_...; Policy/Copier is the interface of a deep copy
--   Server       cmd/cel-admission-polyfill/main.go: Server/Startup is its beginning, up to the
--                clients, Server/Wiring the factories and the REST mapper, Server the validators and
--                the webhook, and Server/Lifecycle the goroutines of the process; Server/Requests is
--                about the native client that it hands on
--   Samples      concrete libraries and inputs; each part's Tests apply its theorems to them
--
-- State. What the libraries keep is an abstract state that the functions pass on: that of the
-- validators (the informers' caches among it), of the API server behind a client, of the
-- discovery endpoint, of the work queue and of the reconciler. The schema cache is a map. A
-- pointer that may be nil is an option, an error result an option beside the value, and a panic
-- the outcome `panics`, or for the handler the reply `panicked`. What a handler does to its
-- ResponseWriter is the list of its calls.
--
-- Goroutines. What runs beside each other is a relation of steps on one state, in which each
-- goroutine stands at a place; a step is the program's, or the environment's, which the program
-- cannot bring about (a signal, an error of the listener, an event). Workers that are alike are
-- counted. A call under a lock is one step. Values whose pointers matter, those of the
-- generated copies, have an address at each pointer and slice, and a copy takes and returns the
-- first address that is free.
--
-- Bounds. The plugin's poll has the interval 100 ms and the timeout 1 s of the code, in
-- nanoseconds; the poll is a parameter. run_worker takes one cache for each round, since the
-- informer writes between the rounds, so its rounds are as many as the list has; each round is
-- the code's. A scanned line has at most 65535 bytes before its newline, as bufio's buffer of
-- 65536 allows. All other functions end by recursion on their lists, as the loops do; no
-- definition takes fuel.
--
-- Parameters. Of encoding/json, the decoder, wait.PollImmediateWithContext, the CEL evaluator,
-- the cryptography and the clock, the work queue, the indexer, the discovery client, the API
-- server, the loading of configurations, the construction of HTTP, REST and discovery clients, rate
-- limiters, runtime.Scheme, httputil.ReverseProxy and the package testing, the model has the
-- operations that the code calls. Where a result rests on what they document, that is a named
-- hypothesis: ReadsBack, PollsImmediately, QueueView, HasVersion, Fills, FileSystem,
-- Copier, Documented, Described, Backs, Builds. In the step relations, the evaluator's Run
-- returns when its context is done, and a reconciler returns on each item.
--
-- Not modelled. Logging and the texts that it prints; the flags of the three commands; the
-- configuration of signals; the tests under test/integration; the libraries under vendor.
pub mod Prelude
pub mod Admission
pub mod Context
pub mod Wire
pub mod Webhook
pub mod Multi
pub mod Plugin
pub mod Lister
pub mod Controller
pub mod Resolver
pub mod Transformed
pub mod Policy
pub mod Injected
pub mod Clientset
pub mod Scheme
pub mod Informers
pub mod Gentls
pub mod Interceptor
pub mod Pki
pub mod Server
mod Samples
