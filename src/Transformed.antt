-- ===== src/Transformed.antt =====
-- pkg/controller/transformed_client.go: a client of one API type that works on objects of another.
-- A call's context and options are passed on unchanged; all options have the type `Opts` here.
pub mod Calls
pub mod Listing
pub mod Watching
mod Tests
use cel_admission_polyfill.Prelude.{
  String, Bool, true, false, Option, none, some, List, [], ◌∷◌, ◌++◌, Outcome, returns, panics,
  ◌>>=◌,
}

-- A pointer that may be nil, and an error.
abbrev pub Pair : Type 0 → Type 0 → Type 0
Pair A E = Option A × Option E

-- `metav1.ListMeta`
pub record ListMeta : Type 0 where
  pub resource_version : String
  pub continue_token : String

-- A list type of the API: its metadata, and the field `Items`, a slice that may be nil.
pub record ListObject (V : Type 0) : Type 0 where
  pub metadata : ListMeta
  pub items : Option (List V)

abbrev pub zero_meta : ListMeta
zero_meta = record { resource_version = ""; continue_token = "" }

-- `watch.Event`
pub record Event (Obj : Type 0) : Type 0 where
  pub kind : String
  pub object : Obj

-- `ClientInterface[V, VList]` of client.go, on a server whose state has the type `W`; `watch` is
-- the type of a `watch.Interface`. A client may panic at an update, as the typed clients do at a nil
-- object, whose name they read. `update_status` is there if the client implements
-- `ClientInterfaceWithStatus` too.
pub record Client (V E Opts Watch W : Type 0) : Type 0 where
  pub create : Option V → Opts → W → Pair V E × W
  pub update : Option V → Opts → W → Outcome (Pair V E × W)
  pub update_status : Option (Option V → Opts → W → Outcome (Pair V E × W))
  pub delete : String → Opts → W → Option E × W
  pub delete_collection : Opts → Opts → W → Option E × W
  pub get : String → Opts → W → Pair V E × W
  pub list : Opts → W → Pair (ListObject V) E × W
  pub watch : Opts → W → Pair Watch E × W

-- `TransformedClient`
pub record TransformedClient (T R E Opts Watch W : Type 0) : Type 0 where
  pub target_client : Client T E Opts Watch W
  pub replacement_client : Client R E Opts Watch W
  pub to : Option R → Pair T E
  pub from : Option T → Pair R E

-- `getItems`: reflection panics at a nil list, and a nil slice is an empty one
unfoldable pub get_items : {V : Type 0} → Option (ListObject V) → Outcome (List V)
get_items none = panics
get_items (some l) = elim l.items [ none ↦ returns [] | some items ↦ returns items ]

-- `listWithItems`: a new list object with the items
unfoldable pub list_with_items : {V : Type 0} → List V → ListObject V
list_with_items items = record { metadata = zero_meta; items = some items }

-- `if err != nil { return nil, err }`, and otherwise the rest
unfoldable pub next_call :
    {A B E W : Type 0} → (Option A → W → Pair B E × W) → Pair A E × W → Pair B E × W
next_call rest ((v, none), w) = rest v w
next_call rest ((v, some e), w) = ((none, some e), w)

module _ {T R E Opts Watch W : Type 0} (c : TransformedClient T R E Opts Watch W) where
  -- the end of the methods: the result is converted back
  unfoldable pub converted_back : Pair R E × W → Pair T E × W
  unfolding next_call
  converted_back = next_call (λ r w. next_call (λ t w. ((t, none), w)) (c.to r, w))

  -- `Create`: the object is converted and sent, and what comes back is converted back.
  unfoldable pub send : (Option R → W → Pair R E × W) → Option T → W → Pair T E × W
  unfolding next_call converted_back
  send call object w = next_call (λ r w. converted_back (call r w)) (c.from object, w)

  unfoldable pub create : Option T → Opts → W → Pair T E × W
  unfolding send
  create object opts w = send (λ r. c.replacement_client.create r opts) object w

  -- the two methods that send an update, from the conversion on
  sent_update : (Option R → W → Outcome (Pair R E × W)) → Pair R E → W → Outcome (Pair T E × W)
  unfolding converted_back
  sent_update call (r, none) w = call r w >>= λ result. returns (converted_back result)
  sent_update call (r, some e) w = returns ((none, some e), w)

  unfoldable pub send_update :
      (Option R → W → Outcome (Pair R E × W)) → Option T → W → Outcome (Pair T E × W)
  unfolding sent_update
  send_update call object w = sent_update call (c.from object) w

  unfoldable pub update : Option T → Opts → W → Outcome (Pair T E × W)
  unfolding send_update
  update object opts w = send_update (λ r. c.replacement_client.update r opts) object w

  -- The type assertion of the replacement client comes after the conversion.
  unfoldable pub update_status : Option T → Opts → W → Outcome (Pair T E × W)
  unfolding send_update
  update_status object opts w = elim c.replacement_client.update_status [
    | some call ↦ send_update (λ r. call r opts) object w
    | none ↦ elim (c.from object).1 [ none ↦ panics | some e ↦ returns ((none, some e), w) ]
  ]

  unfoldable pub delete : String → Opts → W → Option E × W
  delete name opts w = c.replacement_client.delete name opts w

  unfoldable pub delete_collection : Opts → Opts → W → Option E × W
  delete_collection opts list_opts w = c.replacement_client.delete_collection opts list_opts w

  unfoldable pub get : String → Opts → W → Pair T E × W
  unfolding converted_back
  get name opts w = converted_back (c.replacement_client.get name opts w)

  -- One round of the loop of `List`: `newItems[i] = *converted`, after the items before it.
  push_converted :
      (List T → Outcome (Pair (ListObject T) E))
      → List T
      → Pair T E
      → Outcome (Pair (ListObject T) E)
  push_converted rest new_items (t, some e) = returns (none, some e)
  push_converted rest new_items (none, none) = panics
  push_converted rest new_items (some t, none) = rest (new_items ++ t ∷ [])

  -- the loop of `List` from the items on that are left, and its end
  convert_items : List R → List T → Outcome (Pair (ListObject T) E)
  unfolding push_converted list_with_items
  convert_items [] new_items = returns (some (list_with_items new_items), none)
  convert_items (v ∷ items) new_items =
      push_converted (convert_items items) new_items (c.to (some v))

  unfoldable pub listed : Pair (ListObject R) E × W → Outcome (Pair (ListObject T) E × W)
  unfolding convert_items
  listed ((value, some e), w) = returns ((none, some e), w)
  listed ((value, none), w) =
      get_items value >>= λ items. convert_items items [] >>= λ result. returns (result, w)

  unfoldable pub list : Opts → W → Outcome (Pair (ListObject T) E × W)
  unfolding listed
  list opts w = listed (c.replacement_client.list opts w)

  module _ {Obj : Type 0} (as_r : Obj → Option (Option R)) (of_t : Option T → Obj) where
    replaced : Event Obj → Pair T E → Event Obj × Bool
    replaced event (t, some e) = (event, false)
    replaced event (t, none) = (record event { object = of_t t }, true)

    -- The function that `Watch` gives to `watch.Filter`: an event, and whether to keep it.
    -- `as_r` is the assertion to `*R`, and `of_t` puts a `*T` in an interface.
    unfoldable pub filter_event : Event Obj → Event Obj × Bool
    unfolding replaced
    filter_event event = elim (as_r event.object) [
      | none ↦ (event, true)
      | some r ↦ replaced event (c.to r)
    ]

    unfoldable pub filtered :
        ((Event Obj → Event Obj × Bool) → Option Watch → Option Watch)
        → Pair Watch E × W
        → Pair Watch E × W
    unfolding filter_event
    filtered watch_filter ((watcher, none), w) = ((watch_filter filter_event watcher, none), w)
    filtered watch_filter ((watcher, some e), w) = ((none, some e), w)

    -- `Watch`, with `watch.Filter`
    unfoldable pub watch :
        ((Event Obj → Event Obj × Bool) → Option Watch → Option Watch) → Opts → W → Pair Watch E × W
    unfolding filtered
    watch watch_filter opts w = filtered watch_filter (c.replacement_client.watch opts w)

  -- `Patch`, `Apply` and `ApplyStatus` only panic.
  unfoldable pub patch : String → Opts → W → Outcome (Pair T E × W)
  patch name opts w = panics

  unfoldable pub apply :
      {ApplyConfiguration : Type 0} → ApplyConfiguration → Opts → W → Outcome (Pair T E × W)
  apply object opts w = panics

  unfoldable pub apply_status :
      {ApplyConfiguration : Type 0} → ApplyConfiguration → Opts → W → Outcome (Pair T E × W)
  apply_status object opts w = panics
