-- ===== src/Clientset/Fake/Simple.antt =====
-- pkg/generated/clientset/versioned/fake/clientset_generated.go: a clientset on an object tracker. The
-- tracker, the chains of `testing.Fake` and the fake discovery are of a library, and parameters.
use cel_admission_polyfill.Prelude.{
  String, Bool, true, false, ◌≡◌, refl, subst, ◌↔◌, Option, none, some, List, [], ◌∷◌, Outcome,
  returns, panics, ◌>>=◌, >>=-eq-returns, arith, Option-cases, inl, inr,
}
use cel_admission_polyfill.Admission.{GroupVersionResource}
use cel_admission_polyfill.Transformed.{Pair}

-- What a reactor answers: whether it has handled the action, and what it returns
abbrev pub Reaction : Type 0 → Type 0 → Type 0 → Type 0
Reaction A E W = W → (Bool × Pair A E) × W

-- `testing.ObjectTracker`, whose state is in `W`; `object_reaction` is `testing.ObjectReaction(o)`.
-- `resource` and `namespace` are methods of an action.
pub record Tracker (Action Obj E Watch W : Type 0) : Type 0 where
  pub add : Obj → W → Option E × W
  pub watch : GroupVersionResource → String → W → Pair Watch E × W
  pub object_reaction : Action → Reaction Obj E W
  pub resource_of : Action → GroupVersionResource
  pub namespace_of : Action → String

-- A reactor in a chain, with the verb and the resource that it is for
pub record Reactor (Action A E W : Type 0) : Type 0 where
  pub verb : String
  pub resource : String
  pub react : Action → Reaction A E W

-- `Clientset` of the fakes, with the chains of the `testing.Fake` that it embeds
pub record FakeClientset (Action Obj E Watch W : Type 0) : Type 0 where
  pub reaction_chain : List (Reactor Action Obj E W)
  pub watch_reaction_chain : List (Reactor Action Watch E W)
  pub tracker : Tracker Action Obj E Watch W

module _ {Action Obj E Watch W : Type 0} (o : Tracker Action Obj E Watch W) where
  -- the loop of `NewSimpleClientset`; `panic(err)`
  unfoldable pub add_all : List Obj → W → Outcome W
  add_all [] w = returns w
  add_all (obj ∷ objects) w =
      let rest = λ (v : W). add_all objects v in
      elim (o.add obj w).0 [ none ↦ rest (o.add obj w).1 | some err ↦ panics ]

  watched : Pair Watch E × W → (Bool × Pair Watch E) × W
  watched ((watch, none), w) = ((true, (watch, none)), w)
  watched ((watch, some e), w) = ((false, (none, none)), w)

  -- the function that it gives to `AddWatchReactor`
  unfoldable pub watch_reaction : Action → Reaction Watch E W
  unfolding watched
  watch_reaction action w = watched (o.watch (o.resource_of action) (o.namespace_of action) w)

  -- `cs`, with its reactors
  unfoldable pub simple_clientset : FakeClientset Action Obj E Watch W
  unfolding watch_reaction
  simple_clientset = record {
    reaction_chain = record { verb = "*"; resource = "*"; react = o.object_reaction } ∷ [];
    watch_reaction_chain = record { verb = "*"; resource = "*"; react = watch_reaction } ∷ [];
    tracker = o;
  }

  -- `NewSimpleClientset`
  unfoldable pub new_simple_clientset :
      List Obj → W → Outcome (FakeClientset Action Obj E Watch W × W)
  unfolding add_all simple_clientset
  new_simple_clientset objects w = add_all objects w >>= λ v. returns (simple_clientset, v)

  -- The tracker takes the objects, one after the other.
  pub data Added : List Obj → W → W → Type 0 where
    all_added : {w : W} → Added [] w w
    one_added :
        {obj : Obj} {objects : List Obj} {w v u : W}
        → o.add obj w ≡ (none, v)
        → Added objects v u
        → Added (obj ∷ objects) w u

  add_all-Added : (objects : List Obj) (w u : W) → add_all objects w ≡ returns u → Added objects w u
  unfolding add_all
  add_all-Added [] w u h = subst (λ v. Added [] w v) (ground (arith, h)) all_added
  add_all-Added (obj ∷ objects) w u h = elim (Option-cases (o.add obj w).0) [
    | inl e ↦
        one_added (λ i. (e i, (o.add obj w).1)) (add_all-Added objects _ u (ground (arith, h, e)))
    | inr (err, e) ↦ ground (arith, h, e)
  ]

  Added-add_all : {objects : List Obj} {w u : W} → Added objects w u → add_all objects w ≡ returns u
  unfolding add_all
  Added-add_all all_added = refl
  Added-add_all (one_added e rest) = ground (arith, e, Added-add_all rest)

  -- `NewSimpleClientset` returns, and does not panic, exactly when the tracker takes all objects in
  -- their order, and leaves the tracker's state as they do.
  pub new_simple_clientset-returns :
      (objects : List Obj) (w u : W)
      → (new_simple_clientset objects w ≡ returns (simple_clientset, u)) ↔ Added objects w u
  unfolding new_simple_clientset
  new_simple_clientset-returns objects w u = (
    λ h.
        let (v, e, r) = >>=-eq-returns (add_all objects w) _ _ h in
        add_all-Added objects w u (ground (arith, e, r)),
    λ h. rw (Added-add_all h) refl,
  )
