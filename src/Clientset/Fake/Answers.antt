-- ===== src/Clientset/Fake/Answers.antt =====
-- What the fake clients' `List` makes of the answers of `testing.Fake`.
use mathlib.Core.List.{append-nil, append_assoc}
use cel_admission_polyfill.Prelude.{
  String, Bool, ◌≡◌, refl, sym, ap, ◌∙◌, inl, inr, Option, none, some, List, [], ◌∷◌, ◌++◌, returns,
  if◌then◌else◌, arith, Bool-cases,
}
use cel_admission_polyfill.Transformed.{ListObject}
use cel_admission_polyfill.Clientset.Fake.{
  with_resource, with_kind, Actions, TestingFake, Objects, Labels, append, elements, select,
  label_of, listed, list,
}

-- The items that a test keeps
abbrev pub filtered : {V : Type 0} → (V → Bool) → List V → List V
filtered keeps [] = []
filtered keeps (item ∷ items) =
    if keeps item then item ∷ filtered keeps items else filtered keeps items

module _ {Action Obj V Opts Selector E Watch W : Type 0} (actions : Actions Action V Opts)
    (fake : TestingFake Action Obj E Watch W) (objects : Objects Obj V)
    (labels : Labels V Opts Selector) where
  -- The selector that the options have, or the one that selects everything.
  pub data IsSelector (opts : Opts) (selector : Selector) : Type 0 where
    given : labels.extract opts ≡ some selector → IsSelector opts selector
    by_default :
        labels.extract opts ≡ none → selector ≡ labels.everything → IsSelector opts selector

  module _ (resource kind : String) where
    elements-append :
        (items : Option (List V)) (item : V)
        → elements (append items item) ≡ elements items ++ item ∷ []
    unfolding append
    elements-append none item = refl
    elements-append (some items) item = refl

    elements-select :
        (label : Selector) (rest : List V) (items : Option (List V))
        → elements (select actions fake objects labels resource kind label rest items)
          ≡ elements items ++ filtered (labels.matches label) rest
    unfolding select
    elements-select label [] items = sym (append-nil (elements items))
    elements-select label (item ∷ rest) items = elim (Bool-cases (labels.matches label item)) [
      | inl e ↦
          rw (e, elements-select label rest (append items item), elements-append items item)
            (append_assoc (elements items) _ _)
      | inr e ↦ rw e (elements-select label rest items)
    ]

    label_of-IsSelector :
        (opts : Opts) (selector : Selector)
        → IsSelector opts selector
        → label_of actions fake objects labels resource kind opts ≡ selector
    unfolding label_of
    label_of-IsSelector opts selector (given e) = rw (e, label_of) refl
    label_of-IsSelector opts selector (by_default e is) = rw (e, label_of, is) refl

    -- For a list that `Invokes` answers with, `List` returns a list with its metadata and with those of
    -- its items that the label selector of the options matches, or without one in the options the
    -- selector of everything, in their order. The error is passed on, and so is the state.
    pub list-selects :
        (opts : Opts) (selector : Selector) (w w' : W) (obj : Obj) (l : ListObject V)
        (err : Option E)
        → IsSelector opts selector
        → fake.invokes
            (actions.list_action (with_resource resource) (with_kind kind) opts)
            objects.new_list
            w
          ≡ ((some obj, err), w')
        → objects.as_list obj ≡ some (some l)
        → (r : ListObject V) × (list actions fake objects labels resource kind opts w
            ≡ returns ((some r, err), w'))
          × (r.metadata ≡ l.metadata)
          × (elements r.items ≡ filtered (labels.matches selector) (elements l.items))
    unfolding list listed
    list-selects opts selector w w' obj l err selects answer typed = (
      record {
        metadata = l.metadata;
        items =
            select actions fake objects labels resource kind
              (label_of actions fake objects labels resource kind opts) (elements l.items) none;
      },
      rw answer (ground (arith, typed)),
      refl,
      elements-select _ (elements l.items) none
          ∙ ap (λ s. filtered (labels.matches s) (elements l.items))
              (label_of-IsSelector opts selector selects),
    )
