-- ===== src/Lister.antt =====
-- pkg/controller/lister.go and informer.go: typed reading of an informer's cache.
pub mod Listing
pub mod Generated
mod Tests
use Prim.Native.String
use cel_admission_polyfill.Prelude.{
  String, Bool, true, false, Option, none, some, List, [], ◌∷◌, ◌++◌, Outcome, returns, panics,
  ◌>>=◌,
}

-- `cache.Indexer`, as the listers use it. `GetByKey` returns an item, whether there is one, and an
-- error. A listing returns the items that `cache.ListAll` or `cache.ListAllByNamespace` passes to
-- its callback, in their order, and its error.
pub record Indexer (Obj E Selector : Type 0) : Type 0 where
  pub get_by_key : String → Obj × Bool × Option E
  pub list_all : Selector → List Obj × Option E
  pub list_all_by_namespace : String → Selector → List Obj × Option E

-- What a lister of `T` needs beside the cache: `m.(T)`, the zero value of `T`, and
-- `kerrors.NewNotFound` from a resource and a name.
pub record Kind (Obj T E : Type 0) : Type 0 where
  pub cast : Obj → Option T
  pub zero_value : T
  pub new_not_found : String → String → E

-- `Lister[T]` and `NamespacedLister[T]` of interface.go: both have these methods.
pub record Reader (T E Selector : Type 0) : Type 0 where
  pub list : Selector → Outcome (List T × Option E)
  pub get : String → Outcome (T × Option E)

module _ {Obj T E : Type 0} (kind : Kind Obj T E) where
  -- a type assertion
  unfoldable pub asserted : Obj → Outcome T
  asserted m = elim (kind.cast m) [ none ↦ panics | some t ↦ returns t ]

  -- the callbacks `ret = append(ret, m.(T))`
  append_all : List T → List Obj → Outcome (List T)
  unfolding asserted
  append_all ret [] = returns ret
  append_all ret (m ∷ ms) = asserted m >>= λ t. append_all (ret ++ t ∷ []) ms

  listed : List Obj × Option E → Outcome (List T × Option E)
  unfolding append_all
  listed (ms, err) = append_all [] ms >>= λ ret. returns (ret, err)

  -- the results of `GetByKey`, with the resource and the name that a missing item is reported by
  unfoldable pub found : String → String → Obj × Bool × Option E → Outcome (T × Option E)
  unfolding asserted
  found resource name (obj, exists, some e) = returns (kind.zero_value, some e)
  found resource name (obj, false, none) =
      returns (kind.zero_value, some (kind.new_not_found resource name))
  found resource name (obj, true, none) = asserted obj >>= λ t. returns (t, none)

  module _ {Selector : Type 0} where
    -- `namespacedLister`
    unfoldable pub namespaced : Indexer Obj E Selector → String → Reader T E Selector
    unfolding listed found
    namespaced indexer namespace = record {
      list = λ selector. listed (indexer.list_all_by_namespace namespace selector);
      get =
          λ name. found "" name (indexer.get_by_key (String.◌++◌ (String.◌++◌ namespace "/") name));
    }

    -- `lister`
    unfoldable pub lister : Indexer Obj E Selector → Reader T E Selector
    unfolding listed found
    lister indexer = record {
      list = λ selector. listed (indexer.list_all selector);
      get = λ name. found "validationruleset" name (indexer.get_by_key name);
    }
