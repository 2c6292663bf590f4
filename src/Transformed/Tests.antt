-- ===== src/Transformed/Tests.antt =====
-- A transformed client of numbers. Its target is one more than what the server keeps, and 0 has no
-- counterpart there; the server keeps one object.
use cel_admission_polyfill.Prelude.{
  ℕ, zero, suc, String, ◌≡◌, refl, ◌↔◌, Option, none, some, List, [], ◌∷◌, returns,
}
use cel_admission_polyfill.Transformed
use cel_admission_polyfill.Transformed.{
  Pair, ListMeta, ListObject, Client, Event, create, update, update_status, get, list, get_items,
  list_with_items, filter_event,
}
use cel_admission_polyfill.Transformed.Listing.{Lists, list_iff}

abbrev kept_meta : ListMeta
kept_meta = record { resource_version = "12"; continue_token = "next" }

abbrev store : Client ℕ String Unit Unit (Option ℕ)
store = record {
  create = λ r opts w. ((r, none), r);
  update = λ r opts w. returns ((r, none), r);
  update_status = none;
  delete = λ name opts w. (none, none);
  delete_collection = λ opts list_opts w. (none, none);
  get = λ name opts w. ((w, none), w);
  list = λ opts w. ((some (record { metadata = kept_meta; items = some (3 ∷ 4 ∷ []) }), none), w);
  watch = λ opts w. ((none, none), w);
}

abbrev up : Option ℕ → Pair ℕ String
up none = (none, some "nil")
up (some n) = (some (suc n), none)

abbrev down : Option ℕ → Pair ℕ String
down none = (none, some "nil")
down (some zero) = (none, some "zero")
down (some (suc n)) = (some n, none)

abbrev client : Transformed.TransformedClient ℕ ℕ String Unit Unit (Option ℕ)
client = record { target_client = store; replacement_client = store; to = up; from = down }

abbrev five : ListObject ℕ
five = record {
  metadata = record { resource_version = ""; continue_token = "" };
  items = some (4 ∷ 5 ∷ []);
}

created : create client (some 5) tt none ≡ ((some 5, none), some 4)
unfolding create
created = refl

listed_five : list client tt (some 1) ≡ returns ((some five, none), some 1)
unfolding list get_items list_with_items
listed_five = refl

updated : update client (some 5) tt none ≡ returns ((some 5, none), some 4)
unfolding update
updated = refl

unconverted : update client (some 0) tt (some 2) ≡ returns ((none, some "zero"), some 2)
unfolding update
unconverted = refl

list_iff_example :
    (list client tt (some 1) ≡ returns ((some five, none), some 1))
    ↔ ((ts : List ℕ) × Lists client tt (some 1) ts (some 1) × (five ≡ list_with_items ts))
list_iff_example = list_iff client tt (some 1) (some 1) five

abbrev modified : Event (Option (Option ℕ))
modified = record { kind = "MODIFIED"; object = some none }

-- A modification that reports an object the replacer knows keeps its kind.
modified_kind : (filter_event client (λ o. o) (λ t. some t) modified).0.kind ≡ "MODIFIED"
unfolding filter_event
modified_kind = refl
