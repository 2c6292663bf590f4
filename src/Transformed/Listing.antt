-- ===== src/Transformed/Listing.antt =====
-- `List` of a transformed client.
use mathlib.Core.List.{append-nil, append_assoc}
use cel_admission_polyfill.Prelude.{
  ◌≡◌, refl, ◌∙◌, ap, sym, ◌↔◌, none, some, List, [], ◌∷◌, ◌++◌, Outcome, returns, panics, ◌>>=◌,
  >>=-eq-returns, arith,
}
use cel_admission_polyfill.Transformed.{
  Pair, ListObject, ListMeta, zero_meta, TransformedClient, get_items, list_with_items,
  push_converted, convert_items, listed, list,
}

get_items-none : {V : Type 0} → get_items {V = V} none ≡ panics
unfolding get_items
get_items-none = refl

module _ {T R E Opts Watch W : Type 0} (c : TransformedClient T R E Opts Watch W) where
  -- the items convert one by one, in their order
  pub data Converts : List R → List T → Type 0 where
    nil : Converts [] []
    cons :
        {v : R} {t : T} {vs : List R} {ts : List T}
        → c.to (some v) ≡ (some t, none)
        → Converts vs ts
        → Converts (v ∷ vs) (t ∷ ts)

  push_returned :
      (rest : List T → Outcome (Pair (ListObject T) E)) (before : List T) (r : Pair T E)
      (l : ListObject T)
      → push_converted c rest before r ≡ returns (some l, none)
      → (t : T) × (r ≡ (some t, none)) × (rest (before ++ t ∷ []) ≡ returns (some l, none))
  unfolding push_converted
  push_returned rest before (some t, none) l h = (t, refl, h)
  push_returned rest before (none, none) l h = cc
  push_returned rest before (t, some e) l h = cc

  convert_items→Converts :
      (vs : List R) (before : List T) (l : ListObject T)
      → convert_items c vs before ≡ returns (some l, none)
      → (ts : List T) × Converts vs ts × (l ≡ list_with_items (before ++ ts))
  unfolding convert_items
  convert_items→Converts [] before l h = ([], nil, rw (append-nil before) (ground arith))
  convert_items→Converts (v ∷ vs) before l h =
      let (t, e, rest) = push_returned (convert_items c vs) before (c.to (some v)) l h in
      let (ts, all, same) = convert_items→Converts vs (before ++ t ∷ []) l rest in
      (t ∷ ts, cons e all, same ∙ ap list_with_items (append_assoc before (t ∷ []) ts))

  Converts→convert_items :
      (vs : List R) (ts before : List T)
      → Converts vs ts
      → convert_items c vs before ≡ returns (some (list_with_items (before ++ ts)), none)
  unfolding convert_items push_converted
  Converts→convert_items _ _ before nil = rw (append-nil before)
  Converts→convert_items _ _ before (cons {v = v} {t = t} {vs = vs} {ts = ts} e h) = rw e (
      Converts→convert_items vs ts (before ++ t ∷ []) h
      ∙ ap (λ l. returns (some (list_with_items l), none)) (append_assoc before (t ∷ []) ts))

  listed→Lists :
      (r : Pair (ListObject R) E × W) (l : ListObject T) (w' : W)
      → listed c r ≡ returns ((some l, none), w')
      → (ts : List T) × ((value : ListObject R) × (vs : List R) × (r ≡ ((some value, none), w'))
          × (get_items (some value) ≡ returns vs)
          × Converts vs ts)
        × (l ≡ list_with_items ts)
  unfolding listed
  listed→Lists ((value, some e), w) l w' h = cc
  listed→Lists ((none, none), w) l w' h = cc (get_items-none {V = R})
  listed→Lists ((some value, none), w) l w' h =
      let (vs, p, q) =
        >>=-eq-returns (get_items (some value))
          (λ vs. convert_items c vs [] >>= λ result. returns (result, w)) ((some l, none), w') h in
      let (result, p', q') =
        >>=-eq-returns (convert_items c vs []) (λ result. returns (result, w)) ((some l, none), w')
          q in
      let same : (result, w) ≡ ((some l, none), w') = ground arith in
      let (ts, all, built) =
        convert_items→Converts vs [] l
          (p' ∙ ap (λ (z : Pair (ListObject T) E × W). returns z.0) same) in
      (
        ts,
        (value, vs, ap (λ (z : Pair (ListObject T) E × W). ((some value, none), z.1)) same, p, all),
        built,
      )

  Lists→listed :
      (value : ListObject R) (vs : List R) (ts : List T) (w : W)
      → get_items (some value) ≡ returns vs
      → Converts vs ts
      → listed c ((some value, none), w) ≡ returns ((some (list_with_items ts), none), w)
  unfolding listed
  Lists→listed value vs ts w h all =
      ap (λ m. m >>= λ items. convert_items c items [] >>= λ result. returns (result, w)) h
      ∙ ap (λ m. m >>= λ result. returns (result, w)) (Converts→convert_items vs ts [] all)

  -- The list that the server returns, and the items of the list that is returned from it.
  abbrev pub Lists : Opts → W → List T → W → Type 0
  Lists opts w ts w' =
      (value : ListObject R) × (vs : List R) × (c.replacement_client.list opts w
        ≡ ((some value, none), w'))
      × (get_items (some value) ≡ returns vs)
      × Converts vs ts

  -- Listing returns a list exactly when the server returns one whose items, a nil slice being an
  -- empty one, all convert: it has their conversions, one for each item and in their order, with the
  -- zero metadata.
  pub list_iff :
      (opts : Opts) (w w' : W) (l : ListObject T)
      → (list c opts w ≡ returns ((some l, none), w'))
        ↔ ((ts : List T) × Lists opts w ts w' × (l ≡ list_with_items ts))
  unfolding list listed
  list_iff opts w w' l = (
    listed→Lists (c.replacement_client.list opts w) l w',
    λ (ts, (value, vs, p, q, all), same).
        ap (listed c) p
        ∙ Lists→listed value vs ts w' q all
        ∙ ap (λ x. returns ((some x, none), w')) (sym same),
  )

  listed_metadata :
      (r : Pair (ListObject R) E × W) (l : ListObject T) (w' : W)
      → listed c r ≡ returns ((some l, none), w')
      → l.metadata ≡ zero_meta
  unfolding list_with_items
  listed_metadata r l w' h =
      let (ts, _, same) = listed→Lists r l w' h in ap (λ (x : ListObject T). x.metadata) same

  -- A list that listing returns has an empty resource version and an empty continue token, whatever
  -- the server's list has.
  pub list-metadata_lost :
      (opts : Opts) (w w' : W) (l : ListObject T)
      → list c opts w ≡ returns ((some l, none), w')
      → (l.metadata.resource_version ≡ "") × (l.metadata.continue_token ≡ "")
  unfolding list
  list-metadata_lost opts w w' l h =
      let same = listed_metadata (c.replacement_client.list opts w) l w' h in
      (ap (λ (m : ListMeta). m.resource_version) same, ap (λ (m : ListMeta). m.continue_token) same)
