-- ===== src/Lister/Listing.antt =====
-- `List` of both listers.
use mathlib.Core.List.{append-nil, append_assoc}
use cel_admission_polyfill.Prelude.{
  String, ◌≡◌, ◌∙◌, ap, sym, subst, ◌↔◌, Option, some, List, [], ◌∷◌, ◌++◌, returns, ◌>>=◌,
  >>=-eq-returns, Option-cases, inl, inr, arith,
}
use cel_admission_polyfill.Lister.{Indexer, Kind, asserted, append_all, listed, namespaced, lister}

module _ {Obj T E : Type 0} (kind : Kind Obj T E) where
  -- The items are of the type `T`, and as such they are `ts`, in their order.
  pub data Casts : List Obj → List T → Type 0 where
    nil : Casts [] []
    cons :
        {m : Obj} {t : T} {ms : List Obj} {ts : List T}
        → kind.cast m ≡ some t
        → Casts ms ts
        → Casts (m ∷ ms) (t ∷ ts)

  asserted-returns : (m : Obj) (t : T) → asserted kind m ≡ returns t → kind.cast m ≡ some t
  unfolding asserted
  asserted-returns m t h = elim (Option-cases (kind.cast m)) [
    | inl e ↦ absurd (ground arith)
    | inr (u, e) ↦ e ∙ ground arith
  ]

  append_all→Casts :
      (ms : List Obj) (ret ts : List T)
      → append_all kind ret ms ≡ returns ts
      → (us : List T) × Casts ms us × (ts ≡ ret ++ us)
  unfolding append_all
  append_all→Casts [] ret ts h = ([], nil, rw (append-nil ret) (ground arith))
  append_all→Casts (m ∷ ms) ret ts h =
      let (t, p, q) =
        >>=-eq-returns (asserted kind m) (λ t. append_all kind (ret ++ t ∷ []) ms) ts h in
      let (us, all, same) = append_all→Casts ms (ret ++ t ∷ []) ts q in
      (t ∷ us, cons (asserted-returns m t p) all, same ∙ append_assoc ret (t ∷ []) us)

  asserted_cast : (m : Obj) (t : T) → kind.cast m ≡ some t → asserted kind m ≡ returns t
  unfolding asserted
  asserted_cast m t e = ground arith

  Casts→append_all :
      (ms : List Obj) (us ret : List T) → Casts ms us → append_all kind ret ms ≡ returns (ret ++ us)
  unfolding append_all
  Casts→append_all _ _ ret nil = rw (append-nil ret)
  Casts→append_all _ _ ret (cons {m = m} {t = t} {ms = ms} {ts = ts} e h) =
      ap (λ r. r >>= λ t. append_all kind (ret ++ t ∷ []) ms) (asserted_cast m t e)
      ∙ Casts→append_all ms ts (ret ++ t ∷ []) h
      ∙ ap returns (append_assoc ret (t ∷ []) ts)

  listed_iff :
      (found : List Obj × Option E) (ts : List T) (err : Option E)
      → (listed kind found ≡ returns (ts, err)) ↔ (Casts found.0 ts × (found.1 ≡ err))
  unfolding listed
  listed_iff (ms, e) ts err = (
    λ h.
        let (ret, p, q) =
          >>=-eq-returns (append_all kind [] ms) (λ ret. returns (ret, e)) (ts, err) h in
        let (us, all, same) = append_all→Casts ms [] ret p in
        let us_ts : us ≡ ts = sym same ∙ ground arith in (subst (Casts ms) us_ts all, ground arith),
    λ (all, same).
        ap (λ r. r >>= λ ret. returns (ret, e)) (Casts→append_all ms ts [] all)
        ∙ ap (λ x. returns (ts, x)) same,
  )

  -- A lister returns a list exactly if all items that the cache passes to it are of the lister's
  -- type: the list has them all, in their order, and the cache's error is passed on. A lister of one namespace does the same with the items of the namespace.
  pub list-Casts_iff :
      {Selector : Type 0} (indexer : Indexer Obj E Selector) (namespace : String)
      (selector : Selector) (ts : List T) (err : Option E)
      → (((lister kind indexer).list selector ≡ returns (ts, err))
          ↔ (Casts (indexer.list_all selector).0 ts × ((indexer.list_all selector).1 ≡ err)))
        × (((namespaced kind indexer namespace).list selector ≡ returns (ts, err)) ↔ (
            Casts (indexer.list_all_by_namespace namespace selector).0 ts
            × ((indexer.list_all_by_namespace namespace selector).1 ≡ err)))
  unfolding lister namespaced
  list-Casts_iff indexer namespace selector ts err = (
    listed_iff (indexer.list_all selector) ts err,
    listed_iff (indexer.list_all_by_namespace namespace selector) ts err,
  )
