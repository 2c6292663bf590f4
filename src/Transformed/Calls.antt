-- ===== src/Transformed/Calls.antt =====
-- The methods of a transformed client that send or return one object.
use cel_admission_polyfill.Prelude.{String, ◌≡◌, refl, ◌∙◌, ap, ◌⊎◌, inl, inr, Option, none, some}
use cel_admission_polyfill.Transformed.{
  Pair, TransformedClient, next_call, converted_back, send, create, get,
}

-- A Go result with an error has no value.
abbrev pub IsExclusive : {A E : Type 0} → Pair A E → Type 0
IsExclusive r = (r.1 ≡ none) ⊎ (r.0 ≡ none)

next_call-IsExclusive :
    {A B E W : Type 0} (rest : Option A → W → Pair B E × W) (r : Pair A E × W)
    → ((v : Option A) (w : W) → IsExclusive (rest v w).0)
    → IsExclusive (next_call rest r).0
unfolding next_call
next_call-IsExclusive rest ((v, none), w) h = h v w
next_call-IsExclusive rest ((v, some e), w) h = inr refl

pub next_call_returned :
    {A B E W : Type 0} (rest : Option A → W → Pair B E × W) (r : Pair A E × W) (b : Option B)
    (w' : W)
    → next_call rest r ≡ ((b, none), w')
    → (a : Option A) × (w : W) × (r ≡ ((a, none), w)) × (rest a w ≡ ((b, none), w'))
unfolding next_call
next_call_returned rest ((a, none), w) b w' h = (a, w, refl, h)
next_call_returned rest ((a, some e), w) b w' h = cc

module _ {T R E Opts Watch W : Type 0} (c : TransformedClient T R E Opts Watch W) where
  -- the conversion back, and the whole of a sending method, as chains
  abbrev as_is : Option T → W → Pair T E × W
  as_is t w = ((t, none), w)

  abbrev to_target : Option R → W → Pair T E × W
  to_target r w = next_call as_is (c.to r, w)

  converted_back-IsExclusive : (r : Pair R E × W) → IsExclusive (converted_back c r).0
  unfolding converted_back
  converted_back-IsExclusive r =
      next_call-IsExclusive to_target r
        (λ v w. next_call-IsExclusive as_is (c.to v, w) (λ t u. inl refl))

  send-IsExclusive :
      (call : Option R → W → Pair R E × W) (object : Option T) (w : W)
      → IsExclusive (send c call object w).0
  unfolding send
  send-IsExclusive call object w =
      next_call-IsExclusive (λ r u. converted_back c (call r u)) (c.from object, w)
        (λ r u. converted_back-IsExclusive (call r u))

  -- Creating and getting return no object beside an error, though the conversions and the
  -- replacement client may.
  pub calls-IsExclusive :
      (object : Option T) (name : String) (opts : Opts) (w : W)
      → IsExclusive (create c object opts w).0 × IsExclusive (get c name opts w).0
  unfolding create get
  calls-IsExclusive object name opts w = (
    send-IsExclusive (λ r. c.replacement_client.create r opts) object w,
    converted_back-IsExclusive (c.replacement_client.get name opts w),
  )

  pub converted_back_returned :
      (r : Pair R E × W) (t : Option T) (w' : W)
      → converted_back c r ≡ ((t, none), w')
      → (v : Option R) × (r ≡ ((v, none), w')) × (c.to v ≡ (t, none))
  unfolding converted_back
  converted_back_returned r t w' h =
      let (v, w, p, q) = next_call_returned to_target r t w' h in
      let (t', u, p', q') = next_call_returned as_is (c.to v, w) t w' q in
      let same = p' ∙ q' in
      (
        v,
        p ∙ ap (λ (z : W). ((v, none), z)) (ap (λ (z : Pair T E × W). z.1) same),
        ap (λ (z : Pair T E × W). z.0) same,
      )

  pub send_returned :
      (call : Option R → W → Pair R E × W) (object : Option T) (w w' : W) (t : Option T)
      → send c call object w ≡ ((t, none), w')
      → (r r' : Option R) × (c.from object ≡ (r, none))
        × (call r w ≡ ((r', none), w'))
        × (c.to r' ≡ (t, none))
  unfolding send
  send_returned call object w w' t h =
      let (r, u, p, q) =
        next_call_returned (λ r u. converted_back c (call r u)) (c.from object, w) t w' h in
      let (r', p', q') = converted_back_returned (call r u) t w' q in
      (
        r,
        r',
        ap (λ (z : Pair R E × W). z.0) p,
        ap (call r) (ap (λ (z : Pair R E × W). z.1) p) ∙ p',
        q',
      )

  converted_back_of :
      (r : Option R) (t : Option T) (w : W)
      → c.to r ≡ (t, none)
      → converted_back c ((r, none), w) ≡ ((t, none), w)
  unfolding converted_back next_call
  converted_back_of r t w h = ap (λ (z : Pair T E). next_call as_is (z, w)) h

  -- If the server returns for a name what creating an object has just returned, then so does the
  -- transformed client, after the conversions: the object is got in the form in which creating it
  -- returned it.
  pub get-create :
      (object : Option T) (name : String) (opts get_opts : Opts) (w w' : W) (t : Option T)
      → ((r r' : Option R)
          → c.replacement_client.create r opts w ≡ ((r', none), w')
          → c.replacement_client.get name get_opts w' ≡ ((r', none), w'))
      → create c object opts w ≡ ((t, none), w')
      → get c name get_opts w' ≡ ((t, none), w')
  unfolding create get
  get-create object name opts get_opts w w' t stored h =
      let (r, r', _, sent, back) =
        send_returned (λ r. c.replacement_client.create r opts) object w w' t h in
      ap (converted_back c) (stored r r' sent) ∙ converted_back_of r' t w' back
