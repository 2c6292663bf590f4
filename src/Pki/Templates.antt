-- ===== src/Pki/Templates.antt =====
-- The templates that certificates are made from: pkg/pki/cert.go's populateTemplate, and the changes that
-- pkg/pki/ca.go and CreateCertificate make to what it returns.
use cel_admission_polyfill.Prelude.{
  ℕ, String, true, false, ◌≡◌, ◌≢◌, refl, ◌∙◌, ap, subst, ◌↔◌, List, [], ◌∷◌, In, here, there,
  length, leb, if◌then◌else◌, arith,
}
use cel_admission_polyfill.Pki.{
  ℤ, Attempt, made, failed, Crypto, Certificate, CaConfig, key_encipherment, digital_signature,
  cert_sign, server_auth, five_minutes_ago, default_expiry, is_zero, ◌>>=◌, serial_number,
  template_at, populate_template, ca_template, host_template,
}

-- A chain that has made something made each of its parts.
pub >>=-made :
    {E W A B : Type 0} (r : Attempt E A × W) (f : A → W → Attempt E B × W) (b : B) (w' : W)
    → (r >>= f) ≡ (made b, w')
    → (a : A) × (v : W) × (r ≡ (made a, v)) × (f a v ≡ (made b, w'))
>>=-made (made a, v) f b w' h = (a, v, refl, h)
>>=-made (failed e, v) f b w' h = cc

-- What was made, or else `a`.
abbrev or_else : {E A : Type 0} → A → Attempt E A → A
or_else a (made b) = b
or_else a (failed e) = a

pub made_inj :
    {E W A : Type 0} (a b : A) (v w : W) → ◌≡◌ {A = Attempt E A × W} (made a, v) (made b, w) → a ≡ b
made_inj a b v w h = ap (λ (x : Attempt _ _ × _). or_else a x.0) h

module _ {Time Pub Priv E W : Type 0} (lib : Crypto Time Pub Priv E W) where
  -- The template's name is `name`, and it is valid from five minutes before a time that the clock
  -- gave until the expiry after that time, a year for the expiry 0.
  pub record IsValidFor (name : String) (expiry : ℤ) (template : Certificate Time) : Type 0 where
    pub now : Time
    pub has_name : template.common_name ≡ name
    pub starts : template.not_before ≡ lib.add now five_minutes_ago
    pub ends : template.not_after ≡ lib.add now (if is_zero expiry then default_expiry else expiry)
    pub constrained : template.basic_constraints_valid ≡ true

  -- What a template is before it is changed for its use.
  abbrev pub Populated : String → ℤ → Certificate Time → Type 0
  Populated name expiry t =
      IsValidFor name expiry t
      × (t.is_ca ≡ false)
      × (t.key_usage ≡ key_encipherment ∷ digital_signature ∷ [])
      × (t.permitted_dns_domains ≡ [])
      × (t.permitted_dns_domains_critical ≡ false)

  template_at-Populated :
      (name : String) (expiry : ℤ) (sn : ℕ) (now : Time)
      → Populated name expiry (template_at lib name expiry sn now)
  unfolding template_at
  template_at-Populated name expiry sn now = (
    record { now = now; has_name = refl; starts = refl; ends = refl; constrained = refl },
    refl,
    refl,
    refl,
    refl,
  )

  pub populated :
      (name : String) (expiry : ℤ) (w w' : W) (t : Certificate Time)
      → populate_template lib name expiry w ≡ (made t, w')
      → Populated name expiry t
  unfolding populate_template
  populated name expiry w w' t h =
      let (sn, v, p, q) = >>=-made (serial_number lib w) _ t w' h in
      subst (Populated name expiry) (made_inj _ t _ w' q)
        (template_at-Populated name expiry sn (lib.now v).0)

  -- A template for a certificate authority as `config` asks for it: it is one, may sign certificates,
  -- and its domains are restricted, and critically, exactly if the configuration names some.
  pub record IsAuthority (config : CaConfig) (t : Certificate Time) : Type 0 where
    pub is_valid : IsValidFor config.common_name config.expiry t
    pub is_ca : t.is_ca ≡ true
    pub signs : In cert_sign t.key_usage
    pub domains : t.permitted_dns_domains ≡ config.permitted_dns_domains
    pub critical_iff :
        (t.permitted_dns_domains_critical ≡ true) ↔ (config.permitted_dns_domains ≢ [])

  -- A template for a server of the host: no authority, with a key for encipherment and
  -- signatures only, and good for that one name.
  pub record IsServer (host_name : String) (expiry : ℤ) (t : Certificate Time) : Type 0 where
    pub is_valid : IsValidFor host_name expiry t
    pub is_no_ca : t.is_ca ≡ false
    pub usage : t.key_usage ≡ key_encipherment ∷ digital_signature ∷ []
    pub names : t.dns_names ≡ host_name ∷ []
    pub serves : In server_auth t.ext_key_usage

  kept_valid :
      (name : String) (expiry : ℤ) (t u : Certificate Time)
      → IsValidFor name expiry t
      → u.common_name ≡ t.common_name
      → u.not_before ≡ t.not_before
      → u.not_after ≡ t.not_after
      → u.basic_constraints_valid ≡ t.basic_constraints_valid
      → IsValidFor name expiry u
  kept_valid name expiry t u v a b c d = record {
    now = v.now;
    has_name = a ∙ v.has_name;
    starts = b ∙ v.starts;
    ends = c ∙ v.ends;
    constrained = d ∙ v.constrained;
  }

  pub ca_template-IsAuthority :
      (config : CaConfig) (t : Certificate Time)
      → Populated config.common_name config.expiry t
      → IsAuthority config (ca_template lib config t)
  unfolding ca_template
  ca_template-IsAuthority config t (v, _, usage, none_permitted, not_critical) = record {
    is_valid =
        kept_valid config.common_name config.expiry t (ca_template lib config t) v refl refl refl
          refl;
    is_ca = refl;
    signs = rw usage (there (there here));
    domains = domains_of config.permitted_dns_domains;
    critical_iff = critical_of config.permitted_dns_domains;
  }
    where
      domains_of : (l : List String) → (if leb (length l) 0 then t.permitted_dns_domains else l) ≡ l
      domains_of [] = none_permitted
      domains_of (d ∷ l) = ground arith

      critical_of :
          (l : List String)
          → ((if leb (length l) 0 then t.permitted_dns_domains_critical else true) ≡ true)
            ↔ (l ≢ [])
      critical_of [] = ground (arith, not_critical)
      critical_of (d ∷ l) = ground arith

  pub host_template-IsServer :
      (host_name : String) (expiry : ℤ) (t : Certificate Time)
      → Populated host_name expiry t
      → IsServer host_name expiry (host_template lib host_name t)
  unfolding host_template
  host_template-IsServer host_name expiry t (v, no_ca, usage, _, _) = record {
    is_valid = kept_valid host_name expiry t (host_template lib host_name t) v refl refl refl refl;
    is_no_ca = no_ca;
    usage = usage;
    names = refl;
    serves = there here;
  }
