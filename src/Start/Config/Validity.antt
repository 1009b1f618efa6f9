-- ===== src/Start/Config/Validity.antt =====
-- Which configurations are accepted.
use thing_directory.Common.{
  ℕ, zero, suc, ◌≡◌, ◌≢◌, ◌⊎◌, ◌↔◌, inl, inr, refl, Bool-cases, Bool, true, false, String, Option,
  none, some, arith, ◌==◌, eq_iff, if◌then◌else◌, ◌&&◌, ◌||◌, not,
}
use thing_directory.Errors.{ok, err, panicked, Result, ◌>>◌}
use thing_directory.Start.Packages.{Packages, ℤ, pos, negsuc}
use thing_directory.Start.Config.{
  Config, ServiceCatalog, validate, validate_service_catalog, supported_backends, is_zero,
  is_nonpositive, backend_level_db, backend_memory, refuse_if, refuse_error,
}

-- The checks, one after the other.
both-ok : {m k : Result (Unit {0})} → ((m >> k) ≡ ok tt) ↔ ((m ≡ ok tt) × (k ≡ ok tt))
both-ok {m = ok u} = (λ h. (refl, h), λ (_, h). h)
both-ok {m = err e} = (λ h. absurd (cc), λ (h, _). absurd (cc))
both-ok {m = panicked m} = (λ h. absurd (cc), λ (h, _). absurd (cc))

given-ok :
    {b : Bool} {o : Option String} (m : String → String)
    → ((if b then refuse_error o m else ok tt) ≡ ok tt) ↔ ((b ≡ false) ⊎ (o ≡ none))
given-ok {b = false} {o} m = (λ h. inl refl, λ h. refl)
given-ok {b = true} {o = none} m = (λ h. inr refl, λ h. refl)
given-ok {b = true} {o = some e} m =
    (λ h. absurd (cc), λ h. elim h [ inl off ↦ absurd (cc) | inr k ↦ absurd (cc) ])

is_positive : (t : ℤ) → (is_nonpositive t ≡ false) ↔ ((n : ℕ) × (t ≡ pos (suc n)))
is_positive (pos zero) = (λ h. absurd (cc), λ (n, h). absurd (cc))
is_positive (pos (suc n)) = (λ h. (n, refl), λ h. refl)
is_positive (negsuc n) = (λ h. absurd (cc), λ (n, h). absurd (cc))

is_nonzero : (t : ℤ) → (is_zero t ≡ false) ↔ (t ≢ pos 0)
is_nonzero (pos zero) = (λ h. absurd (cc), λ h. absurd (h refl))
is_nonzero (pos (suc n)) = (λ h k. cc, λ h. refl)
is_nonzero (negsuc n) = (λ h k. cc, λ h. refl)

is_named : (s : String) → ((s == "") ≡ false) ↔ (s ≢ "")
is_named s = ground (arith, eq_iff s "")

-- Each check, and what it asks.
url-ok : {o : Option String} (m : String → String) → (refuse_error o m ≡ ok tt) ↔ (o ≡ none)
url-ok {o = none} m = (λ h. refl, λ h. refl)
url-ok {o = some e} m = (λ h. absurd (cc), λ h. absurd (cc))

address-ok :
    {a e : String} {t : ℤ} (m : String)
    → (refuse_if (a == "" || (is_zero t || e == "")) m ≡ ok tt)
      ↔ ((a ≢ "") × (t ≢ pos 0) × (e ≢ ""))
address-ok {a} {e} {t} m = ground (arith, is_named a, is_named e, is_nonzero t)

endpoint-ok :
    {a : String} {d : Bool} (m : String)
    → (refuse_if (a == "" && d) m ≡ ok tt) ↔ ((a ≢ "") ⊎ (d ≡ false))
endpoint-ok {a} {d} m = ground (arith, is_named a)

ttl-ok :
    {t : ℤ} (m : String) → (refuse_if (is_nonpositive t) m ≡ ok tt) ↔ ((n : ℕ) × (t ≡ pos (suc n)))
ttl-ok {t = pos zero} m = (λ h. absurd (cc), λ (n, h). absurd (cc))
ttl-ok {t = pos (suc n)} m = (λ h. (n, refl), λ h. refl)
ttl-ok {t = negsuc n} m = (λ h. absurd (cc), λ (n, h). absurd (cc))

backend-ok :
    {t : String} (m : String)
    → (refuse_if (not (supported_backends t)) m ≡ ok tt) ↔ (t ≡ backend_level_db)
unfolding supported_backends
backend-ok {t} m = elim (Bool-cases (t == backend_memory)) [
  | inl memory ↦
      rw ((eq_iff t backend_memory).0 memory) (λ h. absurd (cc), λ h. absurd (different h))
  | inr other ↦ ground (arith, other, eq_iff t backend_level_db)
]
  where
    different : backend_memory ≢ backend_level_db
    different h =
        let other : (backend_memory == backend_level_db) ≡ false = refl in
        cc ((eq_iff backend_memory backend_level_db).1 h, other)

module _ (p : Packages) where
  -- What the validation asks of the service catalog, if it is enabled.
  abbrev pub IsCatalogConfig : ServiceCatalog p → Type 0
  IsCatalogConfig c =
      ((c.endpoint ≢ "") ⊎ (c.discover ≡ false))
      × ((n : ℕ) × (c.ttl ≡ pos (suc n)))
      × ((p.obtainer_enabled c.auth ≡ false) ⊎ (p.obtainer_error c.auth ≡ none))

  abbrev pub IsConfig : Config p → Type 0
  IsConfig c =
      ((c.http.bind_addr ≢ "") × (c.http.bind_port ≢ pos 0) × (c.http.public_endpoint ≢ ""))
      × (p.url_error c.http.public_endpoint ≡ none)
      × ((p.validator_enabled c.http.auth ≡ false) ⊎ (p.validator_error c.http.auth ≡ none))
      × (p.url_error c.storage.dsn ≡ none)
      × (c.storage.type ≡ backend_level_db)
      × ((c.service_catalog.enabled ≡ false) ⊎ IsCatalogConfig c.service_catalog)

  validate_service_catalog_iff :
      (c : ServiceCatalog p) → (validate_service_catalog p c ≡ ok tt) ↔ IsCatalogConfig c
  unfolding validate_service_catalog
  validate_service_catalog_iff c = (
    λ h.
        let (a, h) = both-ok.0 h in
        let (b, h) = both-ok.0 h in ((endpoint-ok _).0 a, (ttl-ok _).0 b, (given-ok _).0 h),
    λ (a, b, d). both-ok.1 ((endpoint-ok _).1 a, both-ok.1 ((ttl-ok _).1 b, (given-ok _).1 d)),
  )

  catalog-ok :
      {b : Bool} (c : ServiceCatalog p)
      → ((if b then validate_service_catalog p c else ok tt) ≡ ok tt)
        ↔ ((b ≡ false) ⊎ IsCatalogConfig c)
  catalog-ok {b = false} c = (λ h. inl refl, λ h. refl)
  catalog-ok {b = true} c = (
    λ h. inr ((validate_service_catalog_iff c).0 h),
    λ h. elim h [ inl off ↦ absurd (cc) | inr k ↦ (validate_service_catalog_iff c).1 k ],
  )

  -- `Validate` accepts a configuration if and only if the address, the port and the public endpoint
  -- are set, the endpoint and the DSN of the storage are URLs, the storage is LevelDB, the
  -- authentication is off or valid, and the service catalog is off, or has a positive TTL,
  -- authentication that is off or valid, and an endpoint or the discovery turned off.
  pub validate_iff : (c : Config p) → (validate p c ≡ ok tt) ↔ IsConfig c
  unfolding validate
  validate_iff c = (
    λ h.
        let (a, h) = both-ok.0 h in
        let (b, h) = both-ok.0 h in
        let (d, h) = both-ok.0 h in
        let (e, h) = both-ok.0 h in
        let (f, h) = both-ok.0 h in
        (
          (address-ok _).0 a,
          (url-ok _).0 b,
          (given-ok _).0 d,
          (url-ok _).0 e,
          (backend-ok _).0 f,
          (catalog-ok c.service_catalog).0 h,
        ),
    λ (a, b, d, e, f, g). both-ok.1 (
      (address-ok _).1 a,
      both-ok.1 (
        (url-ok _).1 b,
        both-ok.1 (
          (given-ok _).1 d,
          both-ok.1
              ((url-ok _).1 e, both-ok.1 ((backend-ok _).1 f, (catalog-ok c.service_catalog).1 g)),
        ),
      ),
    ),
  )
