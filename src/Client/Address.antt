-- ===== src/Client/Address.antt =====
-- The address that a client uses (pickURL).
use rep.Base.{String, ◌==◌, true, false, ◌≡◌, refl, ◌⊎◌, inl, inr, ◌↔◌, Option, none, some, arith}
use rep.Base.Tests.{Bool-cases}
use rep.Base.Result.{ok}
use rep.Rootfs.{Url}
use rep.Client.{TlsConfig, has_creds, is_secure, pick_checked, or_failed, pick_url}

-- The configuration allows the scheme of a rep URL: it is https where TLS is required, and where TLS is
-- not required, it is not https unless all three files are named.
pub record Allows (config : TlsConfig) (scheme : String) : Type 0 where
  pub tls_if_required : config.require_tls ≡ true → (scheme == "https") ≡ true
  pub files_if_tls :
      config.require_tls ≡ false
      → (scheme == "https") ≡ true
      → ((config.ca_cert_file == "") ≡ false)
        × ((config.key_file == "") ≡ false)
        × ((config.cert_file == "") ≡ false)

-- Without a rep URL, the old address is used, unless TLS is required; otherwise the rep URL is used, if
-- it can be parsed and its scheme is allowed.
abbrev pub Picks : (String → Option Url) → TlsConfig → String → String → String → Type 0
Picks parse config address rep_url u =
    (((rep_url == "") ≡ true) × (config.require_tls ≡ false) × (u ≡ address))
    ⊎ ((url : Url) × ((rep_url == "") ≡ false)
        × (parse rep_url ≡ some url)
        × Allows config url.scheme
        × (u ≡ rep_url))

module _ (parse : String → Option Url) (config : TlsConfig) (address rep_url u : String) where
  absent→Picks :
      (rep_url == "") ≡ true
      → pick_url parse config address rep_url ≡ ok u
      → Picks parse config address rep_url u
  unfolding pick_url is_secure pick_checked or_failed has_creds
  absent→Picks absent h = inl (absent, ground arith, ground arith)

  present→Picks :
      (parsed : Option Url)
      → parse rep_url ≡ parsed
      → (rep_url == "") ≡ false
      → pick_url parse config address rep_url ≡ ok u
      → Picks parse config address rep_url u
  unfolding pick_url is_secure pick_checked or_failed has_creds
  present→Picks none p present h = absurd (ground arith)
  present→Picks (some url) p present h = inr (
    url,
    present,
    p,
    record {
      tls_if_required = λ r. ground arith;
      files_if_tls = λ r s. (ground arith, ground arith, ground arith);
    },
    ground arith,
  )

  Picks→pick_url :
      Picks parse config address rep_url u → pick_url parse config address rep_url ≡ ok u
  unfolding pick_url is_secure pick_checked or_failed has_creds
  Picks→pick_url (inl (absent, r, same)) = ground arith
  Picks→pick_url (inr (url, present, p, a, same)) = elim (Bool-cases config.require_tls) [
    | inl required ↦ ground (arith, a.tls_if_required required)
    | inr free ↦ elim (Bool-cases (url.scheme == "https")) [
      | inl secure ↦ ground (arith, a.files_if_tls free secure)
      | inr plain ↦ ground arith
    ]
  ]

  -- pickURL picks the old address exactly where there is no rep URL and TLS is not required, and it picks the
  -- rep URL exactly where it can be parsed and either TLS is required and the scheme is https, or TLS is not
  -- required and the scheme is not https or the CA, key and certificate files are all named. It picks
  -- nothing else.
  pub pick_url_iff :
      (pick_url parse config address rep_url ≡ ok u) ↔ Picks parse config address rep_url u
  pick_url_iff = (
    λ h. elim (Bool-cases (rep_url == "")) [
      | inl absent ↦ absent→Picks absent h
      | inr present ↦ present→Picks (parse rep_url) refl present h
    ],
    Picks→pick_url,
  )
