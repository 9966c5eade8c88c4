-- ===== src/Client.antt =====
-- client.go: the client by which the auctioneer and the BBS talk to a rep: the address that it picks and
-- the TLS of its transports. `net/http` is a parameter. Its requests are in Client/Requests.
pub mod Address
pub mod Requests
pub mod Served
use rep.Base.{ℕ, String, ◌==◌, Bool, true, false, ◌&&◌, not, List, Option, none, some}
use rep.Base.Tests.{if◌then◌else◌, eqb}
use rep.Base.Int.{ℤ}
use rep.Base.Result.{Result, ok, err}
use rep.Rootfs.{Url}
use rep.Cell.{ActualLrpKey, CellState, Work}
use rep.Models.{Message, ActualLrpInstanceKey}
use rep.Services.{M, pure, on_result, ◌>>=◌}

pub record TlsConfig : Type 0 where
  pub require_tls : Bool
  pub cert_file : String
  pub key_file : String
  pub ca_cert_file : String
  pub client_cache_size : ℤ

unfoldable pub has_creds : TlsConfig → Bool
has_creds config =
    not (config.ca_cert_file == "") && not (config.key_file == "") && not (config.cert_file == "")

pub data AddressError : Type 0 where
  invalid_rep_url https_not_supported https_required : AddressError

-- The first part of pickURL: whether the rep URL is there and has the scheme https.
unfoldable pub is_secure : (String → Option Url) → String → Result AddressError Bool
is_secure parse rep_url =
    if rep_url == ""
    then ok false
    else elim (parse rep_url) [ none ↦ err invalid_rep_url | some url ↦ ok (url.scheme == "https") ]

-- The rep URL is preferred.
abbrev pub preferred : String → String → String
preferred address rep_url = if rep_url == "" then address else rep_url

-- The second part of pickURL.
unfoldable pub pick_checked : TlsConfig → String → String → Bool → Result AddressError String
unfolding has_creds
pick_checked config address rep_url secure =
    if not config.require_tls && not (has_creds config)
    then (if secure then err https_not_supported else ok (preferred address rep_url))
    else if not config.require_tls
    then ok (preferred address rep_url)
    else if not secure
    then err https_required
    else ok rep_url

-- `if err != nil { return err }`
unfoldable pub or_failed : {E A B : Type 0} → Result E A → (A → Result E B) → Result E B
or_failed (ok a) go = go a
or_failed (err e) go = err e

unfoldable pub pick_url :
    (String → Option Url) → TlsConfig → String → String → Result AddressError String
unfolding is_secure pick_checked or_failed
pick_url parse config address rep_url =
    or_failed (is_secure parse rep_url) (pick_checked config address rep_url)

-- The tls.Config of an http.Transport: what cfhttp.NewTLSConfig makes, and the size of the session cache.
pub record TlsClientConfig : Type 0 where
  pub files : Message
  pub session_cache_size : ℤ

-- http.Client.Transport: an *http.Transport with its TLSClientConfig, or another RoundTripper.
pub data Transport : Type 0 where
  http_transport : Option TlsClientConfig → Transport
  other_transport : Transport

pub data TlsError : Type 0 where
  invalid_tls_files : TlsError

-- modifyTransport; `new_tls_config` is cfhttp.NewTLSConfig.
unfoldable pub modify_transport :
    (String → String → String → Option Message) → TlsConfig → Transport → Result TlsError Transport
modify_transport new_tls_config config other_transport = ok other_transport
modify_transport new_tls_config config (http_transport old) =
    if not (has_creds config)
    then ok (http_transport old)
    else elim (new_tls_config config.cert_file config.key_file config.ca_cert_file) [
      | none ↦ err invalid_tls_files
      | some files ↦ ok (
          http_transport
            (some (record { files = files; session_cache_size = config.client_cache_size })))
    ]

abbrev pub zero_tls_config : TlsConfig
zero_tls_config = record {
  require_tls = false;
  cert_file = "";
  key_file = "";
  ca_cert_file = "";
  client_cache_size = ℤ.pos 0;
}

pub record ClientFactory : Type 0 where
  pub http_transport : Transport
  pub state_transport : Transport
  pub tls_config : TlsConfig

-- The nil of NewClientFactory's tlsConfig.
unfoldable pub given_tls_config : Option TlsConfig → TlsConfig
given_tls_config none = zero_tls_config
given_tls_config (some config) = config

-- NewClientFactory, of two clients of their own.
unfoldable pub new_client_factory :
    (String → String → String → Option Message)
    → Transport
    → Transport
    → Option TlsConfig
    → Result TlsError ClientFactory
unfolding modify_transport given_tls_config or_failed
new_client_factory new_tls_config http state given =
    let config = given_tls_config given in
    or_failed (modify_transport new_tls_config config http) λ http'.
      or_failed (modify_transport new_tls_config config state) λ state'.
        ok (record { http_transport = http'; state_transport = state'; tls_config = config })

-- client: its transports and its address.
pub record RepClient : Type 0 where
  pub http_transport : Transport
  pub state_transport : Transport
  pub address : String

-- CreateClient.
unfoldable pub create_client :
    (String → Option Url) → ClientFactory → String → String → Result AddressError RepClient
unfolding pick_url or_failed
create_client parse factory address url =
    or_failed (pick_url parse factory.tls_config address url) λ url_to_use. ok (record {
      http_transport = factory.http_transport;
      state_transport = factory.state_transport;
      address = url_to_use;
    })

-- SetStateClient.
unfoldable pub set_state_client : Transport → RepClient → RepClient
set_state_client transport c = record c { state_transport = transport }
