-- ===== src/Command/Announced.antt =====
-- The addresses that the rep announces, and those at which it serves.
use Prim.Native.Char.{Char, code}
use Prim.Native.String.append
use rep.Command.StackMaps.{colonless, after_colon}
use Prim.Native.String.{String, [], ◌∷◌, ◌++◌}
use rep.Base.{
  Bool, true, false, not, ◌&&◌, Option, none, some, ◌≡◌, refl, ap, ◌∙◌, subst, ◌↔◌, inl, inr, arith,
}
use mathlib.Core.Option.{some-injective}
use rep.Base.Tests.{if◌then◌else◌, eqb, Bool-cases}
use rep.Command.Settings.{
  Libraries, RepConfig, rep_host, rep_url, cut, port_of, presence_url, url_at, Server, server_at,
  initialize_server,
}

abbrev pub scheme : Bool → String
scheme tls = if tls then "https://" else "http://"

-- A listen address that is a host and a port, neither with a colon in it.
pub record Listens (address host port : String) : Type 0 where
  pub written : address ≡ host ++ (":" ++ port)
  pub host_plain : colonless host ≡ true
  pub port_plain : colonless port ≡ true

cut-colonless : (s : String) → colonless s ≡ true → cut b':' s ≡ (s, none)
unfolding cut colonless
cut-colonless [] h = refl
cut-colonless (c ∷ s) h = ground (arith, cut-colonless s (ground arith))

cut-colon : (s t : String) → colonless s ≡ true → cut b':' (s ++ (":" ++ t)) ≡ (s, some t)
unfolding cut colonless
cut-colon [] t h = rw (append.nil (":" ++ t), after_colon t) refl
cut-colon (c ∷ s) t h =
    rw (append.cons c s (":" ++ t)) (ground (arith, cut-colon s t (ground arith)))

port_of_parts :
    (address head tail port : String) (rest : Option String)
    → cut b':' address ≡ (head, some tail)
    → cut b':' tail ≡ (port, rest)
    → port_of address ≡ some port
unfolding port_of
port_of_parts address head tail port rest first second = ground (arith, first, second)

port_of-Listens :
    (address host port : String) → Listens address host port → port_of address ≡ some port
port_of-Listens address host port h =
    ap port_of h.written
    ∙ port_of_parts (host ++ (":" ++ port)) host port port none (cut-colon host port h.host_plain)
        (cut-colonless port h.port_plain)

-- What the secure server and the presence of the cell have in common: the port of the address at which
-- the server listens.
pub record Agree {l : Libraries} (config : RepConfig l) (ip host port : String) (server : Server)
    : Type 0 where
  pub listens : Listens server.listens_at host port
  pub tls : server.with_tls ≡ config.require_tls
  pub served : server.address ≡ scheme server.with_tls ++ ip ++ ":" ++ port
  pub announced :
      presence_url config true
      ≡ some
          (scheme server.with_tls ++ rep_url config.cell_id config.advertise_domain ++ ":" ++ port)

scheme-host :
    (tls : Bool) (host port : String)
    → (if tls then "https://" ++ host ++ ":" ++ port else "http://" ++ host ++ ":" ++ port)
      ≡ scheme tls ++ host ++ ":" ++ port
scheme-host true host port = refl
scheme-host false host port = refl

server_at-Agree :
    {l : Libraries} (config : RepConfig l) (ip host port : String) (server : Server)
    → Listens config.listen_addr_securable host port
    → port_of config.listen_addr_securable ≡ some port
    → server_at config.require_tls config.listen_addr_securable ip (some port) ≡ some server
    → Agree config ip host port server
unfolding server_at presence_url url_at
server_at-Agree config ip host port server listens at h =
    let name = rep_url config.cell_id config.advertise_domain in
    subst (Agree config ip host port) (some-injective {A = Server} _ server h) (record {
      listens = listens;
      tls = refl;
      served = scheme-host config.require_tls ip port;
      announced = rw at (ap some (scheme-host config.require_tls name port));
    })

-- Where the listen address of the secure server is a host and a port without colons, and the server
-- starts, it listens there, the URL that the cell announces names this port, and it has the scheme https
-- exactly if the server uses TLS, which it does as the configuration requires it.
pub initialize_server-Agree :
    {l : Libraries} (config : RepConfig l) (ip host port : String) (server : Server)
    → Listens config.listen_addr_securable host port
    → initialize_server config ip true ≡ some server
    → Agree config ip host port server
unfolding initialize_server
initialize_server-Agree config ip host port server listens h =
    let at = port_of-Listens config.listen_addr_securable host port listens in
    server_at-Agree config ip host port server listens at (rw at at h)

abbrev pub is_underscore : Char → Bool
is_underscore c = eqb (code c) b'_'

-- No character of the text is an underscore.
unfoldable pub underscoreless : String → Bool
underscoreless [] = true
underscoreless (c ∷ s) = not (is_underscore c) && underscoreless s

rep_host-underscoreless : (cell_id : String) → underscoreless (rep_host cell_id) ≡ true
unfolding rep_host underscoreless
rep_host-underscoreless [] = refl
rep_host-underscoreless (c ∷ s) = elim (Bool-cases (is_underscore c)) [
  | inl replaced ↦ rw replaced (rep_host-underscoreless s)
  | inr kept ↦ rw kept (rw kept (rep_host-underscoreless s))
]

rep_host-same : (cell_id : String) → underscoreless cell_id ≡ true → rep_host cell_id ≡ cell_id
unfolding rep_host underscoreless
rep_host-same [] h = refl
rep_host-same (c ∷ s) h = ground (arith, rep_host-same s (ground arith))

-- The host name of a cell has no underscore, and it is the id of the cell itself exactly if the id has
-- none.
pub rep_host-valid :
    (cell_id : String)
    → (underscoreless (rep_host cell_id) ≡ true)
      × ((rep_host cell_id ≡ cell_id) ↔ (underscoreless cell_id ≡ true))
rep_host-valid cell_id = (
  rep_host-underscoreless cell_id,
  (
    λ same. subst (λ x. underscoreless x ≡ true) same (rep_host-underscoreless cell_id),
    rep_host-same cell_id,
  ),
)
