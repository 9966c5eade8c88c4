-- ===== src/Command/Started.antt =====
-- What main has started when it invokes its group of members.
use rep.Base.{
  String, ◌==◌, ◌++◌, true, false, List, [], ◌∷◌, Option, none, some, map, Memᴰ, not, ◌≡◌, refl,
  ◌∙◌, ap, subst, arith,
}
use mathlib.Core.List.Memᴰ
use rep.Base.{inl, inr}
use rep.Base.Tests.{if◌then◌else◌, Bool-cases}
use rep.Base.Result.{Result, ok, err, and_then-ok, ok-injective}
use rep.Maintainer.{cell_presence}
use rep.Command.Settings.{
  Libraries, RepConfig, new_rep_config, presence_url, maintain_config, initialize_server,
}
use rep.Command.Announced.{Listens, Agree, initialize_server-Agree}
use rep.Command.Startup.{
  Emitter, ConsulClient, BbsClient, Exit, Startup, ◌>>=◌, ◌>>◌, Presence, locket_presence,
  maintained_presence, HttpServer, Registration, start_server, locket_runner,
  initialize_registration_runner, initialize_cell_presence, indexed, or_fatal, or_exit,
}
use rep.Command.Main.{
  Started, Member, member, presence_runner, http_server, executor_member, override_zone,
  with_debug_server, rep_members, start, main, or_panic,
}

-- The URL that the presence tells.
abbrev pub url_of : Presence → String
url_of (locket_presence presence key owner value ttl) = presence.rep_url
url_of (maintained_presence config ttl) = config.rep_url

abbrev pub debug_names : String → List String
debug_names address = if not (address == "") then "debug-server" ∷ [] else []

abbrev pub rep_names : List String
rep_names =
    "presence" ∷ "http_server" ∷ "https_server" ∷ "evacuation-cleanup" ∷ "bulker" ∷ "event-consumer"
    ∷ "evacuator" ∷ "registration-runner" ∷ []

indexed-some : {A : Type 0} (o : Option A) (a : A) → indexed o ≡ ok a → o ≡ some a
indexed-some none a h = absurd (ground arith)
indexed-some (some b) a h = ground arith

or_fatal-ok :
    {A : Type 0} (message : String) (r : Result String A) (a : A)
    → or_fatal message r ≡ ok a
    → r ≡ ok a
or_fatal-ok message (ok b) a h = ground arith
or_fatal-ok message (err e) a h = absurd (ground arith)

or_exit-ok :
    {A : Type 0} (message : String) (r : Result String A) (a : A)
    → or_exit message r ≡ ok a
    → r ≡ ok a
or_exit-ok message (ok b) a h = ground arith
or_exit-ok message (err e) a h = absurd (ground arith)

or_panic-ok : {A : Type 0} (r : Result String A) (a : A) → or_panic r ≡ ok a → r ≡ ok a
or_panic-ok (ok b) a h = ground arith
or_panic-ok (err e) a h = absurd (ground arith)

-- The parts of a chain that succeeds.
>>=_lem :
    {A B : Type 0} {r : Result Exit A} {f : A → Result Exit B} {b : B}
    → r >>= f ≡ ok b
    → (a : A) × (r ≡ ok a) × (f a ≡ ok b)
unfolding ◌>>=◌
>>=_lem {r = r} {f = f} {b = b} h = and_then-ok r f b h

>>_lem :
    {A B : Type 0} {r : Result Exit A} {s : Result Exit B} {b : B}
    → r >> s ≡ ok b
    → (a : A) × (r ≡ ok a) × (s ≡ ok b)
unfolding ◌>>◌
>>_lem {r = r} {s = s} {b = b} h = and_then-ok r (λ _. s) b h

module _ {l : Libraries} (s : Startup l) (c : RepConfig l) where
  locket_runner-url :
      (address : String) (root_fses : List String) (url : String) (p : Presence)
      → locket_runner s c address root_fses url ≡ ok p
      → url_of p ≡ url
  unfolding locket_runner ◌>>=◌ ◌>>◌ cell_presence maintain_config
  locket_runner-url address root_fses url p h = ground arith

  initialize_cell_presence-url :
      (address : String) (root_fses : List String) (p : Presence)
      → initialize_cell_presence s c address root_fses true ≡ ok p
      → presence_url c true ≡ some (url_of p)
  unfolding initialize_cell_presence maintain_config
  initialize_cell_presence-url address root_fses p h =
      let (url, found, rest) = >>=_lem h in
      ground (arith, locket_runner-url address root_fses url p, indexed-some _ _ found)

  start_server-starts :
      (http : HttpServer)
      → start_server s c true ≡ ok http
      → (ip : String) × (initialize_server c ip true ≡ some http.server)
  unfolding start_server
  start_server-starts http h =
      let (routed, _, r1) = >>_lem h in
      let (ip, _, r2) = >>=_lem r1 in
      let (server, found, r3) = >>=_lem r2 in
      let (certified, _, r4) = >>_lem r3 in (ip, ground (arith, r4, indexed-some _ _ found))

-- The group of a rep that has started with the configuration `c`.
pub record IsStarted {l : Libraries} (s : Startup l) (c : RepConfig l) (host port : String)
    (started : Started l) : Type 0 where
  pub config : started.config ≡ c
  pub valid : s.validate c.executor_config ≡ true
  pub named : (c.cell_id == "") ≡ false
  pub generator : started.evacuation_ttl ≡ s.whole_seconds c.evacuation_timeout
  pub executor : List String
  pub garden_root_fs : String
  pub executor_made : s.initialize_executor c.executor_config garden_root_fs ≡ ok executor
  pub names :
      map (λ (m : Member). m.name) started.members
      ≡ debug_names c.debug_address ++ (executor ++ rep_names)
  pub presence : Presence
  pub https : HttpServer
  pub presence_runs : Memᴰ (member "presence" (presence_runner presence)) started.members
  pub https_runs : Memᴰ (member "https_server" (http_server https)) started.members
  pub ip : String
  pub agrees : Agree c ip host port https.server
  pub url : presence_url c true ≡ some (url_of presence)

executor_names :
    (executor : List String) (members : List Member)
    → map (λ (m : Member). m.name) (map executor_member executor ++ members)
      ≡ executor ++ map (λ (m : Member). m.name) members
executor_names [] members = refl
executor_names (name ∷ more) members = ap (λ x. name ∷ x) (executor_names more members)

module _ {l : Libraries} (s : Startup l) (c : RepConfig l) where
  debug_server-names :
      (members : List Member)
      → map (λ (m : Member). m.name) (with_debug_server c members)
        ≡ debug_names c.debug_address ++ map (λ (m : Member). m.name) members
  unfolding with_debug_server
  debug_server-names members = elim (Bool-cases (c.debug_address == "")) [
    | inl off ↦ rw off refl
    | inr on ↦ rw on refl
  ]

  debug_server-Memᴰ :
      (m : Member) (members : List Member) → Memᴰ m members → Memᴰ m (with_debug_server c members)
  unfolding with_debug_server
  debug_server-Memᴰ m members h = elim (Bool-cases (c.debug_address == "")) [
    | inl off ↦ rw off h
    | inr on ↦ rw on (Memᴰ.tail h)
  ]

  group-IsStarted :
      (emitter : Emitter) (executor : List String) (consul : ConsulClient) (bbs : BbsClient)
      (http https : HttpServer) (registration : Registration) (presence : Presence)
      (garden_root_fs host port : String)
      → Listens c.listen_addr_securable host port
      → s.initialize_executor c.executor_config garden_root_fs ≡ ok executor
      → s.validate c.executor_config ≡ true
      → (c.cell_id == "") ≡ false
      → start_server s c true ≡ ok https
      → presence_url c true ≡ some (url_of presence)
      → IsStarted s c host port (record {
        config = c;
        emitter = emitter;
        consul = consul;
        bbs = bbs;
        evacuation_ttl = s.whole_seconds c.evacuation_timeout;
        members =
            with_debug_server c
              (map executor_member executor ++ rep_members c presence http https registration);
      })
  unfolding rep_members
  group-IsStarted emitter executor consul bbs http https registration presence garden_root_fs host
        port listens made valid named starts tells =
      let (ip, served) = start_server-starts s c https starts in
      let runs = rep_members c presence http https registration in
      record {
        config = refl;
        valid = valid;
        named = named;
        generator = refl;
        executor = executor;
        garden_root_fs = garden_root_fs;
        executor_made = made;
        names =
            debug_server-names (map executor_member executor ++ runs)
            ∙ ap (λ x. debug_names c.debug_address ++ x) (executor_names executor runs);
        presence = presence;
        https = https;
        presence_runs =
            debug_server-Memᴰ _ _
              (Memᴰ.append_right (map executor_member executor) (Memᴰ.head refl));
        https_runs = debug_server-Memᴰ _ _ (
            Memᴰ.append_right (map executor_member executor)
              (Memᴰ.tail (Memᴰ.tail (Memᴰ.head refl))));
        ip = ip;
        agrees = initialize_server-Agree c ip host port https.server listens served;
        url = tells;
      }

  start-IsStarted :
      (host port : String) (started : Started l)
      → Listens c.listen_addr_securable host port
      → start s c ≡ ok started
      → IsStarted s c host port started
  unfolding start
  start-IsStarted host port started listens h =
      let (u, valid, r1) = >>_lem h in
      let (v, named, r2) = >>_lem r1 in
      let (emitter, _, r3) = >>=_lem r2 in
      let (executor, initialized, r4) = >>=_lem r3 in
      let (consul, _, r5) = >>=_lem r4 in
      let (bbs, _, r6) = >>=_lem r5 in
      let (http, _, r7) = >>=_lem r6 in
      let (https, starts, r8) = >>=_lem r7 in
      let (split, _, r9) = >>=_lem r8 in
      let (port_num, _, r10) = >>=_lem r9 in
      let (presence, made, done) = >>=_lem r10 in
      subst (IsStarted s c host port) (ok-injective _ started done) (
        group-IsStarted emitter executor consul bbs http https
          (initialize_registration_runner c port_num) presence _ host port listens
          (or_exit-ok "failed-to-initialize-executor" _ executor initialized)
          (ground (arith, valid)) (ground (arith, named)) starts
          (initialize_cell_presence-url s c http.server.address _ presence made))

override_zone-listens :
    {l : Libraries} (zone : String) (c : RepConfig l)
    → (override_zone zone c).listen_addr_securable ≡ c.listen_addr_securable
unfolding override_zone
override_zone-listens zone c = elim (Bool-cases (zone == "")) [
  | inl none_given ↦ rw none_given refl
  | inr given ↦ rw given refl
]

-- If main reaches the point where it invokes its members, and the listen address of the secure server in the
-- configuration that was read is a host and a port without colons, then the configuration was read, its
-- zone replaced by the one of the command line if that is not empty, and found valid and with a cell id;
-- the members start in the order debug server (if it has an address), those that the executor's
-- initialization answered, presence, the two servers, cleanup, bulker, event consumer, evacuator and
-- registration; and the URL that the presence tells names the port of the address at which the secure server
-- listens, with the scheme https exactly if this server uses TLS.
pub main-IsStarted :
    {l : Libraries} (s : Startup l) (path zone host port : String) (started : Started l)
    → ((read : RepConfig l)
        → new_rep_config l s.open_file s.decode path ≡ ok read
        → Listens read.listen_addr_securable host port)
    → main s path zone ≡ ok started
    → (read : RepConfig l) × (new_rep_config l s.open_file s.decode path ≡ ok read)
      × IsStarted s (override_zone zone read) host port started
unfolding main
main-IsStarted {l} s path zone host port started listens h =
    let (read, found, starts) = >>=_lem h in
    let is_read = or_panic-ok _ read found in
    (
      read,
      is_read,
      start-IsStarted s (override_zone zone read) host port started
          (rw (override_zone-listens zone read) (listens read is_read)) starts,
    )
