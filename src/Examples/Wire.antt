-- ===== src/Examples/Wire.antt =====
-- The theorems on the JSON forms of the providers, applied: a codec that keeps objects as lists of
-- members.
use rep.Base.{String, ◌==◌, [], ◌∷◌, none, some, ◌≡◌, refl, subst, ◌↔◌}
use rep.Base.Tests.{if◌then◌else◌}
use rep.Base.GoMap.{GoMap, lookup, put}
use rep.Base.Sets.{StringSet}
use rep.Base.Result.{ok-injective, Result, ok, err, and_then}
use rep.Rootfs.{Url, arbitrary_provider, fixed_set_provider, RootFsProviders, providers_match}
use rep.Rootfs.Panics.{IsUnknown, match_read-panics_iff}
use rep.Rootfs.Json.{
  add_providers, provider_of_type, Codec, marshal_provider, marshal_each, marshal_providers,
  unmarshal_provider, unmarshal_providers, match_read,
}
use rep.Rootfs.Read.{Reads, present, unmarshal-marshal_providers}

data Raw : Type 0 where
  no_members : Raw
  member : String → Raw → Raw → Raw
  text : String → Raw
  set_of : StringSet → Raw

abbrev object : GoMap Raw → Raw
object [] = no_members
object ((key, value) ∷ more) = member key value (object more)

abbrev text_object : GoMap String → Raw
text_object [] = no_members
text_object ((key, value) ∷ more) = member key (text value) (text_object more)

abbrev members : Raw → Result String (GoMap Raw)
members no_members = ok []
members (member key value more) = and_then (members more) (λ m. ok ((key, value) ∷ m))
members (text t) = err "text"
members (set_of s) = err "set"

abbrev read_text : Raw → Result String String
read_text (text t) = ok t
read_text no_members = err "no text"
read_text (member key value more) = err "no text"
read_text (set_of s) = err "no text"

abbrev read_set : Raw → Result String StringSet
read_set (set_of s) = ok s
read_set no_members = err "no set"
read_set (member key value more) = err "no set"
read_set (text t) = err "no set"

abbrev field : String → Raw → Raw
field name no_members = no_members
field name (member key value more) =
    let rest = field name more in if key == name then value else rest
field name (text t) = no_members
field name (set_of s) = no_members

abbrev codec : Codec Raw
codec = record {
  unmarshal_map = members;
  unmarshal_type = λ raw. read_text (field "type" raw);
  unmarshal_set = λ raw. read_set (field "set" raw);
  marshal_texts = λ m. ok (text_object m);
  marshal_set = λ s. ok (set_of s);
  marshal_type = λ t. ok (text t);
  marshal_map = λ m. ok (object m);
}

members-object : (m : GoMap Raw) → members (object m) ≡ ok m
members-object [] = refl
members-object ((key, value) ∷ more) = rw (members-object more) refl

of_ok :
    {A : Type 0} (f : Raw → Result String A) (a : A) (x y : Raw)
    → f x ≡ ok a
    → ◌≡◌ {A = Result String Raw} (ok x) (ok y)
    → f y ≡ ok a
of_ok f a x y read h = subst (λ r. f r ≡ ok a) (ok-injective {E = String} x y h) read

codec-Reads : Reads codec
codec-Reads = record {
  map_read = λ m raw h. of_ok members m (object m) raw (members-object m) h;
  text_read = λ t raw h.
      of_ok (λ r. read_text (field "type" r)) t (text_object (("type", t) ∷ [])) raw refl h;
  type_read = λ t a b raw ha h.
      of_ok (λ r. read_text (field "type" r)) t (object (("type", a) ∷ ("set", b) ∷ [])) raw
        (of_ok read_text t (text t) a refl ha) h;
  set_read = λ set a b raw hb h.
      of_ok (λ r. read_set (field "set" r)) set (object (("type", a) ∷ ("set", b) ∷ [])) raw
        (of_ok read_set set (set_of set) b refl hb) h;
}

abbrev providers : RootFsProviders
providers =
    ("docker", arbitrary_provider) ∷ ("preloaded", fixed_set_provider (("linux", tt) ∷ [])) ∷ []

abbrev written : Raw
written = object (
    ("docker", text_object (("type", "arbitrary") ∷ []))
    ∷ ("preloaded", object (("type", text "fixed_set") ∷ ("set", set_of (("linux", tt) ∷ [])) ∷ []))
    ∷ [])

providers_written : marshal_providers codec providers ≡ ok written
unfolding marshal_providers marshal_each marshal_provider
providers_written = refl

unmarshal-marshal_providers_example :
    (unmarshal_providers codec written ≡ ok (present providers))
    × ((u : Url) → match_read (present providers) u ≡ some (providers_match providers u))
unfolding lookup
unmarshal-marshal_providers_example =
    unmarshal-marshal_providers codec providers written codec-Reads (refl, (refl, tt))
      providers_written

-- Providers of which one has a type that is not known.
abbrev unknown_member : GoMap Raw
unknown_member = ("docker", text_object (("type", "oci") ∷ [])) ∷ []

abbrev docker : Url
docker = record { scheme = "docker"; path_opaque = ""; raw_query = "" }

unknown_read : unmarshal_providers codec (object unknown_member) ≡ ok (("docker", none) ∷ [])
unfolding unmarshal_providers add_providers unmarshal_provider provider_of_type put
unknown_read = refl

match_read-panics_iff_example :
    (match_read (("docker", none) ∷ []) docker ≡ none) ↔ IsUnknown codec unknown_member "docker"
unfolding lookup
match_read-panics_iff_example =
    match_read-panics_iff codec (object unknown_member) unknown_member (("docker", none) ∷ [])
      docker refl (refl, tt) unknown_read
