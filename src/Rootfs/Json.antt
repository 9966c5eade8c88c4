-- ===== src/Rootfs/Json.antt =====
-- rootfs_providers.go: the JSON forms of the providers. encoding/json is a parameter: it turns texts,
-- sets and maps into raw messages and back.
use rep.Base.{String, ◌==◌, Bool, false, [], ◌∷◌, Option, none, some}
use rep.Base.Tests.{if◌then◌else◌}
use rep.Base.GoMap.{GoMap, put, lookup}
use rep.Base.Sets.{StringSet}
use rep.Base.Result.{Result, ok, and_then}
use rep.Rootfs.{
  Url, RootFsProviderType, arbitrary, fixed_set, RootFsProvider, arbitrary_provider,
  fixed_set_provider, provider_type, provider_match, RootFsProviders,
}

-- json.Marshal and json.Unmarshal at the types that the code gives them; an error is a text.
pub record Codec (Raw : Type 0) : Type 0 where
  -- map[string]json.RawMessage
  pub unmarshal_map : Raw → Result String (GoMap Raw)
  -- rootFSProviderEnvelope, by its Type
  pub unmarshal_type : Raw → Result String String
  -- the struct of FixedSetRootFSProvider.UnmarshalJSON, by its Set
  pub unmarshal_set : Raw → Result String StringSet
  -- map[string]string
  pub marshal_texts : GoMap String → Result String Raw
  -- StringSet
  pub marshal_set : StringSet → Result String Raw
  -- RootFSProviderType
  pub marshal_type : String → Result String Raw
  -- map[string]*json.RawMessage
  pub marshal_map : GoMap Raw → Result String Raw

abbrev pub type_name : RootFsProviderType → String
type_name arbitrary = "arbitrary"
type_name fixed_set = "fixed_set"

module _ {Raw : Type 0} (codec : Codec Raw) where
  -- ArbitraryRootFSProvider.MarshalJSON and FixedSetRootFSProvider.MarshalJSON.
  unfoldable pub marshal_provider : RootFsProvider → Result String Raw
  unfolding provider_type
  marshal_provider arbitrary_provider =
      codec.marshal_texts (("type", type_name (provider_type arbitrary_provider)) ∷ [])
  marshal_provider (fixed_set_provider set) = and_then (codec.marshal_set set) λ set_payload.
      and_then (codec.marshal_type (type_name (provider_type (fixed_set_provider set))))
        λ type_payload. codec.marshal_map (("type", type_payload) ∷ ("set", set_payload) ∷ [])

  -- json.Marshal of RootFSProviders, which is a map: each provider by its MarshalJSON, under its key.
  unfoldable pub marshal_each : RootFsProviders → Result String (GoMap Raw)
  unfolding marshal_provider
  marshal_each [] = ok []
  marshal_each ((key, provider) ∷ more) =
      and_then (marshal_provider provider)
        λ raw. and_then (marshal_each more) λ raws. ok ((key, raw) ∷ raws)

  unfoldable pub marshal_providers : RootFsProviders → Result String Raw
  unfolding marshal_each
  marshal_providers providers = and_then (marshal_each providers) codec.marshal_map

  -- FixedSetRootFSProvider.UnmarshalJSON, as unmarshalRootFSProvider uses it.
  unfoldable pub unmarshal_fixed_set : Raw → Result String (Option RootFsProvider)
  unmarshal_fixed_set payload =
      and_then (codec.unmarshal_set payload) λ set. ok (some (fixed_set_provider set))

  -- The switch of unmarshalRootFSProvider; `none` is a nil provider.
  unfoldable pub provider_of_type : Raw → String → Result String (Option RootFsProvider)
  unfolding unmarshal_fixed_set
  provider_of_type payload envelope_type =
      if envelope_type == type_name arbitrary
      then ok (some arbitrary_provider)
      else if envelope_type == type_name fixed_set
      then unmarshal_fixed_set payload
      else ok none

  -- unmarshalRootFSProvider.
  unfoldable pub unmarshal_provider : Raw → Result String (Option RootFsProvider)
  unfolding provider_of_type
  unmarshal_provider payload = and_then (codec.unmarshal_type payload) (provider_of_type payload)

  -- The loop of RootFSProviders.UnmarshalJSON.
  unfoldable pub add_providers :
      GoMap (Option RootFsProvider) → GoMap Raw → Result String (GoMap (Option RootFsProvider))
  unfolding unmarshal_provider
  add_providers providers [] = ok providers
  add_providers providers ((key, value) ∷ more) =
      and_then (unmarshal_provider value)
        λ provider. add_providers (put key provider providers) more

  -- RootFSProviders.UnmarshalJSON.
  unfoldable pub unmarshal_providers : Raw → Result String (GoMap (Option RootFsProvider))
  unfolding add_providers
  unmarshal_providers payload = and_then (codec.unmarshal_map payload) (add_providers [])

-- RootFSProviders.Match on providers that may be nil; `none` is the panic of a call on nil.
abbrev pub match_found : Option (Option RootFsProvider) → Url → Option Bool
match_found none root_fs = some false
match_found (some none) root_fs = none
match_found (some (some provider)) root_fs = some (provider_match provider root_fs)

unfoldable pub match_read : GoMap (Option RootFsProvider) → Url → Option Bool
match_read providers root_fs = match_found (lookup root_fs.scheme providers) root_fs
