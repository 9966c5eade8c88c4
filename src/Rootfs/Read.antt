-- ===== src/Rootfs/Read.antt =====
-- What is read of providers that were written, and of providers of a type that is not known.
use mathlib.Core.List.{append_assoc, append-nil}
use rep.Base.{
  String, ◌==◌, eq_iff, [], ◌∷◌, ◌++◌, Option, none, some, ◌≡◌, ◌≢◌, refl, sym, ap, ◌∙◌, subst, ◌↔◌,
  inl, inr, arith,
}
use rep.Base.Tests.{Bool-cases}
use rep.Base.GoMap.{GoMap, put, lookup}
use rep.Base.Maps.{Unique, put-fresh, Fresh, Fresh-nil, Fresh-put}
use rep.Base.Sets.{StringSet}
use rep.Base.Result.{ok-injective, and_then-ok, ok}
use rep.Rootfs.{
  RootFsProvider, arbitrary_provider, fixed_set_provider, provider_type, RootFsProviders,
  providers_match, Url,
}
use rep.Rootfs.Json.{
  Codec, marshal_provider, marshal_each, marshal_providers, unmarshal_fixed_set, provider_of_type,
  unmarshal_provider, add_providers, unmarshal_providers, match_read,
}

-- encoding/json reads what it has written: maps, and the fields of the two kinds of object that a
-- provider is written as.
pub record Reads {Raw : Type 0} (codec : Codec Raw) : Type 0 where
  pub map_read :
      (m : GoMap Raw) (raw : Raw) → codec.marshal_map m ≡ ok raw → codec.unmarshal_map raw ≡ ok m
  pub text_read :
      (t : String) (raw : Raw)
      → codec.marshal_texts (("type", t) ∷ []) ≡ ok raw
      → codec.unmarshal_type raw ≡ ok t
  pub type_read :
      (t : String) (a b raw : Raw)
      → codec.marshal_type t ≡ ok a
      → codec.marshal_map (("type", a) ∷ ("set", b) ∷ []) ≡ ok raw
      → codec.unmarshal_type raw ≡ ok t
  pub set_read :
      (set : StringSet) (a b raw : Raw)
      → codec.marshal_set set ≡ ok b
      → codec.marshal_map (("type", a) ∷ ("set", b) ∷ []) ≡ ok raw
      → codec.unmarshal_set raw ≡ ok set

-- The providers, none of which is nil.
abbrev pub present : RootFsProviders → GoMap (Option RootFsProvider)
present [] = []
present ((key, provider) ∷ more) = (key, some provider) ∷ present more

abbrev not_nil : Option RootFsProvider → Option (Option RootFsProvider)
not_nil none = none
not_nil (some provider) = some (some provider)

lookup-present :
    (key : String) (providers : RootFsProviders)
    → lookup key (present providers) ≡ not_nil (lookup key providers)
unfolding lookup
lookup-present key [] = refl
lookup-present key ((k, provider) ∷ more) = ground (arith, lookup-present key more)

match_read-present :
    (providers : RootFsProviders) (u : Url)
    → match_read (present providers) u ≡ some (providers_match providers u)
unfolding match_read providers_match
match_read-present providers u = ground (arith, lookup-present u.scheme providers)

module _ {Raw : Type 0} (codec : Codec Raw) where
  unmarshal-marshal_provider :
      (provider : RootFsProvider) (raw : Raw)
      → Reads codec
      → marshal_provider codec provider ≡ ok raw
      → unmarshal_provider codec raw ≡ ok (some provider)
  unfolding marshal_provider unmarshal_provider provider_of_type unmarshal_fixed_set provider_type
  unmarshal-marshal_provider arbitrary_provider raw reads h =
      rw (reads.text_read "arbitrary" raw h) refl
  unmarshal-marshal_provider (fixed_set_provider set) raw reads h =
      let (b, set_written, rest) = and_then-ok (codec.marshal_set set) _ raw h in
      let (a, type_written, written) = and_then-ok (codec.marshal_type "fixed_set") _ raw rest in
      rw (reads.type_read "fixed_set" a b raw type_written written)
        (rw (reads.set_read set a b raw set_written written) refl)

  add_providers-marshal_each :
      (m : GoMap (Option RootFsProvider)) (providers : RootFsProviders) (raws : GoMap Raw)
      → Reads codec
      → Unique providers
      → Fresh m providers
      → marshal_each codec providers ≡ ok raws
      → add_providers codec m raws ≡ ok (m ++ present providers)
  unfolding marshal_each add_providers
  add_providers-marshal_each m [] raws reads unique fresh h =
      subst (λ x. add_providers codec m x ≡ ok (m ++ [])) (ok-injective {E = String} [] raws h)
        (ap ok (sym (append-nil m)))
  add_providers-marshal_each m ((key, provider) ∷ more) raws reads unique fresh h =
      let (raw, written, rest) = and_then-ok (marshal_provider codec provider) _ raws h in
      let (others, others_written, made) = and_then-ok (marshal_each codec more) _ raws rest in
      subst (λ x. add_providers codec m x ≡ ok (m ++ present ((key, provider) ∷ more)))
        (ok-injective {E = String} ((key, raw) ∷ others) raws made)
        (rw (unmarshal-marshal_provider provider raw reads written) (
          add_providers-marshal_each (put key (some provider) m) more others reads unique.1
            (Fresh-put key (some provider) m more unique.0 fresh.1) others_written
          ∙ ap ok (
              ap (λ x. x ++ present more) (put-fresh key (some provider) m fresh.0)
              ∙ append_assoc m ((key, some provider) ∷ []) (present more))))

  -- Where encoding/json reads what it has written, the providers that UnmarshalJSON reads from the JSON of
  -- some providers are those providers, none of them nil, and they match every URL as those do.
  pub unmarshal-marshal_providers :
      (providers : RootFsProviders) (raw : Raw)
      → Reads codec
      → Unique providers
      → marshal_providers codec providers ≡ ok raw
      → (unmarshal_providers codec raw ≡ ok (present providers))
        × ((u : Url) → match_read (present providers) u ≡ some (providers_match providers u))
  unfolding marshal_providers unmarshal_providers
  unmarshal-marshal_providers providers raw reads unique h =
      let (raws, each, written) =
        and_then-ok (marshal_each codec providers) codec.marshal_map raw h in
      (
        rw (reads.map_read raws raw written) (
            add_providers-marshal_each [] providers raws reads unique
              (Fresh-nil (Option RootFsProvider) providers) each),
        match_read-present providers,
      )

  provider_of_type-nil :
      (raw : Raw) (t : String)
      → provider_of_type codec raw t ≡ ok none
      → (t ≢ "arbitrary") × (t ≢ "fixed_set")
  unfolding provider_of_type unmarshal_fixed_set
  provider_of_type-nil raw t nil = elim (Bool-cases (t == "arbitrary")) [
    | inl same ↦ absurd (ground (arith, rw same at nil))
    | inr not_arbitrary ↦ elim (Bool-cases (t == "fixed_set")) [
      | inl same ↦
          let (set, read, made) =
            and_then-ok (codec.unmarshal_set raw) _ none (rw (not_arbitrary, same) at nil) in
          absurd (ground arith)
      | inr not_fixed ↦ (
        ground (arith, eq_iff t "arbitrary", not_arbitrary),
        ground (arith, eq_iff t "fixed_set", not_fixed),
      )
    ]
  ]

  -- unmarshalRootFSProvider returns a nil provider, without an error, exactly if the type that it reads is
  -- neither "arbitrary" nor "fixed_set".
  pub unmarshal_provider-nil_iff :
      (raw : Raw)
      → (unmarshal_provider codec raw ≡ ok none)
        ↔ ((t : String) × (codec.unmarshal_type raw ≡ ok t) × (t ≢ "arbitrary") × (t ≢ "fixed_set"))
  unfolding unmarshal_provider provider_of_type unmarshal_fixed_set
  unmarshal_provider-nil_iff raw = (
    λ h.
        let (t, read, nil) =
          and_then-ok (codec.unmarshal_type raw) (provider_of_type codec raw) none h in
        let (not_arbitrary, not_fixed) = provider_of_type-nil raw t nil in
        (t, read, not_arbitrary, not_fixed),
    λ (t, read, not_arbitrary, not_fixed).
        rw read (ground (arith, eq_iff t "arbitrary", eq_iff t "fixed_set")),
  )
