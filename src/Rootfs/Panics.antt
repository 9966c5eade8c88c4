-- ===== src/Rootfs/Panics.antt =====
-- When Match panics on providers that were read from JSON.
use rep.Base.{
  String, ◌==◌, eq_iff, [], ◌∷◌, Option, none, some, ◌≡◌, ◌≢◌, refl, sym, ap, subst, ◌∙◌, ◌↔◌, inl,
  inr, arith,
}
use rep.Base.Tests.{Bool-cases, Option-cases}
use rep.Base.GoMap.{GoMap, put, lookup, lookup-put}
use rep.Base.Maps.{Unique}
use rep.Base.Result.{ok-injective, and_then-ok, ok}
use rep.Rootfs.{Url, RootFsProvider}
use rep.Rootfs.Json.{
  Codec, unmarshal_provider, add_providers, unmarshal_providers, match_found, match_read,
}
use rep.Rootfs.Read.{unmarshal_provider-nil_iff}

match_found-panics :
    (found : Option (Option RootFsProvider)) (u : Url)
    → (match_found found u ≡ none) ↔ (found ≡ some none)
match_found-panics none u = (λ h. cc, λ h. cc)
match_found-panics (some none) u = (λ h. refl, λ h. refl)
match_found-panics (some (some provider)) u = (λ h. cc, λ h. cc)

module _ {Raw : Type 0} (codec : Codec Raw) where
  -- The member under a key has a provider type that is not known.
  pub record IsUnknown (members : GoMap Raw) (key : String) : Type 0 where
    pub value : Raw
    pub there : lookup key members ≡ some value
    pub name : String
    pub read : codec.unmarshal_type value ≡ ok name
    pub not_arbitrary : name ≢ "arbitrary"
    pub not_fixed : name ≢ "fixed_set"

  -- What the loop holds under a key, by what it holds before.
  abbrev Held :
      Option (Option RootFsProvider) → Option Raw → Option (Option RootFsProvider) → Type 0
  Held before none after = after ≡ before
  Held before (some value) after =
      (provider : Option RootFsProvider) × (unmarshal_provider codec value ≡ ok provider)
      × (after ≡ some provider)

  add_providers-Held :
      (key : String) (before after : GoMap (Option RootFsProvider)) (members : GoMap Raw)
      → Unique members
      → add_providers codec before members ≡ ok after
      → Held (lookup key before) (lookup key members) (lookup key after)
  unfolding add_providers lookup
  add_providers-Held key before after [] unique h =
      subst (λ x. lookup key x ≡ lookup key before) (ok-injective {E = String} before after h) refl
  add_providers-Held key before after ((k, value) ∷ more) unique h =
      let (provider, made, rest) = and_then-ok (unmarshal_provider codec value) _ after h in
      let later = add_providers-Held key (put k provider before) after more unique.1 rest in
      elim (Bool-cases (k == key)) [
        | inl same ↦
            let last : lookup key more ≡ none = ground (arith, eq_iff k key, same, unique.0) in
            let kept : lookup key after ≡ lookup key (put k provider before) =
              subst (λ o. Held (lookup key (put k provider before)) o (lookup key after)) last
                later in
            let is_put : lookup key (put k provider before) ≡ some provider =
              ground (arith, lookup-put k key provider before, same) in
            rw same (provider, made, kept ∙ is_put)
        | inr apart ↦
            let unchanged : lookup key (put k provider before) ≡ lookup key before =
              ground (arith, lookup-put k key provider before, apart) in
            rw apart (subst (λ o. Held o (lookup key more) (lookup key after)) unchanged later)
      ]

  nil_member :
      (after : Option (Option RootFsProvider)) (members : GoMap Raw) (key : String)
      → after ≡ some none
      → Held (lookup {V = Option RootFsProvider} key []) (lookup key members) after
      → IsUnknown members key
  unfolding lookup
  nil_member after members key nil under = elim (Option-cases (lookup key members)) [
    | inl absent ↦ absurd (ground (nil, subst (λ o. Held none o after) absent under, arith))
    | inr (value, there) ↦
        let (provider, made, is) = subst (λ o. Held none o after) there under in
        let is_nil : provider ≡ none = ground (arith, is, nil) in
        let (name, read, not_arbitrary, not_fixed) =
          (unmarshal_provider-nil_iff codec value).0
            (subst (λ p. unmarshal_provider codec value ≡ ok p) is_nil made) in
        record {
          value = value;
          there = there;
          name = name;
          read = read;
          not_arbitrary = not_arbitrary;
          not_fixed = not_fixed;
        }
  ]

  member_nil :
      (after : Option (Option RootFsProvider)) (members : GoMap Raw) (key : String)
      → IsUnknown members key
      → Held (lookup {V = Option RootFsProvider} key []) (lookup key members) after
      → after ≡ some none
  unfolding lookup
  member_nil after members key unknown under =
      let (provider, made, is) = subst (λ o. Held none o after) unknown.there under in
      let nil =
        (unmarshal_provider-nil_iff codec unknown.value).1
          (unknown.name, unknown.read, unknown.not_arbitrary, unknown.not_fixed) in
      is ∙ ap some (ok-injective {E = String} provider none (sym made ∙ nil))

  -- Where every member of the JSON object has a name of its own: Match on the providers that UnmarshalJSON
  -- has read panics exactly if the member under the scheme of the URL has a provider type that is not known.
  pub match_read-panics_iff :
      (raw : Raw) (members : GoMap Raw) (providers : GoMap (Option RootFsProvider)) (u : Url)
      → codec.unmarshal_map raw ≡ ok members
      → Unique members
      → unmarshal_providers codec raw ≡ ok providers
      → (match_read providers u ≡ none) ↔ IsUnknown members u.scheme
  unfolding unmarshal_providers match_read
  match_read-panics_iff raw members providers u read unique h =
      let (listed, again, added) =
        and_then-ok (codec.unmarshal_map raw) (add_providers codec []) providers h in
      let same : members ≡ listed = ok-injective {E = String} members listed (sym read ∙ again) in
      let loop = subst (λ m. add_providers codec [] m ≡ ok providers) (sym same) added in
      let under = add_providers-Held u.scheme [] providers members unique loop in
      let panics = match_found-panics (lookup u.scheme providers) u in
      (
        λ h. nil_member (lookup u.scheme providers) members u.scheme (panics.0 h) under,
        λ unknown. panics.1 (member_nil (lookup u.scheme providers) members u.scheme unknown under),
      )
