-- ===== src/AuctionRep/Guid.antt =====
-- auctioncellrep/helpers.go: the guid of an LRP instance, a UUID cut to 28 characters. The UUID library is
-- a parameter; its text has one byte per character.
use Prim.Native.String.{String, [], ◌∷◌, ◌++◌}
use Prim.Native.String.append
use rep.Base.{ℕ, zero, suc, ◌≤◌, ◌≡◌, refl, ap, ◌∙◌, inl, inr, arith}
use rep.Base.Tests.{if◌then◌else◌, ltb, Bool-cases}
use rep.Base.Result.{Result, ok, err}

-- len(s)
unfoldable pub len : String → ℕ
len [] = 0
len (c ∷ s) = suc (len s)

-- s[:n], where s is long enough
unfoldable pub prefix : ℕ → String → String
prefix zero s = []
prefix (suc n) [] = []
prefix (suc n) (c ∷ s) = c ∷ prefix n s

abbrev pub max_guid_length : ℕ
max_guid_length = 28

unfoldable pub cut_guid : String → String
unfolding len prefix
cut_guid guid = if ltb max_guid_length (len guid) then prefix max_guid_length guid else guid

-- GenerateGuid, of what uuid.NewV4 returns.
unfoldable pub generate_guid : {E : Type 0} → Result E String → Result E String
unfolding cut_guid
generate_guid (err e) = err e
generate_guid (ok guid) = ok (cut_guid guid)

len-prefix : (n : ℕ) (s : String) → n ≤ len s → len (prefix n s) ≡ n
unfolding len prefix
len-prefix zero s h = refl
len-prefix (suc n) [] h = ground (arith, h)
len-prefix (suc n) (c ∷ s) h = ap suc (len-prefix n s (ground (arith, h)))

prefix_rest : (n : ℕ) (s : String) → (rest : String) × (prefix n s ++ rest ≡ s)
unfolding prefix
prefix_rest zero s = (s, append.nil s)
prefix_rest (suc n) [] = ("", append.nil "")
prefix_rest (suc n) (c ∷ s) =
    let (rest, e) = prefix_rest n s in (rest, append.cons c (prefix n s) rest ∙ ap (λ t. c ∷ t) e)

-- A guid that is generated is the UUID itself if that has at most 28 characters, and else its first 28.
pub cut_guid_lem :
    (guid : String)
    → (len (cut_guid guid) ≤ max_guid_length)
      × (len guid ≤ max_guid_length → cut_guid guid ≡ guid)
      × ((rest : String) × (cut_guid guid ++ rest ≡ guid))
unfolding cut_guid
cut_guid_lem guid = elim (Bool-cases (ltb max_guid_length (len guid))) [
  | inl long ↦ rw long (
    ground (arith, len-prefix max_guid_length guid),
    λ short. ground (arith, long),
    prefix_rest max_guid_length guid,
  )
  | inr short ↦ rw short (ground (arith, short), λ h. refl, ("", append_nil guid))
]
  where
    append_nil : (s : String) → s ++ "" ≡ s
    append_nil [] = append.nil ""
    append_nil (c ∷ s) = append.cons c s "" ∙ ap (λ t. c ∷ t) (append_nil s)
