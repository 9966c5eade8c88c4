-- ===== src/Command/StackMaps.antt =====
-- The texts of a StackMap, and what is read back from them.
use Prim.Native.Char.{Char}
use Prim.Native.String.{String, [], ◌∷◌, ◌++◌}
use Prim.Native.String.append
use mathlib.Core.List.{List, [] as []ᴸ, ◌∷◌ as ◌∷ᴸ◌, ◌++◌ as ◌++ᴸ◌, append-nil, append_assoc}
use text.Mathlib.Text.{◌==◌}
use text.Mathlib.TextEquality.{eq_iff}
use rep.Base.{
  Bool, true, false, not, ◌&&◌, Option, none, some, ◌≡◌, refl, sym, ap, subst, ◌∙◌, inl, inr, arith,
}
use rep.Base.Tests.{Bool-cases}
use rep.Base.GoMap.{put, lookup, lookup-put}
use rep.Base.Maps.{put-fresh, Fresh, Fresh-nil, Fresh-put}
use rep.Base.Result.{Result, ok, Result-cases}
use rep.Command.StackMap.{
  StackMap, is_colon, before, split_colon, entry_parts, add_entries, unmarshal_stack_map, entry,
  entries_of, marshal_stack_map,
}

-- A text without a colon.
unfoldable pub colonless : String → Bool
colonless [] = true
colonless (c ∷ s) = not (is_colon c) && colonless s

pub after_colon : (path : String) → ":" ++ path ≡ ":" ∷ path
after_colon path = append.cons ":" "" path ∙ ap (λ t. ":" ∷ t) (append.nil path)

split_colon-entry :
    (stack path : String)
    → colonless stack ≡ true
    → split_colon (stack ++ (":" ++ path)) ≡ some (stack, path)
unfolding split_colon colonless
split_colon-entry [] path h = rw (append.nil (":" ++ path), after_colon path) refl
split_colon-entry (c ∷ s) path h =
    rw (append.cons c s (":" ++ path)) (ground (arith, split_colon-entry s path (ground arith)))

-- The parts of a text that `before` gives.
before-some :
    (c : Char) (rest : Option (String × String)) (stack path : String)
    → before c rest ≡ some (stack, path)
    → (s : String) × (rest ≡ some (s, path)) × (c ∷ s ≡ stack)
before-some c none stack path h = cc
before-some c (some (s, p)) stack path h = (s, ground arith, ground arith)

split_colon-colonless :
    (s stack path : String) → split_colon s ≡ some (stack, path) → colonless stack ≡ true
unfolding split_colon colonless
split_colon-colonless [] stack path h = cc
split_colon-colonless (c ∷ s) stack path h = elim (Bool-cases (is_colon c)) [
  | inl colon ↦
      let same : [] ≡ stack = ground (arith, colon, h) in subst (λ x. colonless x ≡ true) same refl
  | inr other ↦
      let (t, found, same) = before-some c (split_colon s) stack path (rw other at h) in
      subst (λ x. colonless x ≡ true) same
        (ground (arith, other, split_colon-colonless s t path found))
]

-- A map that UnmarshalJSON can make: each stack once, none blank or with a colon, and no blank path.
abbrev pub IsRead : StackMap → Type 0
IsRead []ᴸ = Unit
IsRead ((stack, path) ∷ᴸ more) =
    (lookup stack more ≡ none)
    × (colonless stack ≡ true)
    × ((stack == "") ≡ false)
    × ((path == "") ≡ false)
    × IsRead more

entry_parts-entry :
    (stack path : String)
    → colonless stack ≡ true
    → (stack == "") ≡ false
    → (path == "") ≡ false
    → entry_parts (split_colon (entry stack path)) ≡ ok (stack, path)
unfolding entry entry_parts
entry_parts-entry stack path colon blank_stack blank_path =
    rw (split_colon-entry stack path colon) (rw blank_stack (rw blank_path refl))

add_entries-entries_of :
    (m n : StackMap) → IsRead n → Fresh m n → add_entries m (entries_of n) ≡ ok (m ++ᴸ n)
unfolding add_entries entries_of
add_entries-entries_of m []ᴸ read fresh = ap ok (sym (append-nil m))
add_entries-entries_of m ((stack, path) ∷ᴸ more) read fresh =
    let (new, colon, blank_stack, blank_path, rest) = read in
    rw (entry_parts-entry stack path colon blank_stack blank_path) (
      add_entries-entries_of (put stack path m) more rest (Fresh-put stack path m more new fresh.1)
      ∙ ap ok (
          ap (λ x. x ++ᴸ more) (put-fresh stack path m fresh.0)
          ∙ append_assoc m ((stack, path) ∷ᴸ []ᴸ) more))

IsRead-put :
    (stack path : String) (m : StackMap)
    → colonless stack ≡ true
    → (stack == "") ≡ false
    → (path == "") ≡ false
    → IsRead m
    → IsRead (put stack path m)
unfolding put lookup
IsRead-put stack path []ᴸ colon blank_stack blank_path read =
    (refl, colon, blank_stack, blank_path, tt)
IsRead-put stack path ((k, v) ∷ᴸ m) colon blank_stack blank_path
      (new, colon_k, blank_k, blank_v, rest) =
    elim (Bool-cases (k == stack)) [
      | inl same ↦ rw same (new, colon_k, blank_k, blank_path, rest)
      | inr apart ↦ rw apart (
        ground (arith, lookup-put stack k path m, eq_iff stack k, eq_iff k stack),
        colon_k,
        blank_k,
        blank_v,
        IsRead-put stack path m colon blank_stack blank_path rest,
      )
    ]

entry_parts-IsRead :
    (parts : Option (String × String)) (stack path : String)
    → entry_parts parts ≡ ok (stack, path)
    → (parts ≡ some (stack, path)) × ((stack == "") ≡ false) × ((path == "") ≡ false)
unfolding entry_parts
entry_parts-IsRead none stack path h = cc
entry_parts-IsRead (some (s, p)) stack path h = elim (Bool-cases (s == "")) [
  | inl blank ↦ absurd (ground (arith, blank, h))
  | inr stack_there ↦ elim (Bool-cases (p == "")) [
    | inl blank ↦ absurd (ground (arith, stack_there, blank, h))
    | inr path_there ↦
        let same_stack : s ≡ stack = ground (arith, stack_there, path_there, h) in
        let same_path : p ≡ path = ground (arith, stack_there, path_there, h) in
        (
          cc,
          subst (λ x. (x == "") ≡ false) same_stack stack_there,
          subst (λ x. (x == "") ≡ false) same_path path_there,
        )
  ]
]

add_entries-IsRead :
    (m n : StackMap) (entries : List String) → IsRead m → add_entries m entries ≡ ok n → IsRead n
unfolding add_entries
add_entries-IsRead m n []ᴸ read h = subst IsRead (ground arith) read
add_entries-IsRead m n (s ∷ᴸ more) read h = elim (Result-cases (entry_parts (split_colon s))) [
  | inl ((stack, path), parts) ↦
      let (split, blank_stack, blank_path) = entry_parts-IsRead (split_colon s) stack path parts in
      add_entries-IsRead (put stack path m) n more
        (IsRead-put stack path m (split_colon-colonless s stack path split) blank_stack blank_path
          read)
        (rw parts at h)
  | inr (e, fails) ↦ absurd (ground (arith, rw fails at h))
]

module _ (unmarshal : String → Result String (List String))
    (marshal : List String → Result String String) where
  -- Where encoding/json decodes what it encodes: a stack map that was read from some JSON, and then
  -- written, is read back the same.
  pub unmarshal-marshal :
      (payload : String) (m : StackMap) (written : String)
      → ((entries : List String) (text : String)
          → marshal entries ≡ ok text
          → unmarshal text ≡ ok entries)
      → unmarshal_stack_map unmarshal payload ≡ ok m
      → marshal_stack_map marshal m ≡ ok written
      → unmarshal_stack_map unmarshal written ≡ ok m
  unfolding unmarshal_stack_map marshal_stack_map
  unmarshal-marshal payload m written json read h = elim (Result-cases (unmarshal payload)) [
    | inl (entries, decoded) ↦
        let is_read = add_entries-IsRead []ᴸ m entries tt (ground (arith, decoded, read)) in
        ground (
          arith,
          json (entries_of m) written h,
          add_entries-entries_of []ᴸ m is_read (Fresh-nil String m),
        )
    | inr (e, fails) ↦ absurd (ground (arith, fails, read))
  ]
