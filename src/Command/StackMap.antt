-- ===== src/Command/StackMap.antt =====
-- cmd/rep/config/config.go: StackMap, the preloaded rootfses, which is written as a list of texts
-- 'stack-name:path'. encoding/json turns the list into bytes and back, and is a parameter.
use Prim.Native.Char.{Char, code}
use Prim.Native.String.{String, [], ◌∷◌, ◌++◌}
use mathlib.Core.List.{List, [] as []ᴸ, ◌∷◌ as ◌∷ᴸ◌}
use text.Mathlib.Text.{◌==◌}
use rep.Base.{Bool, Option, none, some}
use rep.Base.Tests.{if◌then◌else◌, eqb}
use rep.Base.GoMap.{GoMap, put}
use rep.Base.Result.{Result, ok, err, and_then}

abbrev pub StackMap : Type 0
StackMap = GoMap String

pub data StackMapError : Type 0 where
  not_json : String → StackMapError
  not_of_the_form blank_stack blank_path : StackMapError

abbrev pub is_colon : Char → Bool
is_colon c = eqb (code c) b':'

-- A character before a text that was split, or that has no colon.
abbrev pub before : Char → Option (String × String) → Option (String × String)
before c none = none
before c (some (stack, path)) = some (c ∷ stack, path)

-- strings.SplitN(s, ":", 2); `none` if there are not two parts.
unfoldable pub split_colon : String → Option (String × String)
split_colon [] = none
split_colon (c ∷ s) = let rest = split_colon s in if is_colon c then some ([], s) else before c rest

-- The parts of an entry.
unfoldable pub entry_parts : Option (String × String) → Result StackMapError (String × String)
entry_parts none = err not_of_the_form
entry_parts (some (stack, path)) =
    if stack == "" then err blank_stack else if path == "" then err blank_path else ok (stack, path)

-- The loop of UnmarshalJSON.
unfoldable pub add_entries : StackMap → List String → Result StackMapError StackMap
unfolding entry_parts split_colon
add_entries m []ᴸ = ok m
add_entries m (s ∷ᴸ more) =
    and_then (entry_parts (split_colon s)) (λ parts. add_entries (put parts.0 parts.1 m) more)

-- UnmarshalJSON.
unfoldable pub unmarshal_stack_map :
    (String → Result String (List String)) → String → Result StackMapError StackMap
unfolding add_entries
unmarshal_stack_map unmarshal payload = elim (unmarshal payload) [
  | err e ↦ err (not_json e)
  | ok entries ↦ add_entries []ᴸ entries
]

-- fmt.Sprintf("%s:%s", k, v)
unfoldable pub entry : String → String → String
entry stack path = stack ++ ":" ++ path

unfoldable pub entries_of : StackMap → List String
unfolding entry
entries_of []ᴸ = []ᴸ
entries_of ((stack, path) ∷ᴸ more) = entry stack path ∷ᴸ entries_of more

-- MarshalJSON.
unfoldable pub marshal_stack_map :
    (List String → Result String String) → StackMap → Result String String
unfolding entries_of
marshal_stack_map marshal m = marshal (entries_of m)
