-- ===== src/Cell/Identifier.antt =====
-- The identifiers of LRPs and tasks, and the text of the error of ResourceMatch (resources.go).
use Prim.Native.Char.{Char, code}
use Prim.Native.String.{String, [], ◌∷◌, ◌++◌}
use Prim.Native.String.append
use rep.Base.{Bool, true, false, not, ◌&&◌, ◌≡◌, refl, sym, ap, ◌∙◌, ◌↔◌, arith}
use rep.Base.Tests.{eqb}
use rep.Base.Int.{ℤ}
use rep.Cell.{Lrp, Task}

-- fmt.Sprintf("%s.%d", lrp.ProcessGuid, lrp.Index); `itoa` prints an integer.
unfoldable pub lrp_identifier : (ℤ → String) → Lrp → String
lrp_identifier itoa lrp = lrp.key.process_guid ++ ("." ++ itoa lrp.key.index)

unfoldable pub task_identifier : Task → String
task_identifier task = task.task_guid

abbrev pub is_dot : Char → Bool
is_dot c = eqb (code c) b'.'

-- A text without a dot.
unfoldable pub dotless : String → Bool
dotless [] = true
dotless (c ∷ s) = not (is_dot c) && dotless s

after_dot : (s : String) → "." ++ s ≡ "." ∷ s
after_dot s = append.cons "." "" s ∙ ap (λ t. "." ∷ t) (append.nil s)

dotless-dot : (s t : String) → dotless (s ++ ("." ++ t)) ≡ false
unfolding dotless
dotless-dot [] t = rw (append.nil ("." ++ t), after_dot t) refl
dotless-dot (c ∷ s) t = rw (append.cons c s ("." ++ t)) (ground (arith, dotless-dot s t))

alone : (s : String) → "" ++ ("." ++ s) ≡ "." ∷ s
alone s = append.nil ("." ++ s) ∙ after_dot s

cons-injective : (c d : Char) (s t : String) → ◌≡◌ {A = String} (c ∷ s) (d ∷ t) → (c ≡ d) × (s ≡ t)
cons-injective c d s t h = (ground arith, ground arith)

-- No text without a dot is another text, a dot and a text.
not_dotless : (d s t : String) → dotless d ≡ true → d ≡ s ++ ("." ++ t) → ⊥
not_dotless d s t no_dot same =
    absurd (ground (arith, sym no_dot ∙ ap dotless same ∙ dotless-dot s t))

-- Two texts that end in a dot and a text without one are the same only part by part.
last_part :
    (s t d e : String)
    → dotless d ≡ true
    → dotless e ≡ true
    → s ++ ("." ++ d) ≡ t ++ ("." ++ e)
    → (s ≡ t) × (d ≡ e)
last_part [] [] d e hd he h = (refl, (cons-injective "." "." d e (sym (alone d) ∙ h ∙ alone e)).1)
last_part [] (c ∷ t) d e hd he h = absurd (
    not_dotless d t e hd
      (cons-injective "." c d (t ++ ("." ++ e)) (sym (alone d) ∙ h ∙ append.cons c t ("." ++ e))).1)
last_part (c ∷ s) [] d e hd he h = absurd (
    not_dotless e s d he
      (cons-injective "." c e (s ++ ("." ++ d))
        (sym (alone e) ∙ sym h ∙ append.cons c s ("." ++ d))).1)
last_part (c ∷ s) (c' ∷ t) d e hd he h =
    let (same, rest) =
      cons-injective c c' (s ++ ("." ++ d)) (t ++ ("." ++ e))
        (sym (append.cons c s ("." ++ d)) ∙ h ∙ append.cons c' t ("." ++ e)) in
    let (guids, ends) = last_part s t d e hd he rest in (λ i. same i ∷ guids i, ends)

-- Where integers are printed without a dot, and two of them alike only if they are the same: two LRPs have
-- the same identifier exactly if they have the same process guid and the same index.
pub lrp_identifier_iff :
    (itoa : ℤ → String) (lrp other : Lrp)
    → ((z : ℤ) → dotless (itoa z) ≡ true)
    → ((y z : ℤ) → itoa y ≡ itoa z → y ≡ z)
    → (lrp_identifier itoa lrp ≡ lrp_identifier itoa other)
      ↔ ((lrp.key.process_guid ≡ other.key.process_guid) × (lrp.key.index ≡ other.key.index))
unfolding lrp_identifier
lrp_identifier_iff itoa lrp other no_dot injective = (
  λ h.
      let (guid, index) =
        last_part lrp.key.process_guid other.key.process_guid (itoa lrp.key.index)
          (itoa other.key.index) (no_dot lrp.key.index) (no_dot other.key.index) h in
      (guid, injective lrp.key.index other.key.index index),
  λ (guid, index). rw (guid, index) refl,
)
