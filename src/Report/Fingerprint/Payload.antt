-- ===== src/Report/Fingerprint/Payload.antt =====
-- What is hashed tells the parts apart (cryptiq/app/engine/fingerprints).
use Prim.Native.Char.{Char}
use Prim.Native.String.{◌++◌}
use text.Mathlib.TextLemmas.{nil-append, cons-append}
use cryptiq.Shared.{
  String, false, some, List, [], ◌∷◌, ◌≡◌, sym, ap, ◌∙◌, subst, arith, Bool-cases, inl, inr,
}
use cryptiq.Shared.Parts.{join, split}
use cryptiq.Shared.Parts.Split.{split_whole, split-append}
use cryptiq.Report.Fingerprint.{separator, any_separator, payload}

abbrev unit_separator : Char
unit_separator = "\u{1f}"

separator-cons : (t : String) → separator ++ t ≡ String.◌∷◌ unit_separator t
separator-cons t =
    cons-append unit_separator "" t ∙ ap (λ x. String.◌∷◌ unit_separator x) (nil-append t)

-- The parts come back from the text that joins them.
split-join :
    (part : String) (parts : List String)
    → any_separator (part ∷ parts) ≡ false
    → split 31 (join separator (part ∷ parts)) ≡ part ∷ parts
unfolding any_separator join
split-join part [] h = split_whole 31 part (ground arith)
split-join part (next ∷ rest) h =
    let later = join separator (next ∷ rest) in
    ap (λ t. split 31 (part ++ t)) (separator-cons later)
    ∙ split-append unit_separator part later
    ∙ rw (split_whole 31 part (ground arith))
        (ap (λ ps. part ∷ ps) (split-join next rest (ground arith)))

payload-split :
    (parts : List String) (text : String) → payload parts ≡ some text → split 31 text ≡ parts
unfolding payload
payload-split [] text h = cc
payload-split (part ∷ parts) text h = elim (Bool-cases (any_separator (part ∷ parts))) [
  | inl e ↦ absurd (ground (arith, e, h))
  | inr e ↦
      let whole : join separator (part ∷ parts) ≡ text = ground (arith, e, h) in
      subst (λ t. split 31 t ≡ part ∷ parts) whole (split-join part parts e)
]

-- Two findings have the same text to be hashed only if each of their labelled parts is the same: no
-- two different findings are told the same by the way in which their parts are put together.
pub payload-injective :
    (parts others : List String) (text : String)
    → payload parts ≡ some text
    → payload others ≡ some text
    → parts ≡ others
payload-injective parts others text h k =
    sym (payload-split parts text h) ∙ payload-split others text k
