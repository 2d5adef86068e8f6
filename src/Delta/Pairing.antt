-- ===== src/Delta/Pairing.antt =====
-- crates/openinvar-core/src/delta.rs: whether a removed and an added symbol are the same one. The `char`
-- tables of the standard library are a parameter: `is_alphanumeric` of a code point.
use open_invar.Prelude.{
  ℕ, ◌+◌, Bool, true, false, not, ◌&&◌, ◌||◌, ◌==◌, leb, if◌then◌else◌, Option, none, some, List,
  [], ◌∷◌, Text, bytes, chars, trim, replace, eqb, nat_ord, list_ord,
}
use open_invar.Ir.{Symbol, symbol_kind_ord, language_ord}
use open_invar.Delta.{Continuation, renamed, moved, renamed_and_moved}

-- An absent or an empty signature is no evidence.
unfoldable pub usable_signature : Symbol → Option Text
unfolding trim
usable_signature symbol = elim symbol.signature [
  | none ↦ none
  | some s ↦ elim (trim s) [ [] ↦ none | c ∷ t ↦ some (c ∷ t) ]
]

-- A name that is empty renames nothing.
unfoldable pub renames_text : Text → Text → Text → Text → Bool
unfolding replace
renames_text [] after_name before_sig after_sig = false
renames_text (c ∷ name) after_name before_sig after_sig =
    eqb (replace before_sig (c ∷ name) after_name) after_sig

unfoldable pub renames_to : Symbol → Symbol → Bool
unfolding usable_signature renames_text
renames_to before after = elim (usable_signature before) [
  | none ↦ false
  | some before_sig ↦ elim (usable_signature after) [
    | none ↦ false
    | some after_sig ↦ renames_text before.name after.name before_sig after_sig
  ]
]

module _ (is_alphanumeric : ℕ → Bool) where
  -- The loop over the characters, with the number of words begun so far and the last test.
  unfoldable pub count_words : ℕ → Bool → List ℕ → ℕ
  count_words count inside [] = count
  count_words count inside (c ∷ cs) =
      let is_word = is_alphanumeric c || c == 95 in
      count_words (if is_word && not inside then count + 1 else count) is_word cs

  unfoldable pub word_count : Text → ℕ
  unfolding count_words chars
  word_count text = count_words 0 false (chars text)

  unfoldable pub signature_identifies : Symbol → Text → Bool
  unfolding word_count replace
  signature_identifies symbol signature =
      leb 2 (word_count (replace signature symbol.name (bytes " ")))

  unfoldable pub renames_with_evidence : Symbol → Symbol → Bool
  unfolding renames_to usable_signature signature_identifies
  renames_with_evidence before after =
      let identified : Bool = elim (usable_signature before) [
        | none ↦ false
        | some before_sig ↦ elim (usable_signature after) [
          | none ↦ false
          | some after_sig ↦
              signature_identifies before before_sig && signature_identifies after after_sig
        ]
      ] in
      if renames_to before after then identified else false

  abbrev then_some : Bool → Continuation → Option Continuation
  then_some b how = if b then some how else none

  unfoldable pub continuation_between : Symbol → Symbol → Option Continuation
  unfolding renames_with_evidence
  continuation_between before after =
      let evidence = renames_with_evidence before after in
      if not (eqb before.kind after.kind) || not (eqb before.language after.language)
      then none
      else if eqb before.name after.name
      then (if eqb before.file after.file then none else some moved)
      else then_some evidence (if eqb before.file after.file then renamed else renamed_and_moved)

-- Lower is better.
unfoldable pub pairing_rank : Continuation → Bool → ℕ
pairing_rank renamed true = 0
pairing_rank moved true = 1
pairing_rank renamed_and_moved true = 2
pairing_rank renamed false = 3
pairing_rank moved false = 4
pairing_rank renamed_and_moved false = 5
