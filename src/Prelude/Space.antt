-- ===== src/Prelude/Space.antt =====
-- White space, words and replacement in UTF-8 texts.
use Prim.Native.Nat.{ℕ, zero, suc, ◌+◌, ◌-◌, ◌*◌}
use mathlib.Core.Bool.{Bool, true, ◌&&◌, ◌||◌}
use mathlib.Core.Option.{Option, none, some}
use mathlib.Core.List.{List, [], ◌∷◌, ◌++◌}
use open_invar.Prelude.Tests.{if◌then◌else◌, ◌==◌, leb}
use open_invar.Prelude.Lists.{length}
use open_invar.Prelude.Bytes.{Text, starts_with, find, take, drop}

-- White space of one, two and three bytes.
unfoldable pub space_one : ℕ → Bool
space_one a = leb 9 a && leb a 13 || a == 32

unfoldable pub space_two : ℕ → ℕ → Bool
space_two a b = a == 194 && (b == 133 || b == 160)

unfoldable pub space_three : ℕ → ℕ → ℕ → Bool
space_three a b c =
    a == 225 && (b == 154 && c == 128)
    || (a == 226
          && (b == 128 && (leb 128 c && leb c 138 || (c == 168 || (c == 169 || c == 175)))
              || b == 129 && c == 159)
        || a == 227 && (b == 128 && c == 128))

-- How many bytes the white space at the start of a text takes, none if there is none.
unfoldable pub space_len : Text → ℕ
unfolding space_one space_two space_three
space_len [] = 0
space_len (a ∷ []) = if space_one a then 1 else 0
space_len (a ∷ b ∷ []) = if space_one a then 1 else if space_two a b then 2 else 0
space_len (a ∷ b ∷ c ∷ t) =
    if space_one a then 1 else if space_two a b then 2 else if space_three a b c then 3 else 0

-- `text.trim().is_empty()`
unfoldable pub is_blank : Text → Bool
unfolding space_one space_two space_three
is_blank [] = true
is_blank (a ∷ []) = space_one a
is_blank (a ∷ b ∷ []) = space_one a && space_one b || space_two a b
is_blank (a ∷ b ∷ c ∷ rest) =
    space_one a && is_blank (b ∷ c ∷ rest)
    || (space_two a b && is_blank (c ∷ rest) || space_three a b c && is_blank rest)

-- `text.trim_end()`: the first suffix that is blank goes.
unfoldable pub trim_end : Text → Text
unfolding is_blank
trim_end [] = []
trim_end (c ∷ t) = let rest = trim_end t in if is_blank (c ∷ t) then [] else c ∷ rest

-- `text.trim_start()`, after some bytes that are skipped.
unfoldable pub trim_from : ℕ → Text → Text
unfolding space_len
trim_from skip [] = []
trim_from (suc skip) (c ∷ t) = trim_from skip t
trim_from zero (c ∷ t) =
    let n = space_len (c ∷ t) in let rest = trim_from (n - 1) t in if n == 0 then c ∷ t else rest

-- `text.trim()`
unfoldable pub trim : Text → Text
unfolding trim_from trim_end
trim t = trim_end (trim_from 0 t)

-- The bytes before the first white space.
unfoldable pub until_space : Text → Text
unfolding space_len
until_space [] = []
until_space (c ∷ t) = let rest = until_space t in if space_len (c ∷ t) == 0 then c ∷ rest else []

-- `text.split_whitespace().next()`
unfoldable pub first_word : Text → Option Text
unfolding trim_from until_space
first_word t = elim (trim_from 0 t) [ [] ↦ none | c ∷ r ↦ some (until_space (c ∷ r)) ]

-- `text.split(separator).nth(1)`: what stands between the first separator and the next, or the end.
unfoldable pub second_piece : Text → Text → Option Text
unfolding find
second_piece text separator = elim (find text separator) [
  | none ↦ none
  | some i ↦
      let rest = drop (i + length separator) text in
      elim (find rest separator) [ none ↦ some rest | some j ↦ some (take j rest) ]
]

-- `text.trim_matches(…)` for bytes of ASCII.
unfoldable pub strip_front : (ℕ → Bool) → Text → Text
strip_front test [] = []
strip_front test (c ∷ t) = let rest = strip_front test t in if test c then rest else c ∷ t

unfoldable pub strip_back : (ℕ → Bool) → Text → Text
strip_back test [] = []
strip_back test (c ∷ t) =
    let rest = strip_back test t in
    elim rest [ [] ↦ if test c then [] else c ∷ [] | d ∷ r ↦ c ∷ d ∷ r ]

unfoldable pub trim_matches : (ℕ → Bool) → Text → Text
unfolding strip_front strip_back
trim_matches test t = strip_back test (strip_front test t)

-- `text.replace(pattern, new)` for a pattern that is not empty, after some bytes that are skipped.
unfoldable pub replace_from : Text → Text → ℕ → Text → Text
replace_from pattern new skip [] = []
replace_from pattern new (suc skip) (c ∷ t) = replace_from pattern new skip t
replace_from pattern new zero (c ∷ t) =
    let past = replace_from pattern new (length pattern - 1) t in
    let next = replace_from pattern new 0 t in
    if starts_with (c ∷ t) pattern then new ++ past else c ∷ next

-- The same for the empty pattern, which occurs at each boundary of a character and at the end.
unfoldable pub intersperse : Text → Text → Text
intersperse new [] = new
intersperse new (c ∷ t) =
    let rest = intersperse new t in if leb 128 c && leb c 191 then c ∷ rest else new ++ c ∷ rest

unfoldable pub replace : Text → Text → Text → Text
unfolding replace_from intersperse
replace text [] new = intersperse new text
replace text (p ∷ ps) new = replace_from (p ∷ ps) new 0 text

-- `text.chars()`: the code points.
unfoldable pub chars : Text → List ℕ
chars [] = []
chars (a ∷ []) = a ∷ []
chars (a ∷ b ∷ []) =
    let two = ((a - 192) * 64 + (b - 128)) ∷ [] in if leb a 127 then a ∷ b ∷ [] else two
chars (a ∷ b ∷ c ∷ []) =
    let one = a ∷ chars (b ∷ c ∷ []) in
    let two = ((a - 192) * 64 + (b - 128)) ∷ chars (c ∷ []) in
    let three = (((a - 224) * 64 + (b - 128)) * 64 + (c - 128)) ∷ [] in
    if leb a 127 then one else if leb a 223 then two else three
chars (a ∷ b ∷ c ∷ d ∷ t) =
    let one = a ∷ chars (b ∷ c ∷ d ∷ t) in
    let two = ((a - 192) * 64 + (b - 128)) ∷ chars (c ∷ d ∷ t) in
    let three = (((a - 224) * 64 + (b - 128)) * 64 + (c - 128)) ∷ chars (d ∷ t) in
    let four = ((((a - 240) * 64 + (b - 128)) * 64 + (c - 128)) * 64 + (d - 128)) ∷ chars t in
    if leb a 127 then one else if leb a 223 then two else if leb a 239 then three else four
