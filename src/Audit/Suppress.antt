-- ===== src/Audit/Suppress.antt =====
-- crates/openinvar-core/src/audit/mod.rs: `Suppressions`, the exceptions that a file lists by finding id.
use open_invar.Prelude.{
  ◌+◌, Bool, true, false, ◌==◌, ◌||◌, if◌then◌else◌, Option, none, some, List, [], ◌∷◌, ◌++◌, Map,
  Text, bytes, get, keys, tree_insert, find, take, drop, trim, starts_with, strip_suffix, unwrap_or,
  list_ord, nat_ord,
}

-- `text.lines()`, after a part of a line.
unfoldable pub lines_from : Text → Text → List Text
unfolding strip_suffix
lines_from [] [] = []
lines_from (d ∷ line) [] = (d ∷ line) ∷ []
lines_from line (c ∷ t) =
    let next = lines_from [] t in
    let longer = lines_from (line ++ c ∷ []) t in
    if c == 10 then unwrap_or (strip_suffix line (13 ∷ [])) line ∷ next else longer

abbrev pub Suppressions : Type 0
Suppressions = Map Text Text

abbrev pub is_nothing : Text → Bool
is_nothing [] = true
is_nothing (c ∷ t) = false

-- `line.split_once('#')`, both parts trimmed.
unfoldable pub split_reason : Text → Text × Text
unfolding find trim
split_reason line = elim (find line (bytes "#")) [
  | none ↦ (line, [])
  | some i ↦ (trim (take i line), trim (drop (i + 1) line))
]

-- The body of the loop over the lines.
unfoldable pub parse_line : Suppressions → Text → Suppressions
unfolding trim split_reason
parse_line entries raw =
    let line = trim raw in
    let entry = split_reason line in
    if is_nothing line || starts_with line (bytes "#")
    then entries
    else if is_nothing entry.0
    then entries
    else tree_insert entries entry.0 entry.1

unfoldable pub parse_lines : Suppressions → List Text → Suppressions
unfolding parse_line
parse_lines entries [] = entries
parse_lines entries (line ∷ rest) = parse_lines (parse_line entries line) rest

-- `Suppressions::parse`
unfoldable pub parse : Text → Suppressions
unfolding parse_lines lines_from
parse text = parse_lines [] (lines_from [] text)

-- `reason_for` and `reason_for_id`
unfoldable pub reason_for : Suppressions → Text → Option Text
reason_for entries id = get entries id

unfoldable pub ids : Suppressions → List Text
ids entries = keys entries
