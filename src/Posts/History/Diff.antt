-- ===== src/Posts/History/Diff.antt =====
-- diff_versions (apps/blog/utils.py). `opcodes` is get_opcodes of difflib's SequenceMatcher,
-- `splitlines` Python's, `size` the length in UTF-8.
pub mod Sides
use fastapi_base.Prelude.{
  ℕ, ◌+◌, ◌-◌, zero, suc, ltb, Bool, true, false, not, Option, none, some, List, [], ◌∷◌, ◌++◌,
  Text, Result, ok, err, same_text, if◌then◌else◌, take, drop,
}
use fastapi_base.Posts.Model.{Error, version_diff_too_large}

pub data Tag : Type 0 where
  equal delete insert replace : Tag

-- (tag, i1, i2, j1, j2): the lines i1..i2 of one side against j1..j2 of the other
pub record Opcode : Type 0 where
  pub tag : Tag
  pub i1 : ℕ
  pub i2 : ℕ
  pub j1 : ℕ
  pub j2 : ℕ

pub data Op : Type 0 where
  context removed added : Op

pub record CompareVersionsHunk : Type 0 where
  pub op : Op
  pub line : Text
  pub from_line_no : Option ℕ
  pub to_line_no : Option ℕ

pub record CompareVersionsResult : Type 0 where
  pub from_version : ℕ
  pub to_version : ℕ
  pub title_changed : Bool
  pub from_title : Text
  pub to_title : Text
  pub hunks : List CompareVersionsHunk

-- `lines[start:stop]`
abbrev pub slice : ℕ → ℕ → List Text → List Text
slice start stop lines = take (stop - start) (drop start lines)

-- `i` and `j` count the lines before the first one
unfoldable pub context_hunks : ℕ → ℕ → List Text → List CompareVersionsHunk
context_hunks i j [] = []
context_hunks i j (line ∷ lines) =
    record { op = context; line = line; from_line_no = some (suc i); to_line_no = some (suc j) }
    ∷ context_hunks (suc i) (suc j) lines

unfoldable pub removed_hunks : ℕ → List Text → List CompareVersionsHunk
removed_hunks i [] = []
removed_hunks i (line ∷ lines) =
    record { op = removed; line = line; from_line_no = some (suc i); to_line_no = none }
    ∷ removed_hunks (suc i) lines

unfoldable pub added_hunks : ℕ → List Text → List CompareVersionsHunk
added_hunks j [] = []
added_hunks j (line ∷ lines) =
    record { op = added; line = line; from_line_no = none; to_line_no = some (suc j) }
    ∷ added_hunks (suc j) lines

-- the hunks of one opcode
unfoldable pub opcode_hunks : Tag → Opcode → List Text → List Text → List CompareVersionsHunk
opcode_hunks equal c from_lines to_lines = context_hunks c.i1 c.j1 (slice c.i1 c.i2 from_lines)
opcode_hunks delete c from_lines to_lines = removed_hunks c.i1 (slice c.i1 c.i2 from_lines)
opcode_hunks insert c from_lines to_lines = added_hunks c.j1 (slice c.j1 c.j2 to_lines)
opcode_hunks replace c from_lines to_lines =
    removed_hunks c.i1 (slice c.i1 c.i2 from_lines) ++ added_hunks c.j1 (slice c.j1 c.j2 to_lines)

unfoldable pub build_diff_hunks : List Opcode → List Text → List Text → List CompareVersionsHunk
build_diff_hunks [] from_lines to_lines = []
build_diff_hunks (c ∷ cs) from_lines to_lines =
    opcode_hunks c.tag c from_lines to_lines ++ build_diff_hunks cs from_lines to_lines

unfoldable pub diff_versions :
    (List Text → List Text → List Opcode)
    → (Text → List Text)
    → (Text → ℕ)
    → ℕ
    → ℕ
    → Text
    → Text
    → ℕ
    → Text
    → Text
    → Result Error CompareVersionsResult
diff_versions opcodes splitlines size max_bytes from_version from_title from_text to_version
      to_title to_text =
    let from_lines = splitlines from_text in
    let to_lines = splitlines to_text in
    if ltb max_bytes (size from_text + size to_text)
    then err version_diff_too_large
    else ok (record {
      from_version = from_version;
      to_version = to_version;
      title_changed = not (same_text from_title to_title);
      from_title = from_title;
      to_title = to_title;
      hunks = build_diff_hunks (opcodes from_lines to_lines) from_lines to_lines;
    })
