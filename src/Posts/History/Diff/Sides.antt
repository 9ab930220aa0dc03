-- ===== src/Posts/History/Diff/Sides.antt =====
-- What the hunks of a diff show of its two sides.
use fastapi_base.Prelude.{
  ℕ, ◌+◌, ◌-◌, ◌≤◌, zero, suc, ◌≡◌, refl, sym, Bool, true, false, Option, some, List, [], ◌∷◌, ◌++◌,
  Text, Bool-cases, inl, inr, take, drop, length, arith, if◌then◌else◌,
}
use mathlib.Core.List.{append-nil}
use fastapi_base.Posts.History.Diff.{
  Tag, equal, delete, insert, replace, Opcode, Op, context, removed, added, CompareVersionsHunk,
  slice, context_hunks, removed_hunks, added_hunks, opcode_hunks, build_diff_hunks,
}

abbrev pub on_from : Op → Bool
on_from context = true
on_from removed = true
on_from added = false

abbrev pub on_to : Op → Bool
on_to context = true
on_to removed = false
on_to added = true

-- the hunks that show a line of one side, with the line's number there
abbrev pub from_side : List CompareVersionsHunk → List (Option ℕ × Text)
from_side [] = []
from_side (h ∷ hs) =
    let rest = from_side hs in if on_from h.op then (h.from_line_no, h.line) ∷ rest else rest

abbrev pub to_side : List CompareVersionsHunk → List (Option ℕ × Text)
to_side [] = []
to_side (h ∷ hs) =
    let rest = to_side hs in if on_to h.op then (h.to_line_no, h.line) ∷ rest else rest

-- lines with their numbers, behind `i` others
abbrev pub numbered : ℕ → List Text → List (Option ℕ × Text)
numbered i [] = []
numbered i (line ∷ lines) = (some (suc i), line) ∷ numbered (suc i) lines

-- the documented behaviour of get_opcodes, from the lines `i` and `j` on: the opcodes go through both
-- sides without a gap to their ends, and each tag is true of its slices
abbrev pub IsTrue : Tag → Opcode → List Text → List Text → Type 0
IsTrue equal c from_lines to_lines = slice c.i1 c.i2 from_lines ≡ slice c.j1 c.j2 to_lines
IsTrue delete c from_lines to_lines = c.j2 ≡ c.j1
IsTrue insert c from_lines to_lines = c.i2 ≡ c.i1
IsTrue replace c from_lines to_lines = Unit

abbrev pub Covers : ℕ → ℕ → List Opcode → List Text → List Text → Type 0
Covers i j [] from_lines to_lines = (i ≡ length from_lines) × (j ≡ length to_lines)
Covers i j (c ∷ cs) from_lines to_lines =
    ((c.i1 ≡ i) × (c.j1 ≡ j) × (i ≤ c.i2) × (j ≤ c.j2))
    × IsTrue c.tag c from_lines to_lines
    × Covers c.i2 c.j2 cs from_lines to_lines

from_side-append :
    (hs ks : List CompareVersionsHunk) → from_side (hs ++ ks) ≡ from_side hs ++ from_side ks
from_side-append [] ks = refl
from_side-append (h ∷ hs) ks = elim (Bool-cases (on_from h.op)) [
  | inl e ↦ rw (e, from_side-append hs ks) refl
  | inr e ↦ rw (e, from_side-append hs ks) refl
]

to_side-append : (hs ks : List CompareVersionsHunk) → to_side (hs ++ ks) ≡ to_side hs ++ to_side ks
to_side-append [] ks = refl
to_side-append (h ∷ hs) ks = elim (Bool-cases (on_to h.op)) [
  | inl e ↦ rw (e, to_side-append hs ks) refl
  | inr e ↦ rw (e, to_side-append hs ks) refl
]

from_side-context :
    (i j : ℕ) (lines : List Text) → from_side (context_hunks i j lines) ≡ numbered i lines
unfolding context_hunks
from_side-context i j [] = refl
from_side-context i j (line ∷ lines) = rw (from_side-context (suc i) (suc j) lines) refl

to_side-context :
    (i j : ℕ) (lines : List Text) → to_side (context_hunks i j lines) ≡ numbered j lines
unfolding context_hunks
to_side-context i j [] = refl
to_side-context i j (line ∷ lines) = rw (to_side-context (suc i) (suc j) lines) refl

from_side-removed :
    (i : ℕ) (lines : List Text) → from_side (removed_hunks i lines) ≡ numbered i lines
unfolding removed_hunks
from_side-removed i [] = refl
from_side-removed i (line ∷ lines) = rw (from_side-removed (suc i) lines) refl

to_side-removed : (i : ℕ) (lines : List Text) → to_side (removed_hunks i lines) ≡ []
unfolding removed_hunks
to_side-removed i [] = refl
to_side-removed i (line ∷ lines) = to_side-removed (suc i) lines

from_side-added : (j : ℕ) (lines : List Text) → from_side (added_hunks j lines) ≡ []
unfolding added_hunks
from_side-added j [] = refl
from_side-added j (line ∷ lines) = from_side-added (suc j) lines

to_side-added : (j : ℕ) (lines : List Text) → to_side (added_hunks j lines) ≡ numbered j lines
unfolding added_hunks
to_side-added j [] = refl
to_side-added j (line ∷ lines) = rw (to_side-added (suc j) lines) refl

drop_nil : (n : ℕ) → drop {A = Text} n [] ≡ []
drop_nil zero = refl
drop_nil (suc n) = refl

drop-drop : (n i m : ℕ) (lines : List Text) → i + n ≡ m → drop n (drop i lines) ≡ drop m lines
drop-drop n zero m lines sum = let equal : n ≡ m = omega (arith, sum) in rw equal refl
drop-drop n (suc i) zero lines sum = ground (arith, sum)
drop-drop n (suc i) (suc m) [] sum = drop_nil n
drop-drop n (suc i) (suc m) (line ∷ lines) sum = drop-drop n i m lines (omega (arith, sum))

length-drop : (n : ℕ) (lines : List Text) → length (drop n lines) ≡ length lines - n
length-drop zero lines = omega arith
length-drop (suc n) [] = omega arith
length-drop (suc n) (line ∷ lines) = omega (arith, length-drop n lines)

numbered-split :
    (n i m : ℕ) (lines : List Text)
    → i + n ≡ m
    → n ≤ length lines
    → numbered i (take n lines) ++ numbered m (drop n lines) ≡ numbered i lines
numbered-split zero i m lines sum le = let equal : m ≡ i = omega (arith, sum) in rw equal refl
numbered-split (suc n) i m [] sum le = ground (arith, le)
numbered-split (suc n) i m (line ∷ lines) sum le =
    rw (numbered-split n (suc i) m lines (omega (arith, sum)) (omega (arith, le))) refl

drop-length : (lines : List Text) → drop (length lines) lines ≡ []
drop-length [] = refl
drop-length (line ∷ lines) = drop-length lines

-- a slice and what comes after it
numbered-slice :
    (i i2 : ℕ) (lines : List Text)
    → i ≤ i2
    → i2 ≤ length lines
    → numbered i (slice i i2 lines) ++ numbered i2 (drop i2 lines) ≡ numbered i (drop i lines)
numbered-slice i i2 lines le le' =
    let sum : i + (i2 - i) ≡ i2 = omega (arith, le) in
    rw (sym (drop-drop (i2 - i) i i2 lines sum)) (
      numbered-split (i2 - i) i i2 (drop i lines) sum (omega (arith, length-drop i lines, le, le')))

Covers-bounds :
    (i j : ℕ) (cs : List Opcode) (from_lines to_lines : List Text)
    → Covers i j cs from_lines to_lines
    → (i ≤ length from_lines) × (j ≤ length to_lines)
Covers-bounds i j [] from_lines to_lines covers = omega (arith, covers.0, covers.1)
Covers-bounds i j (c ∷ cs) from_lines to_lines covers =
    let (_, _, le, le') = covers.0 in
    let (rest, rest') = Covers-bounds c.i2 c.j2 cs from_lines to_lines covers.2 in
    omega (arith, le, le', rest, rest')

slice-empty : (i : ℕ) (lines : List Text) → slice i i lines ≡ []
slice-empty i lines = let zero_long : i - i ≡ 0 = omega arith in rw zero_long refl

-- what one opcode shows of each side
opcode-from :
    (tag : Tag) (c : Opcode) (from_lines to_lines : List Text)
    → IsTrue tag c from_lines to_lines
    → from_side (opcode_hunks tag c from_lines to_lines)
      ≡ numbered c.i1 (slice c.i1 c.i2 from_lines)
unfolding opcode_hunks
opcode-from equal c from_lines to_lines h = from_side-context c.i1 c.j1 (slice c.i1 c.i2 from_lines)
opcode-from delete c from_lines to_lines h = from_side-removed c.i1 (slice c.i1 c.i2 from_lines)
opcode-from insert c from_lines to_lines h =
    rw (h, from_side-added c.j1 (slice c.j1 c.j2 to_lines), slice-empty c.i1 from_lines) refl
opcode-from replace c from_lines to_lines h =
    let gone = removed_hunks c.i1 (slice c.i1 c.i2 from_lines) in
    let new = added_hunks c.j1 (slice c.j1 c.j2 to_lines) in
    rw
      (
        from_side-append gone new,
        from_side-removed c.i1 (slice c.i1 c.i2 from_lines),
        from_side-added c.j1 (slice c.j1 c.j2 to_lines),
      )
      (append-nil (numbered c.i1 (slice c.i1 c.i2 from_lines)))

opcode-to :
    (tag : Tag) (c : Opcode) (from_lines to_lines : List Text)
    → IsTrue tag c from_lines to_lines
    → to_side (opcode_hunks tag c from_lines to_lines) ≡ numbered c.j1 (slice c.j1 c.j2 to_lines)
unfolding opcode_hunks
opcode-to equal c from_lines to_lines h =
    rw (to_side-context c.i1 c.j1 (slice c.i1 c.i2 from_lines), h) refl
opcode-to delete c from_lines to_lines h =
    rw (h, to_side-removed c.i1 (slice c.i1 c.i2 from_lines), slice-empty c.j1 to_lines) refl
opcode-to insert c from_lines to_lines h = to_side-added c.j1 (slice c.j1 c.j2 to_lines)
opcode-to replace c from_lines to_lines h =
    let gone = removed_hunks c.i1 (slice c.i1 c.i2 from_lines) in
    let new = added_hunks c.j1 (slice c.j1 c.j2 to_lines) in
    rw
      (
        to_side-append gone new,
        to_side-removed c.i1 (slice c.i1 c.i2 from_lines),
        to_side-added c.j1 (slice c.j1 c.j2 to_lines),
      )
      refl

build-sides :
    (i j : ℕ) (cs : List Opcode) (from_lines to_lines : List Text)
    → Covers i j cs from_lines to_lines
    → (from_side (build_diff_hunks cs from_lines to_lines) ≡ numbered i (drop i from_lines))
      × (to_side (build_diff_hunks cs from_lines to_lines) ≡ numbered j (drop j to_lines))
unfolding build_diff_hunks
build-sides i j [] from_lines to_lines covers =
    (rw (covers.0, drop-length from_lines) refl, rw (covers.1, drop-length to_lines) refl)
build-sides i j (c ∷ cs) from_lines to_lines covers =
    let (same, same', le, le') = covers.0 in
    let (rest, rest') = build-sides c.i2 c.j2 cs from_lines to_lines covers.2 in
    let (bound, bound') = Covers-bounds c.i2 c.j2 cs from_lines to_lines covers.2 in
    let hunks = opcode_hunks c.tag c from_lines to_lines in
    let later = build_diff_hunks cs from_lines to_lines in
    (
      rw
          (
            from_side-append hunks later,
            opcode-from c.tag c from_lines to_lines covers.1,
            rest,
            same,
          )
          (numbered-slice i c.i2 from_lines le bound),
      rw (to_side-append hunks later, opcode-to c.tag c from_lines to_lines covers.1, rest', same')
          (numbered-slice j c.j2 to_lines le' bound'),
    )

-- When the opcodes go through both sides as get_opcodes documents it, the hunks that are not `added`
-- show every line of the source once, in order and with its number from 1 on, and the hunks that are
-- not `removed` show the target in the same way.
pub build_diff_hunks-sides :
    (cs : List Opcode) (from_lines to_lines : List Text)
    → Covers 0 0 cs from_lines to_lines
    → (from_side (build_diff_hunks cs from_lines to_lines) ≡ numbered 0 from_lines)
      × (to_side (build_diff_hunks cs from_lines to_lines) ≡ numbered 0 to_lines)
build_diff_hunks-sides cs from_lines to_lines covers = build-sides 0 0 cs from_lines to_lines covers
