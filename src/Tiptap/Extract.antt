-- ===== src/Tiptap/Extract.antt =====
-- extract_text of apps/core/tiptap/extract_text.py. A node is what the walker reads of the JSON value: a
-- dict's `type` and `text` where they are strings and the items of its `content` where it is a list,
-- or some value that is no dict.
use fastapi_base.Prelude.{
  ℕ, ◌≡◌, refl, Bool, true, false, Option, none, some, List, [], ◌∷◌, ◌++◌, Text, String, str_eq,
  any, if◌then◌else◌,
}
use mathlib.Core.List.{append-nil, append_assoc}
use fastapi_base.Tiptap.Words.{split, split_from, split_from-append, join}

mutual
  pub data Node : Type 0 where
    no_dict : Node
    dict : Option String → Option Text → Nodes → Node

  pub data Nodes : Type 0 where
    no_nodes : Nodes
    more_nodes : Node → Nodes → Nodes

abbrev pub block_types : List String
block_types =
    "blockquote" ∷ "bulletList" ∷ "codeBlock" ∷ "doc" ∷ "heading" ∷ "horizontalRule" ∷ "listItem"
    ∷ "orderedList" ∷ "paragraph" ∷ "table" ∷ "tableCell" ∷ "tableHeader" ∷ "tableRow" ∷ []

abbrev pub has_type : Option String → String → Bool
has_type none name = false
has_type (some node_type) name = str_eq node_type name

-- `node_type in BLOCK_TYPES`
unfoldable pub is_block : Option String → Bool
is_block node_type = any (has_type node_type) block_types

abbrev pub or_empty : Option Text → Text
or_empty none = []
or_empty (some text) = text

-- what _walk appends for a node, given what it appends for the children
unfoldable pub chunks : Option String → Option Text → Text → Text
chunks node_type text children =
    if has_type node_type "text"
    then or_empty text
    else if has_type node_type "hardBreak"
    then 32 ∷ []
    else (children ++ (if is_block node_type then 10 ∷ [] else []))

unfoldable mutual
  pub walk : Node → Text
  walk no_dict = []
  walk (dict node_type text content) = chunks node_type text (walk_all content)

  pub walk_all : Nodes → Text
  walk_all no_nodes = []
  walk_all (more_nodes child rest) = walk child ++ walk_all rest

module _ (is_space : ℕ → Bool) where
  -- `" ".join("".join(parts).split())`
  unfoldable pub extract_text : Node → Text
  extract_text doc = join (split is_space (walk doc))

  -- The words of a block, such as a paragraph, never run together with those of the node after it.
  split-block :
      is_space 10 ≡ true
      → (node_type : Option String) (text : Option Text) (content rest : Nodes)
      → is_block node_type ≡ true
      → has_type node_type "text" ≡ false
      → has_type node_type "hardBreak" ≡ false
      → split is_space (walk_all (more_nodes (dict node_type text content) rest))
        ≡ split is_space (walk (dict node_type text content)) ++ split is_space (walk_all rest)
  unfolding walk walk_all chunks split
  split-block space node_type text content rest block no_text no_break =
      let inner = walk_all content in
      let after = walk_all rest in
      rw (no_text, no_break, block, split_from-append is_space [] inner [] 10 space)
        (rw
          (
            append_assoc inner (10 ∷ []) after,
            split_from-append is_space [] inner after 10 space,
            append-nil (split_from is_space [] inner),
          )
          refl)
