-- ===== src/Tests/Documents.antt =====
-- A document with two paragraphs, the first with a run of spaces.
use fastapi_base.Prelude.{ℕ, ◌≡◌, refl, ◌==◌, ◌||◌, Bool, none, some, [], ◌∷◌, Text}
use fastapi_base.Tiptap.Words.{split, join}
use fastapi_base.Tiptap.Extract.{Node, Nodes, dict, no_nodes, more_nodes, extract_text}
use fastapi_base.Tiptap.Letters.{letters, texts, extract_text-letters}

abbrev is_blank : ℕ → Bool
is_blank c = c == 32 || c == 10

abbrev words_of : Text → Nodes
words_of text = more_nodes (dict (some "text") (some text) no_nodes) no_nodes

abbrev two_paragraphs : Nodes
two_paragraphs =
    more_nodes (dict (some "paragraph") none (words_of (97 ∷ 32 ∷ 32 ∷ 98 ∷ [])))
      (more_nodes (dict (some "paragraph") none (words_of (99 ∷ []))) no_nodes)

abbrev a_document : Node
a_document = dict (some "doc") none two_paragraphs

extract_text-letters_example :
    (letters is_blank (extract_text is_blank a_document) ≡ letters is_blank (texts a_document))
    × (extract_text is_blank a_document ≡ join (split is_blank (extract_text is_blank a_document)))
extract_text-letters_example = extract_text-letters is_blank refl refl a_document
