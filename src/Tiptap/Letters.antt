-- ===== src/Tiptap/Letters.antt =====
-- What extract_text keeps of a document, against a plain fold over its text nodes.
use fastapi_base.Prelude.{
  ℕ, ◌≡◌, refl, sym, ◌∙◌, Bool, true, false, not, Option, List, [], ◌∷◌, ◌++◌, Text, String, select,
  select-append, if◌then◌else◌, Bool-cases, inl, inr,
}
use mathlib.Core.List.{append-nil, append_assoc}
use fastapi_base.Tiptap.Words.{flush, split, split_from, join, split-collapse}
use fastapi_base.Tiptap.Extract.{
  Node, no_dict, dict, Nodes, no_nodes, more_nodes, has_type, is_block, or_empty, chunks, walk,
  walk_all, extract_text,
}

unfoldable mutual
  -- the texts of the text nodes, in the order of the document; a hard break has no text
  pub texts : Node → Text
  texts no_dict = []
  texts (dict node_type text content) =
      if has_type node_type "text"
      then or_empty text
      else if has_type node_type "hardBreak"
      then []
      else all_texts content

  pub all_texts : Nodes → Text
  all_texts no_nodes = []
  all_texts (more_nodes child rest) = texts child ++ all_texts rest

module _ (is_space : ℕ → Bool) where
  -- a text without its white space
  abbrev pub letters : Text → Text
  letters = select (λ c. not (is_space c))

  letters-append : (s t : Text) → letters (s ++ t) ≡ letters s ++ letters t
  letters-append s t = select-append (λ c. not (is_space c)) s t

  module _ (space : is_space 32 ≡ true) where
    letters-join :
        (w : Text) (ws : List Text) → letters (join (w ∷ ws)) ≡ letters w ++ letters (join ws)
    letters-join w [] = sym (append-nil (letters w))
    letters-join w (v ∷ ws) = letters-append w (32 ∷ join (v ∷ ws)) ∙ rw space refl

    letters-flush :
        (w : Text) (ws : List Text)
        → letters (join (flush w ++ ws)) ≡ letters w ++ letters (join ws)
    letters-flush [] ws = refl
    letters-flush (c ∷ w) ws = letters-join (c ∷ w) ws

    letters-split_from :
        (w s : Text) → letters (join (split_from is_space w s)) ≡ letters w ++ letters s
    unfolding split_from
    letters-split_from w [] = rw (sym (append-nil (flush w))) (letters-flush w [])
    letters-split_from w (c ∷ s) = elim (Bool-cases (is_space c)) [
      | inl e ↦
          rw e (letters-flush w (split_from is_space [] s) ∙ rw (letters-split_from [] s) refl)
      | inr e ↦ rw e (
          letters-split_from (w ++ c ∷ []) s
          ∙ rw (letters-append w (c ∷ []), e, append_assoc (letters w) (c ∷ []) (letters s)) refl)
    ]

    module _ (line_break : is_space 10 ≡ true) where
      letters-block : (b : Bool) → letters (if b then 10 ∷ [] else []) ≡ []
      letters-block true = rw line_break refl
      letters-block false = refl

      letters-chunks :
          (node_type : Option String) (text : Option Text) (children inner : Text)
          → letters children ≡ letters inner
          → letters (chunks node_type text children)
            ≡ letters (
                if has_type node_type "text"
                then or_empty text
                else if has_type node_type "hardBreak"
                then []
                else inner)
      unfolding chunks
      letters-chunks node_type text children inner same =
          elim (Bool-cases (has_type node_type "text")) [
            | inl e ↦ rw e refl
            | inr e ↦ elim (Bool-cases (has_type node_type "hardBreak")) [
              | inl f ↦ rw (e, f, space) refl
              | inr f ↦
                  rw (e, f)
                    (letters-append children (if is_block node_type then 10 ∷ [] else [])
                      ∙ rw (letters-block (is_block node_type), append-nil (letters children)) same)
            ]
          ]

      mutual
        unfolding walk walk_all texts all_texts

        letters-walk : (node : Node) → letters (walk node) ≡ letters (texts node)
        letters-walk no_dict = refl
        letters-walk (dict node_type text content) =
            letters-chunks node_type text (walk_all content) (all_texts content)
              (letters-walk_all content)

        letters-walk_all : (nodes : Nodes) → letters (walk_all nodes) ≡ letters (all_texts nodes)
        letters-walk_all no_nodes = refl
        letters-walk_all (more_nodes child rest) =
            letters-append (walk child) (walk_all rest)
            ∙ rw (letters-walk child, letters-walk_all rest)
                (sym (letters-append (texts child) (all_texts rest)))

      -- Where the space and the line break are white space, the extracted text has, apart from white
      -- space, all the characters of the document's text nodes in their order and no others; its words
      -- stand one space apart, with none before or after them.
      pub extract_text-letters :
          (doc : Node)
          → (letters (extract_text is_space doc) ≡ letters (texts doc))
            × (extract_text is_space doc ≡ join (split is_space (extract_text is_space doc)))
      unfolding extract_text split
      extract_text-letters doc =
          let kept = split-collapse is_space space (walk doc) in
          (letters-split_from [] (walk doc) ∙ letters-walk doc, rw kept refl)
