-- ===== src/Posts/Content.antt =====
-- The content pipeline of apps/blog/utils.py. A document is the tree that
-- apps/core/tiptap/extract_text.py walks. `render` is the sanitized HTML of apps/core/tiptap, `digest`
-- is SHA-256 of the sorted JSON, `compress` and `decompress` are zstd over orjson, where `none` is an
-- exception or a value that is no object.
use fastapi_base.Prelude.{
  ℕ, ◌+◌, ◌/◌, ◌==◌, ltb, leb, Bool, Option, none, some, List, [], Text, length, ok, err, Result,
  if◌then◌else◌,
}
use fastapi_base.Posts.Model.{
  Post, PostContent, Error, words_per_minute, min_publish_body_chars, publish_content,
  version_content_unreadable,
}
use fastapi_base.Tiptap.Extract.{Node, extract_text}
use fastapi_base.Tiptap.Words.{split}

pub record Pipeline : Type 0 where
  pub is_space : ℕ → Bool
  pub render : Node → Text
  pub digest : Node → ℕ
  pub compress : Node → List ℕ
  pub decompress : List ℕ → Option Node
  -- `str.strip`
  pub strip : Text → Text

pub record ContentArtifacts : Type 0 where
  pub content_text : Text
  pub content_html : Text
  pub content_hash : ℕ
  pub word_count : ℕ
  pub reading_minutes : ℕ

-- `max(1, math.ceil(word_count / WORDS_PER_MINUTE)) if word_count > 0 else 0`
unfoldable pub reading_minutes_of : ℕ → ℕ
reading_minutes_of word_count =
    let minutes = (word_count + 199) / words_per_minute in
    if ltb 0 word_count then (if leb 1 minutes then minutes else 1) else 0

-- `len(text.split()) if text else 0`
abbrev pub word_count_of : Pipeline → Text → ℕ
word_count_of pipeline text = length (split pipeline.is_space text)

unfoldable pub compute_content_artifacts : Pipeline → Node → ContentArtifacts
compute_content_artifacts pipeline doc =
    let text = extract_text pipeline.is_space doc in
    record {
      content_text = text;
      content_html = pipeline.render doc;
      content_hash = pipeline.digest doc;
      word_count = word_count_of pipeline text;
      reading_minutes = reading_minutes_of (word_count_of pipeline text);
    }

unfoldable pub decompress_content_json : Pipeline → List ℕ → Result Error Node
decompress_content_json pipeline blob = elim (pipeline.decompress blob) [
  | none ↦ err version_content_unreadable
  | some doc ↦ ok doc
]

abbrev pub text_of : Option PostContent → Text
text_of none = []
text_of (some content) = content.content_text

unfoldable pub ensure_publish_ready : Pipeline → Post → Option PostContent → Result Error Unit
ensure_publish_ready pipeline post content =
    if length (pipeline.strip post.title) == 0
    then err publish_content
    else if ltb (length (pipeline.strip (text_of content))) min_publish_body_chars
    then err publish_content
    else ok tt
