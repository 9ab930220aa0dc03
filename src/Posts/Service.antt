-- ===== src/Posts/Service.antt =====
-- PostService (apps/blog/services/_posts.py). A method's body, inside the transaction of its caller; the
-- cache's invalidation changes no row.
pub mod Status
pub mod Refused
use fastapi_base.Prelude.{
  ℕ, ◌==◌, Bool, true, false, ◌&&◌, ◌||◌, not, Option, none, some, is_none, List, [], ◌∷◌, Text,
  Result, ok, err, gets, lift, pure, raise_if, or_raise, modify, if◌then◌else◌, ◌>>=◌, ◌>>◌,
}
use fastapi_base.Posts.Model.{
  Redis, Post, PostStatus, PostContent, HeroQuote, State, Db, Action, same_status, post_not_found,
  invalid_status_transition, integrity_error,
}
use fastapi_base.Posts.Content.{
  Pipeline, ContentArtifacts, compute_content_artifacts, ensure_publish_ready,
}
use fastapi_base.Posts.Repository.{
  find_post, find_content, find_by_slug, add_post, update_post, replace_post_tags,
}
use fastapi_base.Posts.Store.{discard}
use fastapi_base.Posts.Writer.{write_initial, update_content_if_changed, persist_snapshot}
use fastapi_base.Posts.Validation.{
  Slugger, normalize_slug, ensure_slug_available, validate_category, validate_tags,
  enforce_tag_count,
}
use fastapi_base.Posts.Autosave.{Fresh, load_post_or_raise, flush_one, on_redis, with_fingerprint}
use fastapi_base.Tiptap.Extract.{Node, Nodes, dict, no_nodes}
use fastapi_base.Workspace.Workspaces.{is_null, or_kept, set_column}

-- `content_json` is none for an empty object
pub record CreatePostRequest : Type 0 where
  pub title : Text
  pub slug : Option Text
  pub excerpt : Option Text
  pub cover_image_url : Option Text
  pub category_id : Option ℕ
  pub tag_ids : List ℕ
  pub hero_quote : Option HeroQuote
  pub meta_title : Option Text
  pub meta_description : Option Text
  pub content_json : Option Node

-- the fields that the request set; `some none` is an explicit null
pub record UpdatePostRequest : Type 0 where
  pub title : Option (Option Text)
  pub slug : Option (Option Text)
  pub excerpt : Option (Option Text)
  pub cover_image_url : Option (Option Text)
  pub category_id : Option (Option ℕ)
  pub tag_ids : Option (Option (List ℕ))
  pub hero_quote : Option (Option HeroQuote)
  pub meta_title : Option (Option Text)
  pub meta_description : Option (Option Text)
  pub content_json : Option (Option Node)

abbrev pub or_doc : Option Node → Node
or_doc none = dict (some "doc") none no_nodes
or_doc (some doc) = doc

-- `data.slug or slugify(data.title)`
abbrev pub slug_or_title : Slugger → Text → Option Text → Text
slug_or_title slugger title none = slugger.slugify title
slug_or_title slugger title (some []) = slugger.slugify title
slug_or_title slugger title (some (c ∷ slug)) = c ∷ slug

abbrev pub is_empty : List ℕ → Bool
is_empty [] = true
is_empty (n ∷ ns) = false

unfoldable pub check_category : ℕ → Option ℕ → Action Unit
check_category workspace_id none = pure tt
check_category workspace_id (some category_id) = validate_category workspace_id category_id

unfoldable pub check_tags : ℕ → List ℕ → Action Unit
check_tags workspace_id tag_ids = do
  enforce_tag_count tag_ids
  if is_empty tag_ids then pure tt else validate_tags workspace_id tag_ids

-- `model_dump(exclude_unset=True).get(key)`
abbrev pub given {ℓ} : {A : Type ℓ} → Option (Option A) → Option A
given none = none
given (some o) = o

unfoldable pub check_slug : Slugger → ℕ → ℕ → Option Text → Action Unit
check_slug slugger workspace_id post_id none = pure tt
check_slug slugger workspace_id post_id (some slug) =
    ensure_slug_available workspace_id (normalize_slug slugger slug) (some post_id)

unfoldable pub check_new_tags : ℕ → Option (List ℕ) → Action Unit
check_new_tags workspace_id none = pure tt
check_new_tags workspace_id (some tag_ids) = check_tags workspace_id tag_ids

abbrev pub normalized : Slugger → Option (Option Text) → Option (Option Text)
normalized slugger (some (some slug)) = some (some (normalize_slug slugger slug))
normalized slugger (some none) = some none
normalized slugger none = none

-- the normalized tag ids, none where the tags stay
unfoldable pub resolve_update_payload :
    Slugger → ℕ → ℕ → UpdatePostRequest → Action (Option (List ℕ))
resolve_update_payload slugger workspace_id post_id request = do
  check_slug slugger workspace_id post_id (given request.slug)
  check_category workspace_id (given request.category_id)
  check_new_tags workspace_id (given request.tag_ids)
  pure (given request.tag_ids)

abbrev pub with_artifacts : Option ContentArtifacts → Post → Post
with_artifacts none p = p
with_artifacts (some artifacts) p = record p {
  content_hash = some artifacts.content_hash;
  word_count = some artifacts.word_count;
  reading_minutes = some artifacts.reading_minutes;
}

abbrev pub with_fields : Slugger → UpdatePostRequest → Post → Post
with_fields slugger request p = record p {
  title = set_column request.title p.title;
  slug = set_column (normalized slugger request.slug) p.slug;
  excerpt = or_kept request.excerpt p.excerpt;
  cover_image_url = or_kept request.cover_image_url p.cover_image_url;
  category_id = or_kept request.category_id p.category_id;
  hero_quote = or_kept request.hero_quote p.hero_quote;
  meta_title = or_kept request.meta_title p.meta_title;
  meta_description = or_kept request.meta_description p.meta_description;
}

-- what is left in the payload once the tags and the content are taken out
abbrev pub is_empty_payload : UpdatePostRequest → Option ContentArtifacts → Bool
is_empty_payload request artifacts =
    is_none request.title
    && is_none request.slug
    && is_none request.excerpt
    && is_none request.cover_image_url
    && is_none request.category_id
    && is_none request.hero_quote
    && is_none request.meta_title
    && is_none request.meta_description
    && is_none artifacts

-- `title` and `slug` are NOT NULL
unfoldable pub write_fields :
    Slugger → ℕ → UpdatePostRequest → Option ContentArtifacts → Action Unit
write_fields slugger post_id request artifacts =
    if is_empty_payload request artifacts then pure tt else (do
      raise_if (is_null request.title || is_null request.slug) integrity_error
      update_post post_id (λ p. with_artifacts artifacts (with_fields slugger request p))
      pure tt)

unfoldable pub write_tags : ℕ → Option (List ℕ) → Action Unit
write_tags post_id none = pure tt
write_tags post_id (some tag_ids) = replace_post_tags post_id tag_ids

abbrev pub with_status : PostStatus → Option ℕ → Post → Post
with_status status published_at p = record p { status = status; published_at = published_at }

abbrev pub archived : Post → Post
archived p = record p { status = PostStatus.archived }

abbrev pub is_publishable : PostStatus → Bool
is_publishable PostStatus.draft = true
is_publishable PostStatus.archived = true
is_publishable PostStatus.published = false

module _ (pipeline : Pipeline) (slugger : Slugger) where
  abbrev pub new_post : ℕ → ℕ → ℕ → ℕ → Text → ContentArtifacts → CreatePostRequest → Post
  new_post now post_id workspace_id author_id slug artifacts request = record {
    id = post_id;
    workspace_id = workspace_id;
    author_id = author_id;
    category_id = request.category_id;
    title = request.title;
    slug = slug;
    excerpt = request.excerpt;
    cover_image_url = request.cover_image_url;
    status = PostStatus.draft;
    published_at = none;
    reading_minutes = some artifacts.reading_minutes;
    word_count = some artifacts.word_count;
    hero_quote = request.hero_quote;
    meta_title = request.meta_title;
    meta_description = request.meta_description;
    content_hash = some artifacts.content_hash;
    deleted_at = none;
    created_at = now;
  }

  -- `post_id` is the id of the new row
  unfoldable pub create : Fresh → ℕ → ℕ → ℕ → CreatePostRequest → Action Post
  create fresh post_id workspace_id author_id request =
      let slug = normalize_slug slugger (slug_or_title slugger request.title request.slug) in
      let doc = or_doc request.content_json in
      let artifacts = compute_content_artifacts pipeline doc in
      let post = new_post fresh.now post_id workspace_id author_id slug artifacts request in
      do
        ensure_slug_available workspace_id slug none
        check_category workspace_id request.category_id
        check_tags workspace_id request.tag_ids
        add_post post
        write_initial pipeline fresh.rivals fresh.content_id post doc artifacts workspace_id
            author_id
        if is_empty request.tag_ids then pure tt else replace_post_tags post_id request.tag_ids
        load_post_or_raise workspace_id post_id

  unfoldable pub apply_content_change : ℕ → Post → Option Node → Action (Option ContentArtifacts)
  apply_content_change content_id post none = pure none
  apply_content_change content_id post (some doc) =
      update_content_if_changed pipeline content_id post doc

  -- `between` is what others write to Redis between the two commands of the discard
  unfoldable pub update : (Redis → Redis) → ℕ → ℕ → ℕ → UpdatePostRequest → Action Post
  update between content_id workspace_id post_id request = do
    post ← load_post_or_raise workspace_id post_id
    new_tag_ids ← resolve_update_payload slugger workspace_id post_id request
    artifacts ← apply_content_change content_id post (given request.content_json)
    write_fields slugger post_id request artifacts
    write_tags post_id new_tag_ids
    reloaded ← load_post_or_raise workspace_id post_id
    modify (on_redis (discard between post_id))
    pure reloaded

module _ (pipeline : Pipeline) where
  -- the snapshot that the retention sweeper keeps, where the post has a content
  unfoldable pub persist_published : Fresh → ℕ → Post → Option PostContent → Action Unit
  persist_published fresh workspace_id post none = pure tt
  persist_published fresh workspace_id post (some content) =
      persist_snapshot fresh.rivals post workspace_id content.content_text post.content_hash
        (pipeline.compress content.content_json) post.author_id true PostStatus.published

  -- what publish does after the flush
  unfoldable pub publish_flushed : Fresh → ℕ → ℕ → Action Post
  publish_flushed fresh workspace_id post_id = do
    post ← load_post_or_raise workspace_id post_id
    raise_if (not (is_publishable post.status)) invalid_status_transition
    content ← gets (λ s. find_content post_id s.db)
    lift (ensure_publish_ready pipeline post content)
    update_post post_id (with_status PostStatus.published (some fresh.now))
    persist_published fresh workspace_id post content
    load_post_or_raise workspace_id post_id

  unfoldable pub publish : Fresh → ℕ → ℕ → Action Post
  publish fresh workspace_id post_id = do
    flush_one pipeline fresh workspace_id post_id
    publish_flushed fresh workspace_id post_id

unfoldable pub unpublish : ℕ → ℕ → Action Post
unpublish workspace_id post_id = do
  post ← load_post_or_raise workspace_id post_id
  raise_if (not (same_status post.status PostStatus.published)) invalid_status_transition
  update_post post_id (with_status PostStatus.draft none)
  load_post_or_raise workspace_id post_id

unfoldable pub archive : ℕ → ℕ → Action Post
archive workspace_id post_id = do
  post ← load_post_or_raise workspace_id post_id
  if same_status post.status PostStatus.archived
      then pure post
      else (do update_post post_id archived; load_post_or_raise workspace_id post_id)

abbrev pub deleted : ℕ → Post → Post
deleted now p = record p { deleted_at = some now }

unfoldable pub soft_delete : ℕ → ℕ → ℕ → Action Post
soft_delete now workspace_id post_id = do
  load_post_or_raise workspace_id post_id
  row ← update_post post_id (deleted now)
  or_raise row post_not_found

unfoldable pub get_published_by_slug : ℕ → Text → Action Post
get_published_by_slug workspace_id slug = do
  found ← gets (λ s. find_by_slug workspace_id slug (some PostStatus.published) none s.db)
  or_raise found post_not_found
