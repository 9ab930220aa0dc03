-- ===== src/Posts/Validation.antt =====
-- PostValidationService (apps/blog/services/_validation.py), and normalize_slug of apps/blog/utils.py,
-- where `strip` and `lower` are Python's, `slugify` is the function of apps/core/database/utils.py, and
-- a slug stands as its code points.
use fastapi_base.Prelude.{
  ℕ, ◌+◌, Bool, false, ◌&&◌, not, Option, none, is_none, List, [], ◌∷◌, any, leb, ltb, map, length,
  Text, gets, raise_if, if◌then◌else◌, ◌>>=◌,
}
use fastapi_base.Posts.Model.{
  Action, max_tags_per_post, slug_conflict, too_many_tags, resource_workspace_mismatch,
}
use fastapi_base.Posts.Repository.{find_by_slug, find_category, list_by_ids, is_in}
use fastapi_base.Workspace.Slugs.{is_slug_end, is_slug_inner}

pub record Slugger : Type 0 where
  pub lower : Text → Text
  pub strip : Text → Text
  pub slugify : Text → Text

-- `[a-z0-9-]{0,278}[a-z0-9]` after `n` inner characters
unfoldable pub matches_blog_rest : ℕ → Text → Bool
matches_blog_rest n [] = false
matches_blog_rest n (c ∷ []) = is_slug_end c && leb n 278
matches_blog_rest n (c ∷ d ∷ s) = is_slug_inner c && matches_blog_rest (n + 1) (d ∷ s)

-- BLOG_SLUG_PATTERN.fullmatch
unfoldable pub matches_blog_slug : Text → Bool
matches_blog_slug [] = false
matches_blog_slug (c ∷ []) = is_slug_end c
matches_blog_slug (c ∷ d ∷ s) = is_slug_end c && matches_blog_rest 0 (d ∷ s)

unfoldable pub normalize_slug : Slugger → Text → Text
normalize_slug slugger slug =
    let candidate = slugger.lower (slugger.strip slug) in
    if matches_blog_slug candidate then candidate else slugger.slugify candidate

unfoldable pub ensure_slug_available : ℕ → Text → Option ℕ → Action Unit
ensure_slug_available workspace_id slug exclude_id = do
  existing ← gets (λ s. find_by_slug workspace_id slug none exclude_id s.db)
  raise_if (not (is_none existing)) slug_conflict

unfoldable pub validate_category : ℕ → ℕ → Action Unit
validate_category workspace_id category_id = do
  category ← gets (λ s. find_category workspace_id category_id s.db)
  raise_if (is_none category) resource_workspace_mismatch

unfoldable pub validate_tags : ℕ → List ℕ → Action Unit
validate_tags workspace_id tag_ids = do
  found ← gets (λ s. map (λ t. t.id) (list_by_ids workspace_id tag_ids s.db))
  raise_if (any (λ tag_id. not (is_in tag_id found)) tag_ids) resource_workspace_mismatch

unfoldable pub enforce_tag_count : List ℕ → Action Unit
enforce_tag_count tag_ids = raise_if (ltb max_tags_per_post (length tag_ids)) too_many_tags
