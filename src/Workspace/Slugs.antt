-- ===== src/Workspace/Slugs.antt =====
-- WorkspaceService._validate_slug, with the pattern and the reserved words of constants.py.
use fastapi_base.Prelude.{
  ℕ, ◌+◌, Bool, false, ◌&&◌, ◌||◌, not, List, [], ◌∷◌, any, leb, ◌==◌, Text, same_text, Result, ok,
  err, if◌then◌else◌,
}
use fastapi_base.Workspace.Model.{Error, slug_invalid, slug_reserved}

-- `[a-z0-9]`
abbrev pub is_slug_end : ℕ → Bool
is_slug_end c = (leb 97 c && leb c 122) || (leb 48 c && leb c 57)

-- `[a-z0-9-]`
abbrev pub is_slug_inner : ℕ → Bool
is_slug_inner c = is_slug_end c || c == 45

-- `[a-z0-9-]{1,78}[a-z0-9]`, after `n` inner characters
unfoldable pub matches_rest : ℕ → Text → Bool
matches_rest n [] = false
matches_rest n (c ∷ []) = is_slug_end c && leb 1 n && leb n 78
matches_rest n (c ∷ d ∷ s) = is_slug_inner c && matches_rest (n + 1) (d ∷ s)

-- WORKSPACE_SLUG_PATTERN.fullmatch
unfoldable pub matches_slug_pattern : Text → Bool
matches_slug_pattern [] = false
matches_slug_pattern (c ∷ []) = is_slug_end c
matches_slug_pattern (c ∷ d ∷ s) = is_slug_end c && matches_rest 0 (d ∷ s)

-- WORKSPACE_RESERVED_SLUGS
abbrev pub workspace_reserved_slugs : List Text
workspace_reserved_slugs =
    -- admin
    (97 ∷ 100 ∷ 109 ∷ 105 ∷ 110 ∷ [])
    ∷
        -- api
        (97 ∷ 112 ∷ 105 ∷ [])
    ∷
        -- app
        (97 ∷ 112 ∷ 112 ∷ [])
    ∷
        -- auth
        (97 ∷ 117 ∷ 116 ∷ 104 ∷ [])
    ∷
        -- blog
        (98 ∷ 108 ∷ 111 ∷ 103 ∷ [])
    ∷
        -- docs
        (100 ∷ 111 ∷ 99 ∷ 115 ∷ [])
    ∷
        -- health
        (104 ∷ 101 ∷ 97 ∷ 108 ∷ 116 ∷ 104 ∷ [])
    ∷
        -- internal
        (105 ∷ 110 ∷ 116 ∷ 101 ∷ 114 ∷ 110 ∷ 97 ∷ 108 ∷ [])
    ∷
        -- login
        (108 ∷ 111 ∷ 103 ∷ 105 ∷ 110 ∷ [])
    ∷
        -- logout
        (108 ∷ 111 ∷ 103 ∷ 111 ∷ 117 ∷ 116 ∷ [])
    ∷
        -- media
        (109 ∷ 101 ∷ 100 ∷ 105 ∷ 97 ∷ [])
    ∷
        -- metrics
        (109 ∷ 101 ∷ 116 ∷ 114 ∷ 105 ∷ 99 ∷ 115 ∷ [])
    ∷
        -- oauth
        (111 ∷ 97 ∷ 117 ∷ 116 ∷ 104 ∷ [])
    ∷
        -- public
        (112 ∷ 117 ∷ 98 ∷ 108 ∷ 105 ∷ 99 ∷ [])
    ∷
        -- rbac
        (114 ∷ 98 ∷ 97 ∷ 99 ∷ [])
    ∷
        -- register
        (114 ∷ 101 ∷ 103 ∷ 105 ∷ 115 ∷ 116 ∷ 101 ∷ 114 ∷ [])
    ∷
        -- settings
        (115 ∷ 101 ∷ 116 ∷ 116 ∷ 105 ∷ 110 ∷ 103 ∷ 115 ∷ [])
    ∷
        -- signup
        (115 ∷ 105 ∷ 103 ∷ 110 ∷ 117 ∷ 112 ∷ [])
    ∷
        -- status
        (115 ∷ 116 ∷ 97 ∷ 116 ∷ 117 ∷ 115 ∷ [])
    ∷
        -- support
        (115 ∷ 117 ∷ 112 ∷ 112 ∷ 111 ∷ 114 ∷ 116 ∷ [])
    ∷
        -- system
        (115 ∷ 121 ∷ 115 ∷ 116 ∷ 101 ∷ 109 ∷ [])
    ∷
        -- user
        (117 ∷ 115 ∷ 101 ∷ 114 ∷ [])
    ∷
        -- users
        (117 ∷ 115 ∷ 101 ∷ 114 ∷ 115 ∷ [])
    ∷
        -- workspace
        (119 ∷ 111 ∷ 114 ∷ 107 ∷ 115 ∷ 112 ∷ 97 ∷ 99 ∷ 101 ∷ [])
    ∷
        -- workspaces
        (119 ∷ 111 ∷ 114 ∷ 107 ∷ 115 ∷ 112 ∷ 97 ∷ 99 ∷ 101 ∷ 115 ∷ [])
    ∷
        -- www
        (119 ∷ 119 ∷ 119 ∷ [])
    ∷ []

-- `slug in WORKSPACE_RESERVED_SLUGS`
unfoldable pub is_reserved : Text → Bool
is_reserved slug = any (same_text slug) workspace_reserved_slugs

unfoldable pub validate_slug : Text → Result Error Unit
validate_slug slug =
    if not (matches_slug_pattern slug)
    then err slug_invalid
    else if is_reserved slug
    then err slug_reserved
    else ok tt
