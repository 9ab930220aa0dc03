-- ===== src/Engagement/Comments/Responses.antt =====
-- apps/blog/services/_comments/_helpers.py: the public shape of a comment.
use fastapi_base.Prelude.{ℕ, String, Bool, Option, none, some, List, get, if◌then◌else◌}
use fastapi_base.Engagement.Model.{Text, PostComment}

pub data AuthorKind : Type 0 where
  authenticated anonymous : AuthorKind

pub record PostCommentAuthor : Type 0 where
  pub display_name : String
  pub user_id : Option ℕ
  pub username : Option String

pub record PostCommentResponse : Type 0 where
  pub id : ℕ
  pub post_id : ℕ
  pub parent_comment_id : Option ℕ
  pub author_kind : AuthorKind
  pub author : PostCommentAuthor
  pub body : Option Text
  pub edited_at : Option ℕ
  pub created_at : ℕ
  pub is_tombstoned : Bool
  pub reply_count : ℕ

abbrev pub deleted_user_display : String
deleted_user_display = "[deleted]"

-- `x or default` and `d.get(k, default)`
abbrev pub or_default {ℓ} : {A : Type ℓ} → Option A → A → A
or_default none d = d
or_default (some a) d = a

-- an author that is a user, as in the create methods and `_author_from_row`
abbrev pub user_author : ℕ → List (ℕ × String) → PostCommentAuthor
user_author user_id usernames = record {
  display_name = or_default (get user_id usernames) deleted_user_display;
  user_id = some user_id;
  username = get user_id usernames;
}

abbrev pub named_author : String → PostCommentAuthor
named_author name = record { display_name = name; user_id = none; username = none }

-- `row.author_display_name or "[deleted]"`: a stored name is not empty, by the request schema
abbrev author_of : Option ℕ → Option String → List (ℕ × String) → PostCommentAuthor
author_of (some user_id) name usernames = user_author user_id usernames
author_of none name usernames = named_author (or_default name deleted_user_display)

unfoldable pub author_from_row : PostComment → List (ℕ × String) → PostCommentAuthor
author_from_row row usernames = author_of row.author_user_id row.author_display_name usernames

abbrev kind_of : Option ℕ → AuthorKind
kind_of none = AuthorKind.anonymous
kind_of (some user_id) = AuthorKind.authenticated

unfoldable pub row_to_response : PostComment → PostCommentAuthor → ℕ → PostCommentResponse
row_to_response row author reply_count = record {
  id = row.id;
  post_id = row.post_id;
  parent_comment_id = row.parent_comment_id;
  author_kind = kind_of row.author_user_id;
  author = author;
  body = if row.is_tombstoned then none else some row.body;
  edited_at = row.edited_at;
  created_at = row.created_at;
  is_tombstoned = row.is_tombstoned;
  reply_count = reply_count;
}
