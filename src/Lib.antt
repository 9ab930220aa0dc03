-- ===== src/Lib.antt =====
-- The verification library of fastapi-base: the blog (posts, their autosaved bodies, versions,
-- categories and tags; likes, comments, moderation, counters), workspaces and their members, refresh
-- tokens, e-mail codes and two-factor codes, the plain text of documents, and the transaction of a
-- request.
--
-- How the program is put together. A route takes a session from session_factory and calls a service; a
-- service method checks its request, calls repositories, and raises an error of its module; a
-- repository runs statements on PostgreSQL, whose triggers and constraints do the rest. session_factory
-- commits when the route returns and rolls back when it raises.
--
-- How it is modelled. A service method is a function from the database to a result and a database
-- (`Call` in Prelude/Calls): `ok` or `err` for a raise, together with what the method has written by
-- then. `settled` is what the whole request leaves committed; Session.antt has the code of
-- apps/core/database/session.py and transactional.py over any session that obeys the laws of
-- `SessionType`, which are SQLAlchemy's documented behaviour. A database is a record of lists of rows;
-- SELECT, UPDATE, DELETE and COUNT are functions on lists with the WHERE clause as a Boolean test
-- (Prelude/Lists), ORDER BY is a sort (Prelude/Order). A request type with `handle` and `serve`
-- runs any sequence of requests, one after the other. Ids, instants and digests are numbers, a text is
-- a list of code points. The clock, new ids, hashes, Fernet, pyotp, nh3, the IP parser,
-- str.isspace, str.lower, str.strip, the token codec and the access check are arguments. The state of
-- Posts is the database, the database at the start of the transaction (to which a rollback goes back),
-- whether the transaction is one of an `async with session.begin()` (which ends with a rollback), and
-- Redis: for a post the key with its snapshot and the time it expires at, the dirty set, and the
-- locks. A Lua script is one step, a discard two; what other sessions write between two statements is an argument
-- (`rivals` in Posts/Versions). There difflib's opcodes, str.splitlines, zstd with orjson, SHA-256,
-- the slug rules of python-slugify, the rendering and the order of names are arguments too.
--
-- Files and the code that they model:
--   Session            apps/core/database/session.py, transactional.py
--   Engagement/Model, Triggers
--                      apps/blog/models.py, enums.py, exceptions.py, constants.py, and the triggers and
--                      constraints of alembic/versions/c28e5e7d2fc3_add_post_engagement.py
--   Engagement/Repository/*
--                      apps/blog/repositories/_post_comment.py, _post_comment_moderation.py,
--                      _post_like.py, _post.py
--   Engagement/Comments/{Responses, Create, Own, Read}
--                      apps/blog/services/_comments/_helpers.py and _service.py
--   Engagement/Moderation
--                      apps/blog/services/_comment_moderation.py, one tick of
--                      apps/blog/sweepers/_comment_moderation.py
--   Engagement/Likes   apps/blog/services/_likes.py
--   Posts/{Model, Repository}
--                      apps/blog/models.py, enums.py, exceptions.py, repositories/_post.py,
--                      _post_content.py, _post_tag.py
--   Posts/{Store, Lease}
--                      apps/blog/store.py
--   Posts/{Content, Writer, Validation}
--                      apps/blog/utils.py, services/_content_writer.py, _validation.py
--   Posts/{Versions, Retention}
--                      apps/blog/repositories/_post_version.py, one tick of
--                      apps/blog/sweepers/_post_version.py
--   Posts/Autosave     apps/blog/services/_autosave_service.py, one tick of
--                      apps/blog/sweepers/_autosave.py
--   Posts/Sweepers     the loops of apps/blog/sweepers
--   Posts/Service      apps/blog/services/_posts.py
--   Posts/{History, History/Diff}
--                      apps/blog/services/_versions.py and the diff of apps/blog/utils.py
--   Posts/{Categories, Labels}
--                      apps/blog/services/_categories.py, _tags.py, repositories/_category.py, _tag.py
--   Workspace/{Model, Slugs, Repository, Workspaces, Members}
--                      apps/workspace/models.py, enums.py, constants.py, repositories.py, services.py
--                      with apps/core/database/repository/_write.py
--   Workspace/Access   apps/workspace/dependencies.py
--   Tiptap/{Words, Extract}
--                      apps/core/tiptap/extract_text.py, constants.py
--   Auth/{Model, Totp, Codes, Tokens}
--                      apps/auth/models.py, repository.py, security/otp.py, services/_two_factor.py,
--                      _email_verification.py, _tokens.py
-- The other files hold proofs and are named for what they prove; Tests applies the theorems to small
-- databases.
--
-- Fuel. Deleting a comment deletes its replies, their replies and so on; `delete_cascade` takes the
-- number of rows plus one as fuel. A round after the first that deletes no row is followed by rounds
-- that delete none, so at most that many rounds have an effect. The attempts of
-- `add_with_retry` are the code's own limit. The other recursions are structural.
--
-- Not modelled. Routes, middleware, settings, logging, e-mail and object storage are I/O or glue. Of posts,
-- the list, the cached detail with its invalidation and the merged read for admins are left out, and so
-- is a HASH in Redis that does not parse. The HTML of documents, RBAC, products, users beyond two
-- look-ups, login and OAuth are not part of the library yet. Two requests never interleave in `serve`;
-- Workspace/Interleaving has one pair of requests that do, Posts/Lease any workers and Posts/Versions the
-- other sessions that number versions of the same post.
pub mod Prelude
pub mod Session
pub mod Engagement
pub mod Workspace
pub mod Auth
pub mod Tiptap
pub mod Posts
pub mod Tests
