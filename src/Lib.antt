-- ===== src/Lib.antt =====
-- blog_be, the backend of a blog: posts with tags, an admin with access and refresh tokens, and the
-- middleware before both.
--
-- A request passes the middleware of app/server.py (Server), gets a database session of its own
-- (Session), and runs a route of api/v1, which calls a service; a service reads and writes through a
-- repository. A handler is a term of `Exec S A` (Exec): from a state to a result or an error, and a
-- state, which is kept beside an error too. On the tables S is `Blog` or `Accounts`; on the session
-- of a request it is `Session Blog` or `Session Accounts`, and in App it is that of the whole
-- `Store`.
--
--   Prelude      numbers, lists, equality tests, sorting, tables with a key
--   Error        app/core/exception: codes, exceptions as values, and their handlers
--   Session      app/core/db/session.py, transactional.py, standalone_session.py and
--                app/core/fastapi/middlewares/sqlalchemy.py: what is committed, and what the open
--                transaction has written; `begin` in an open transaction raises
--   Database     app/post/domain/entity.py and app/tag/domain/entity.py: rows, keys and foreign keys,
--                and the statements that the unit of work sends. `IsValid` says that the constraints
--                hold.
--   Platform     app/core/utils/slug.py
--   Query        ORDER BY, OFFSET and LIMIT, joins, and the entities of a result
--   Tag          app/tag: `TagRepository` and `TagService`, and api/v1/tags.py (Routes)
--   Pagination   app/core/pagination.py
--   Post         app/post: Schemas (requests and responses), Repository, Service, and the theorems:
--                Listing (the lists, and in Found the search), Search (the pattern), Nav (the
--                neighbours of a post, in Nearest which they are, and in Inverse that they are
--                inverse), Writes (create, update, delete, publish, and the routes of api/v1/posts.py
--                that call them), Site (the posts as a client of those routes sees them, and the
--                refinement of it by the database); Routes has the read routes of posts.py,
--                admin.py and search.py, Public what they show, and Answered how the routes fail
--   Auth         app/admin (Repository), app/core/security/password.py (Password),
--                app/core/security/auth.py (Token), api/v1/auth.py (Routes); the theorems on rotation
--                and reuse of refresh tokens are in Rotation, Dependency and Replay, those on access
--                tokens in Issued, those on login in Login; Stable says what a property of the two
--                tables has to be kept by, Validity is on their keys, Raised on the version of the
--                admin, and Refusal on the errors of `require_admin`; Concurrent has refresh and
--                logout as steps that interleave, and Keys has app/core/security/keys.py and
--                api/jwks.py
--   Content      app/content and api/v1/content.py: the documents stored under a key
--   Config       app/core/config/config.py: the production checks, the list of CORS origins, the
--                environment files and the loader (Loader)
--   Server       app/server.py: RateLimit (`LoginRateLimitMiddleware`), Headers
--                (`SecurityHeadersMiddleware`) and Gateway (`GatewaySharedSecretMiddleware` and
--                `init_middleware`); Lifespan has `lifespan` and the engines of
--                app/core/db/session.py
--   Start        main.py, with `init_app` of app/server.py in Application; Launch is on the server
--                that is started
--   App          the whole application over one database: the endpoints of api/root_router.py and
--                api/v1 with their paths (Endpoints), what each does in its session, with
--                `require_admin` where it depends on it (Handlers), a request through the middleware
--                (Serve), what the middleware lets through (Middleware), what a route commits (Effects),
--                what holds after any history of requests (Kept), the constraints of all tables
--                (Validity), the access tokens after a logout (SignOut), the posts after a request
--                (Posts) and after a history of them (History), the errors that are answered
--                (Answered), the limit of logins over a history (LoginPath, Limit), and who may
--                change what (Access, Hop)
--   Tests        runs on small data, and the theorems at concrete inputs
--
-- Parameters stand for what is not in the repository. `Platform` has python-slugify, the collation in
-- which the database compares texts, and the clocks; the collation is assumed to be a total order in
-- which different texts differ (`IsCollation`). `Bcrypt` and `Jwt` have what bcrypt and PyJWT do, a
-- key being named by its PEM text, `Json` what JSON, UTF-8 and a JSONB column do, `KeyLibrary` and
-- `RsaLibrary` what is done with keys, `EngineLibrary` what SQLAlchemy does with an engine,
-- `HeaderLibrary` what starlette does with headers; ILIKE is a parameter of the search, and what
-- pydantic-settings reads is one of the loader. The ids that `uuid4` draws and the times of a request
-- are fields of `Draw`; that a drawn id is new is a hypothesis where it matters.
--
-- `signing_key` of `AuthConfig` is what `keys.private_key()` gives or raises, which no `except` catches
-- where a token is issued or decoded. App reads it with an empty cache; a cache of keys that were loaded
-- gives the same (`private_key-uncached` of Auth/Keys/Published), so that the cache is not threaded
-- through the requests.
--
-- Conventions. Times are natural numbers, and a subtraction stops at 0. The columns of type INTEGER,
-- such as `token_version` of an admin, are natural numbers without the bound of the column. A dict is
-- a function, or a list of its items. The rows of a table are a list, and a SELECT without ORDER BY
-- keeps its order. No loop of the program needs fuel: each runs over a list. A test in a WHERE clause
-- is a Boolean function, and NULL in it is false. Requests run one after the other, but in
-- Auth/Concurrent, where the statements of refresh and logout interleave at PostgreSQL's level READ
-- COMMITTED.
--
-- Not modelled: what `CORSMiddleware` does with its arguments, click and uvicorn, and FastAPI's
-- matching of a path to a route: a request to the application is one that is matched. The replies of
-- App have no header but `Cache-Control`. `str.lower` is that of the ASCII letters. PostgreSQL takes
-- every text, but for the documents that `Json` says it refuses: a text with a NUL character, or one
-- too long for an index, is not modelled. Pydantic's parsing of JSON is modelled only as the checks
-- that the schemas of a post add to it.

pub mod Prelude
pub mod Error
pub mod Exec
pub mod Session
pub mod Database
pub mod Platform
pub mod Query
pub mod Tag
pub mod Pagination
pub mod Post
pub mod Auth
pub mod Config
pub mod Content
pub mod Server
pub mod Start
pub mod App
pub mod Tests
