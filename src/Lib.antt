-- ===== src/Lib.antt =====
-- A verification library for the FastAPI authentication API of this repository (app/).
--
-- The program is a set of request handlers over four shared stores: the tables of a SQL database, a
-- Redis server, the queue of Celery tasks and the WebSockets of the worker. A handler decodes a
-- signed token or checks a password, looks accounts up, writes a row or a Redis key, queues a mail,
-- and answers with a value or an HTTP exception.
--
-- How the files follow the code:
--
--   Http            the exceptions and the way out of a handler; a handler is a function from the
--                   state to a result and the state, and what was committed before a raise stays
--   Models          app/models/: the rows of the tables
--   Services        what the program calls and does not contain: Services/Redis (the commands of
--                   Redis), Services/Table (a table behind a SQLAlchemy
--                   session, with Services/Table/Deletion and Services/Table/Ordering), Services/Jwt
--                   (python-jose), Services/Runtime (pwdlib, uuid, texts of Python). Each is a record
--                   of operations and of the documented behaviour that the code relies on, and a
--                   parameter of all that uses it. `World` is the state that the handlers share
--   Connections     app/services/connection_manager.py; Connections/Sets is about the open sockets,
--                   Connections/Refinement about the dict and the sets of sockets it stands for
--   Tokens          app/auth/jwt.py; Tokens/Kinds is about who accepts a token and how long
--   Blacklist       app/services/token_blacklist.py; Blacklist/Revocation is about later lookups
--   RateLimit       app/services/rate_limit.py; RateLimit/Window counts the calls let through
--   Dependencies    app/auth/dependencies.py and app/auth/password.py; Dependencies/Access is about
--                   who gets through
--   Accounts        the invariant of the users table
--   Auth            app/api/auth.py: Auth/Register, Auth/Session and Auth/Recovery hold the handlers,
--                   Auth/Login, Auth/Logout, Auth/Registration, Auth/Reset and Auth/Verification what
--                   they guarantee
--   Profile         app/services/user_profile.py and the routes of app/api/users.py; Profile/Address
--                   is about a change of address, Profile/Lockout about passwords and deactivation
--   UsersV2         app/api/v2/users.py, app/schemas/user_v2.py and `UserResponse` of
--                   app/schemas/user.py: the routes of version 2 beside those of version 1
--   Realtime        app/services/ws_pubsub.py and app/api/websocket.py; Realtime/Delivery is about
--                   who gets a message and what a session leaves behind; Realtime/Listener is
--                   `run_pubsub_listener`, with Realtime/Listener/Workers about two workers
--   Rbac            app/core/rbac.py; Rbac/Checks is about who passes, Rbac/Seeding is
--                   `seed_rbac_defaults` and Rbac/Seeded about the tables after it
--   Codec           base64, UTF-8 and ASCII as Python has them
--   Pagination      app/services/pagination.py and app/schemas/pagination.py; Pagination/Cursor is
--                   about cursors, Pagination/Rows and Pagination/Feed about the rows of a page,
--                   Pagination/Walk and Pagination/Offset about a client that reads all pages
--   Admin           app/api/admin.py; Admin/Effects is about the tables after a call; Admin/Listings
--                   has the two listings, Admin/Feed is about the one with cursors
--   Oauth           app/api/oauth.py; Oauth/State is about the state of a sign-in, Oauth/Identity about
--                   the account it is for, Oauth/Unlink about what is left after an unlinking;
--                   Oauth/Clients has the clients of app/core/oauth.py
--   Cleanup         app/tasks/cleanup.py; Cleanup/Effect is about the rows it deletes
--   Reports         app/tasks/reports.py and the two routes of app/api/admin.py that ask for a report;
--                   Reports/Counts is about the counts by role
--   Mail            app/services/email.py and app/tasks/email.py, with the texts in Mail/Texts;
--                   Mail/Retries is about the mails that a task sends
--   Schemas         the bodies with a new password of app/schemas/user.py and
--                   app/schemas/password_reset.py; Schemas/Strength is about the passwords
--   Settings        app/core/config.py, and who reads the settings in app/core/oauth.py,
--                   app/services/storage.py and app/db/session.py; Settings/Production is about
--                   settings that load
--   Middleware      app/middleware/, the order of the layers in app/main.py, and of
--                   app/core/exceptions.py the answer to an unhandled exception; Middleware/Legacy is
--                   about the legacy paths, Middleware/Stack about the layers together
--   Uploads         app/services/file_validation.py and app/services/virus_scan.py; Uploads/Csv has
--                   the test of a CSV file, Uploads/Stream is about what is let through
--   Files           app/api/files.py; Files/Ownership is about whose files a call reaches,
--                   Files/Listing about the listing and Files/Samples about the sample of a CSV file
--   Api             the routers of app/api/v1/__init__.py and app/api/v2/__init__.py together:
--                   requests one after the other.
--                   Api/Callers is about the two ways a dependency of a route ends, Api/Tables about
--                   the users table and Api/Revoked about tokens, whatever is requested
--   Memory          concrete services, which meet the interfaces
--   Tests           runs on concrete inputs
--
-- Conventions. Times are microseconds since the epoch; one handler reads the clock once, so the
-- instant is its argument `now`. A random draw (a uuid, a salt) is known by its number. A handler runs
-- to its end before the next one starts: races between requests of several workers are not modelled.
-- Identifiers of rows are natural numbers. Strings are native texts; lower- and upper-casing, strip,
-- decimal printing and `int` are operations of the runtime, and so are the tests of characters.
--
-- Parameters beside Services: whether a send to a WebSocket and a publish to Redis go through, and
-- json (Realtime); the calls of Authlib (Oauth/Clients; the routes of Oauth take the clients by their
-- interface); the object storage of boto3 and the first row that csv.reader finds (Files); the
-- tables of roles and permissions of the seeding, with the permissions in the roles (Rbac/Seeding);
-- ILIKE, the order of texts in the database, and how it arranges the rows of each query, ties in any
-- order (Pagination); the SMTP server (Mail); what Celery
-- knows of a task (Reports); email-validator (Schemas); Starlette, and the rest of the application
-- behind the layers (Middleware). ORDER BY of the feed, where no rows tie, is an operation of a table.
--
-- Every loop of the program goes along a list, so no definition of it runs on fuel; the listener of
-- Realtime, which never ends, goes along what happens to it. The clients of Pagination/Walk and
-- Pagination/Offset count their requests, and one more than there are rows is enough. A task of a
-- mail counts the retries that are left.
--
-- Not modelled: the order in which FastAPI validates a body and runs the dependencies of its route;
-- the redelivery of a task by Celery; logging, metrics, the health check and the assembly of the
-- application, which are input and output or wiring.
pub mod Base
pub mod Http
pub mod Models
pub mod Connections
pub mod Services
pub mod Tokens
pub mod Blacklist
pub mod RateLimit
pub mod Dependencies
pub mod Accounts
pub mod Auth
pub mod Memory
pub mod Profile
pub mod Realtime
pub mod Rbac
pub mod Admin
pub mod Oauth
pub mod Pagination
pub mod Settings
pub mod Middleware
pub mod UsersV2
pub mod Schemas
pub mod Reports
pub mod Mail
pub mod Cleanup
pub mod Uploads
pub mod Files
pub mod Codec
pub mod Api
mod Tests
