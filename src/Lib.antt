-- ===== src/Lib.antt =====
-- Octonomy, a multi-tenant tagging service: its authorization, its scopes, its catalog of tags,
-- aliases and vocabularies, the resolution and the assignment of tags, and its outbox.
--
-- A request enters through octonomy/core/versioning.py, which reads the namespace headers into a
-- scope (Versioning, on the scopes of octonomy/core/auth.py, core/models.py and core/selectors.py in
-- Scope, and the request's parameters in Request). The permission of octonomy/core/auth.py then
-- looks the service client up by its token (Token, with octonomy/service_auth/services.py) and
-- decides by the client's grants (Grants, Permission). Errors are values (Errors, for
-- octonomy/core/errors.py). The views of a tag, an alias or a vocabulary look their object up in the
-- bounds of the request (Views) and call the services of octonomy/tags (Services, on the rows of
-- Catalog and the database of Store), which create, change, deactivate and reactivate it. A slug
-- resolves to a tag by octonomy/tags/alias_services.py (Resolution), and
-- octonomy/assignments/services.py attaches tags to resources (Assignment). What the services change
-- is audited and written to the transactional outbox of octonomy/events/models.py, and
-- octonomy/events/dispatch.py delivers it (Outbox).
--
--   Prelude            Boolean tests, lists as query sets, Python's string methods
--   Errors             core/errors.py: the exceptions, exception_handler
--   Scope              core/auth.py (ScopeContext, guard_namespace_write_enabled), core/models.py
--                      (namespace_scope_check), core/selectors.py (namespace_q, row_matches_scope,
--                      guard_scope_immutable)
--   Request            application_ids_from_request, application_filter_params,
--                      create_payload_with_scope
--   Versioning         core/versioning.py: resolve_scope_context and its checks
--   Grants             core/auth.py: grant_authorizes, authorized_application_ids and their kin
--   Token              parse_service_token, authenticate_client, mark_client_used; Laws says when a
--                      token is authentic
--   Permission         BearerTokenPermission.has_permission
--   Json               JSON values
--   Outbox.Retry       _retry_delay_seconds and the clamps of dispatch_outbox_events
--   Outbox.World       the table, the clock, the queries of one row
--   Outbox.Dispatch    the transactions: _claim_next_event, _publish_claimed_event, _mark_*,
--                      _next_expired_claim
--   Outbox.Run         the two loops of a run; Round is about one claim and its delivery, Drains
--                      about the recovery of a run, Queue about the queries, Bounds about the limits
--   Outbox.Machine     the specification: the steps of one event, with the claim, the outcome and
--                      the time as indices; Refines, Settles and Expiry relate the transactions to
--                      them
--   Outbox.Interleave  any number of dispatchers and inserts, in any order
--   Catalog            tags/models.py: Tag, TagAlias and Vocabulary with their unique constraints;
--                      in Table a table of such rows, its insert and its update
--   Resolution         tags/alias_selectors.py and tags/alias_services.py: the queries by slug,
--                      resolve_tag_reference and resolve_assignable_alias (in Resolve); in Bulk
--                      resolve_tag_ids of assignments/serializers.py, and in Sorting the order of
--                      rows, which Singly uses; Ladder has the order of the rungs of a lookup
--   Store              the database of one transaction, with the rows of assignments/models.py and
--                      audit/models.py; in Snapshots and Changes audit/services.py and
--                      events/services.py; Kept has lemmas on what a transaction keeps
--   Assignment         assignments/services.py: the checks and lookups, and in Services every
--                      service; Rows, Inserts, Steps and Newest have the lemmas for
--                      Replace, Bulk and Removal
--   Services           the tables that the services of the catalog share
--     Patch            the payload of an update, the changes that it notes and the patched row
--     Tags             tags/services.py: create_tag, update_tag, reactivate_tag, deactivate_tag
--     Aliases          tags/alias_services.py: the same of an alias
--     Vocabularies     tags/vocabulary_services.py: the same of a vocabulary
--     References       the catalog's invariant: unique rows, and active rows whose references are
--                      active and in reach
--     History          any sequence of the twelve services
--     Writes, Cascade, Tables, Loaded, TagLaws, TagUpdates, TagFlags, Deactivation, AliasLaws,
--     AliasFlags, VocabularyLaws: what each service does to the tables
--     Decided, Recorded, Runs, Comeback, Revival: what follows for a client
--   Views              tags/views.py, alias_views.py and vocabulary_views.py: the lookups, in
--                      Detail tag_detail, alias_detail and vocabulary_detail; Isolation is about
--                      the writes of tag_detail
--   Views.Listing      the selectors of the list views, and the usage counts
--
-- State is passed explicitly: an outbox transaction is a function of the table (World), which also
-- counts how often the clock was read and a UUID drawn, so that the clock and the UUIDs are
-- functions of that count. What is locked by others, the transport, the HMAC of a token, the
-- database's case-insensitive search, its orders of names and of slugs, and what other transactions
-- commit between the attempts of reactivate_tag_alias are parameters. Times are natural numbers of
-- microseconds. The loops are structural: both loops of a run are bounded by the run's limit, as in
-- the program, so that no fuel is needed. A transaction is atomic, as its row locks make it;
-- between the claim of an event and its settlement anything may happen.
--
-- Not modelled: the collection views and the views of assignments and audit logs, which parse, page
-- and render; the serializers but for their lookups of referenced rows and of alias slugs; the
-- administration site, migrations, commands, logging and metrics, which configure or observe what
-- is modelled; and the creation of tokens, which is random.
mod Prelude
pub mod Errors
pub mod Scope
pub mod Request
pub mod Versioning
pub mod Grants
pub mod Token
pub mod Permission
pub mod Json
pub mod Outbox
pub mod Catalog
pub mod Resolution
pub mod Services
pub mod Views
pub mod Store
pub mod Assignment
