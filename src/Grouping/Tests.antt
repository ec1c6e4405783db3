-- ===== src/Grouping/Tests.antt =====
-- A source that is merged into another conversation and taken out again.
use echohoard.Base.{Option, String, [], false, none, ok, refl, some, true, ℕ, ◌∷◌, ◌≡◌}
use echohoard.Numbers.{finite}
use echohoard.Privacy.{Conversation, Tables}
use echohoard.Privacy.Predicates.{
  grouping_conversation_predicate, grouping_policy_predicate, grouping_source_predicate,
  policy_belongs_to_group, presentation_conversation_id,
}
use echohoard.Grouping.{
  GroupingAction, GroupingRequest, GroupingResult, GroupingTables, merge, unmerge,
}
use echohoard.Grouping.Commands.{
  after_command, assert_authorized, insert_id, moved_sources, prepare, result_from_audit, sort_ids,
  transact, unique_ids,
}
use echohoard.Grouping.Reversal.{unmerge-merge}

abbrev conversation : String → ℕ → Conversation
conversation id version = record {
  archive_id = "archive";
  id = id;
  ui_visibility = "normal";
  mcp_access = "allowed";
  source_lock_metadata = none;
  materialized = true;
  grouping_version = version;
  grouping_locked = false;
  owner_title = none;
  owner_avatar = none;
}

-- The tables with the version of the target and the group of the one source.
abbrev tables_at : ℕ → String → Tables
tables_at version group = record {
  conversations = conversation "family" version ∷ conversation "alone" 0 ∷ [];
  sources = record { archive_id = "archive"; id = "source"; unified_conversation_id = group } ∷ [];
  messages = [];
  participants = [];
}

abbrev apart : GroupingTables
apart = record { tables = tables_at 0 "alone"; audits = [] }

abbrev request : ℕ → String → Option String → GroupingRequest
request version key audit = record {
  archive_id = "archive";
  target_conversation_id = "family";
  source_conversation_ids = "source" ∷ [];
  expected_version = finite false version 0;
  actor = "owner";
  reason = "one chat";
  idempotency_key = key;
  owner_title = none;
  owner_avatar = none;
  audit_id = audit;
  requested_at = none;
  authorized_conversation_ids = [];
}

abbrev merge_request : GroupingRequest
merge_request = request 0 "first" none

abbrev unmerge_request : GroupingRequest
unmerge_request = request 1 "second" (some "audit-1")

abbrev together : GroupingTables
together =
    after_command merge "audit-1" 10 apart merge_request (conversation "family" 0)
      (tables_at 1 "family").sources

abbrev again : GroupingTables
again =
    after_command unmerge "audit-2" 20 together unmerge_request (conversation "family" 1)
      (tables_at 2 "alone").sources

abbrev result : GroupingAction → ℕ → String → GroupingResult
result action version id = record {
  archive_id = "archive";
  target_conversation_id = "family";
  action = action;
  source_conversation_ids = "source" ∷ [];
  version = version;
  audit_id = id;
  idempotent = false;
}

source-merged :
    transact merge "audit-1" 10 merge_request apart ≡ ok (together, result merge 1 "audit-1")
unfolding transact prepare assert_authorized moved_sources result_from_audit sort_ids insert_id
    unique_ids grouping_conversation_predicate grouping_source_predicate grouping_policy_predicate
    presentation_conversation_id policy_belongs_to_group
source-merged = refl

source-unmerged :
    transact unmerge "audit-2" 20 unmerge_request together ≡ ok (again, result unmerge 2 "audit-2")
unfolding transact prepare assert_authorized moved_sources result_from_audit sort_ids insert_id
    unique_ids grouping_conversation_predicate grouping_source_predicate grouping_policy_predicate
    presentation_conversation_id policy_belongs_to_group
source-unmerged = refl

unmerge-merge_example : again.tables.sources ≡ apart.tables.sources
unmerge-merge_example =
    unmerge-merge "audit-1" "audit-2" 10 20 merge_request unmerge_request apart together again
      (result merge 1 "audit-1") (result unmerge 2 "audit-2") (tt, tt) source-merged refl refl refl
      source-unmerged
