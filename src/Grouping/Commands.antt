-- ===== src/Grouping/Commands.antt =====
-- src/infrastructure/db/conversation-grouping.ts: merge and unmerge. The audits of the code hold the
-- texts that it wrote, so that their JSON is of the right shape.
use echohoard.Base.{
  Bool, List, Option, Result, String, [], all, any, as_result, codes, false, filter, find,
  if◌then◌else◌, length, ltb, map, nat_eq, none, not, ok, require, some, string_eq, true, truthy, ℕ,
  ◌&&◌, ◌+◌, ◌==◌, ◌>>=◌, ◌>>◌, ◌||◌, ◌∷◌,
}
use echohoard.Numbers.{is_number}
use echohoard.Reads.Requests.{default_to}
use echohoard.Privacy.{Conversation, SourceConversation, Tables}
use echohoard.Privacy.Policy.{is_conversation}
use echohoard.Privacy.Predicates.{grouping_conversation_predicate, grouping_source_predicate}
use echohoard.Grouping.{
  GroupingAction, GroupingError, GroupingRequest, GroupingResult, GroupingTables, MergeAudit,
  audit_invalid, audit_required, duplicate_key, is_one_of, left_group, locked_group, merge,
  other_action, other_command, selection_differs, stale_version, unavailable, unmerge,
}

-- The order of `sort()` on ids, by their characters.
abbrev pub codes_leb : List ℕ → List ℕ → Bool
codes_leb [] ys = true
codes_leb (x ∷ xs) [] = false
codes_leb (x ∷ xs) (y ∷ ys) = ltb x y || (x == y && codes_leb xs ys)

unfoldable pub insert_id : String → List String → List String
insert_id i [] = i ∷ []
insert_id i (j ∷ js) =
    let rest = insert_id i js in if codes_leb (codes i) (codes j) then i ∷ j ∷ js else j ∷ rest

unfoldable pub sort_ids : List String → List String
sort_ids [] = []
sort_ids (i ∷ is) = insert_id i (sort_ids is)

-- `[...new Set(ids)]`
unfoldable pub unique_ids : List String → List String
unique_ids [] = []
unique_ids (i ∷ is) = i ∷ filter (λ j. not (j == i)) (unique_ids is)

-- `sameIds`
abbrev pub same_ids : List String → List String → Bool
same_ids [] [] = true
same_ids (i ∷ is) (j ∷ js) = i == j && same_ids is js
same_ids _ _ = false

abbrev pub is_selected : String → List String → SourceConversation → Bool
is_selected archive ids s = s.archive_id == archive && is_one_of ids s.id

abbrev pub allowed_targets : Tables → GroupingRequest → List Conversation
allowed_targets db r =
    filter
      (λ (c : Conversation).
        is_conversation r.archive_id r.target_conversation_id c
        && grouping_conversation_predicate db c r.authorized_conversation_ids)
      db.conversations

abbrev pub allowed_sources : Tables → GroupingRequest → List SourceConversation
allowed_sources db r =
    filter
      (λ (s : SourceConversation).
        is_selected r.archive_id r.source_conversation_ids s
        && grouping_source_predicate db s r.authorized_conversation_ids)
      db.sources

unfoldable pub assert_authorized : Tables → GroupingRequest → Result GroupingError Unit
assert_authorized db r =
    require
      (length (allowed_targets db r) == 1
        && length (allowed_sources db r) == length r.source_conversation_ids)
      unavailable

abbrev pub is_action : GroupingAction → GroupingAction → Bool
is_action merge merge = true
is_action unmerge unmerge = true
is_action _ _ = false

unfoldable pub result_from_audit :
    MergeAudit → GroupingRequest → GroupingAction → Result GroupingError GroupingResult
result_from_audit a r expected = do
  require (is_action a.action expected) other_action
  require
      (a.target_conversation_id == r.target_conversation_id
        && same_ids (sort_ids a.source_conversation_ids) (sort_ids r.source_conversation_ids))
      other_command
  ok (record {
    archive_id = a.archive_id;
    target_conversation_id = a.target_conversation_id;
    action = expected;
    source_conversation_ids = sort_ids a.source_conversation_ids;
    version = a.resulting_version;
    audit_id = a.id;
    idempotent = true;
  })

abbrev pub has_key : GroupingRequest → MergeAudit → Bool
has_key r a = a.archive_id == r.archive_id && a.idempotency_key == r.idempotency_key

abbrev pub selected_ids : GroupingRequest → List String
selected_ids r = sort_ids (unique_ids r.source_conversation_ids)

abbrev pub selected_sources : Tables → GroupingRequest → List SourceConversation
selected_sources db r = filter (is_selected r.archive_id (selected_ids r)) db.sources

-- The checks of the transaction, up to the groups of the sources; it gives the target.
unfoldable pub prepare : Tables → GroupingRequest → Result GroupingError Conversation
prepare db r = do
  target ←
      as_result unavailable
        (find (is_conversation r.archive_id r.target_conversation_id) db.conversations)
  require (not target.grouping_locked) locked_group
  require (is_number target.grouping_version r.expected_version) stale_version
  assert_authorized db r
  require (length (selected_sources db r) == length (selected_ids r)) unavailable
  ok target

-- `previousGroups`
abbrev pub group_of : SourceConversation → String × String
group_of s = (s.id, s.unified_conversation_id)

abbrev pub recorded_group : String → List (String × String) → Option String
recorded_group id [] = none
recorded_group id ((key, group) ∷ rest) = if key == id then some group else recorded_group id rest

abbrev pub is_merge : GroupingRequest → String → MergeAudit → Bool
is_merge r id a = a.archive_id == r.archive_id && a.id == id && is_action a.action merge

-- A source that an unmerge puts back; one that was not recorded stays.
abbrev pub put_back : List (String × String) → SourceConversation → SourceConversation
put_back recorded s = record s {
  unified_conversation_id = default_to s.unified_conversation_id (recorded_group s.id recorded);
}

abbrev pub move_to : String → SourceConversation → SourceConversation
move_to target s = record s { unified_conversation_id = target }

abbrev pub chosen : GroupingRequest → SourceConversation → Bool
chosen r = is_selected r.archive_id (selected_ids r)

abbrev pub update_sources :
    (SourceConversation → SourceConversation)
    → (SourceConversation → Bool)
    → List SourceConversation
    → List SourceConversation
update_sources f test = map (λ s. if test s then f s else s)

-- The table of sources after the command.
unfoldable pub moved_sources :
    GroupingAction
    → GroupingTables
    → GroupingRequest
    → Conversation
    → Result GroupingError (List SourceConversation)
moved_sources merge db r target =
    ok (update_sources (move_to target.id) (chosen r) db.tables.sources)
moved_sources unmerge db r target = do
  id ← as_result audit_required (truthy r.audit_id)
  audit ← as_result audit_invalid (find (is_merge r id) db.audits)
  require (audit.target_conversation_id == target.id) audit_invalid
  require (same_ids (sort_ids audit.source_conversation_ids) (selected_ids r)) selection_differs
  require
      (all (λ (s : SourceConversation). s.unified_conversation_id == target.id)
        (selected_sources db.tables r))
      left_group
  ok (update_sources (put_back audit.previous_groups) (chosen r) db.tables.sources)

-- What a merge says of a title or an avatar: nothing, or the value, which may be none.
abbrev pub told : {A : Type 0} → Option A → Option (Option A) → Option A
told old none = old
told old (some new) = new

abbrev pub regrouped : GroupingAction → GroupingRequest → Conversation → Conversation
regrouped merge r c = record c {
  grouping_version = c.grouping_version + 1;
  owner_title = told c.owner_title r.owner_title;
  owner_avatar = told c.owner_avatar r.owner_avatar;
}
regrouped unmerge r c = record c { grouping_version = c.grouping_version + 1 }

abbrev pub new_audit :
    GroupingAction → String → ℕ → GroupingTables → GroupingRequest → Conversation → MergeAudit
new_audit action id now db r target = record {
  id = id;
  archive_id = r.archive_id;
  target_conversation_id = target.id;
  action = action;
  source_conversation_ids = selected_ids r;
  previous_groups = map group_of (selected_sources db.tables r);
  resulting_version = target.grouping_version + 1;
  expected_version = r.expected_version;
  actor = r.actor;
  reason = r.reason;
  idempotency_key = r.idempotency_key;
  requested_at = default_to now r.requested_at;
}

-- The tables after a command, with the new audit at the head.
abbrev pub after_command :
    GroupingAction
    → String
    → ℕ
    → GroupingTables
    → GroupingRequest
    → Conversation
    → List SourceConversation
    → GroupingTables
after_command action id now db r target sources = record {
  tables = record db.tables {
    conversations =
        map
          (λ (c : Conversation).
            if is_conversation r.archive_id target.id c then regrouped action r c else c)
          db.tables.conversations;
    sources = sources;
  };
  audits = new_audit action id now db r target ∷ db.audits;
}

-- The transaction of `run`; the audit's key is unique in its archive.
unfoldable pub transact :
    GroupingAction
    → String
    → ℕ
    → GroupingRequest
    → GroupingTables
    → Result GroupingError (GroupingTables × GroupingResult)
transact action id now r db = do
  target ← prepare db.tables r
  sources ← moved_sources action db r target
  require (not (any (has_key r) db.audits)) duplicate_key
  result ← result_from_audit (new_audit action id now db r target) r action
  ok (after_command action id now db r target sources, record result { idempotent = false })

-- `run`: the authorization and the look for an audit come before the transaction, on the tables as
-- they are then.
unfoldable pub run_grouping :
    GroupingAction
    → String
    → ℕ
    → GroupingRequest
    → GroupingTables
    → GroupingTables
    → Result GroupingError (GroupingTables × GroupingResult)
run_grouping action id now r earlier db = do
  assert_authorized earlier.tables r
  elim (find (has_key r) earlier.audits) [
    | none ↦ transact action id now r db
    | some a ↦ do result ← result_from_audit a r action; ok (db, result)
  ]
