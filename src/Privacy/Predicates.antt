-- ===== src/Privacy/Predicates.antt =====
-- src/infrastructure/db/ui-privacy.ts: the conditions as tests on the rows of the tables. A statement
-- without an order may take any row: here it is the first of the table.
use echohoard.Base.{
  Bool, List, String, [], any, find, if◌then◌else◌, is_some_of, max, nat_eq, none, not, some,
  string_eq, true, ℕ, ◌&&◌, ◌==◌, ◌||◌, ◌∷◌,
}
use echohoard.Reads.Requests.{ReadAccess, UiReadMode, hidden, locked, ordinary}
use echohoard.Privacy.{Conversation, Message, Participant, SourceConversation, Tables}

abbrev pub is_message_of : SourceConversation → String → Message → Bool
is_message_of s id m =
    m.archive_id == s.archive_id
    && is_some_of m.source_conversation_id s.id
    && m.conversation_id == id

abbrev pub is_participant_of : SourceConversation → String → Participant → Bool
is_participant_of s id p =
    p.archive_id == s.archive_id
    && is_some_of p.source_conversation_id s.id
    && p.conversation_id == id

-- The source is the conversation, or has a message or a participant in it.
abbrev pub is_source_for : Tables → String → SourceConversation → Bool
is_source_for db id s =
    s.id == id
    || any (is_message_of s id) db.messages
    || any (is_participant_of s id) db.participants

unfoldable pub policy_belongs_to_group : Tables → Conversation → String → Bool
policy_belongs_to_group db policy group =
    policy.id == group
    || any
        (λ (s : SourceConversation).
          s.archive_id == policy.archive_id
          && s.unified_conversation_id == group
          && is_source_for db policy.id s)
        db.sources

unfoldable pub presentation_conversation_id : Tables → String → String → String
presentation_conversation_id db archive id =
    elim (find (λ (s : SourceConversation). s.archive_id == archive && is_source_for db id s)
      db.sources) [ none ↦ id | some s ↦ s.unified_conversation_id ]

-- The policies of a group.
abbrev pub in_group : Tables → String → String → Conversation → Bool
in_group db archive group policy =
    policy.archive_id == archive && policy_belongs_to_group db policy group

abbrev pub policy_rank : Conversation → ℕ
policy_rank p =
    if p.ui_visibility == "locked" then 2 else if p.ui_visibility == "hidden" then 1 else 0

-- `COALESCE(MAX(...), 0)` over the rows that the test takes.
unfoldable pub max_rank : (Conversation → Bool) → List Conversation → ℕ
max_rank test [] = 0
max_rank test (p ∷ ps) =
    let rest = max_rank test ps in if test p then max (policy_rank p) rest else rest

unfoldable pub effective_policy_rank : Tables → String → String → ℕ
effective_policy_rank db archive id =
    max_rank (in_group db archive (presentation_conversation_id db archive id)) db.conversations

abbrev pub is_unauthorized : List String → Conversation → Bool
is_unauthorized [] p = true
is_unauthorized ids p = not (any (λ id. p.id == id) ids)

abbrev pub is_locked : Conversation → Bool
is_locked p = p.ui_visibility == "locked"

abbrev pub is_hidden : Conversation → Bool
is_hidden p = p.ui_visibility == "hidden"

abbrev pub expected_rank : UiReadMode → ℕ
expected_rank ordinary = 0
expected_rank hidden = 1
expected_rank locked = 2

-- No locked policy of the group without authorization.
abbrev pub all_authorized : List String → Tables → String → String → Bool
all_authorized ids db archive group = not (
    any (λ p. in_group db archive group p && is_locked p && is_unauthorized ids p) db.conversations)

abbrev pub authorizes : UiReadMode → List String → Tables → String → String → Bool
authorizes locked ids db archive id =
    all_authorized ids db archive (presentation_conversation_id db archive id)
authorizes _ ids db archive id = true

unfoldable pub ui_conversation_predicate :
    UiReadMode → List String → Tables → String → String → Bool
ui_conversation_predicate mode ids db archive id =
    effective_policy_rank db archive id == expected_rank mode && authorizes mode ids db archive id

unfoldable pub mcp_conversation_predicate : Tables → String → String → Bool
mcp_conversation_predicate db archive id =
    let group = presentation_conversation_id db archive id in
    not (any (λ p. in_group db archive group p && p.mcp_access == "denied") db.conversations)

unfoldable pub conversation_privacy_predicate : ReadAccess → Tables → String → String → Bool
conversation_privacy_predicate a db archive id =
    if a.mcp_access
    then mcp_conversation_predicate db archive id
    else ui_conversation_predicate a.ui_mode a.authorized_conversation_ids db archive id

-- A row of a conversation that is there and may be disclosed.
abbrev pub is_disclosed : Tables → String → String → Bool
is_disclosed db archive id =
    any
      (λ (c : Conversation).
        c.archive_id == archive
        && c.id == id
        && c.materialized
        && mcp_conversation_predicate db c.archive_id c.id)
      db.conversations

unfoldable pub mcp_person_predicate : Tables → String → String → Bool
mcp_person_predicate db archive person =
    any
      (λ (p : Participant).
        p.archive_id == archive
        && p.person_id == person
        && is_disclosed db p.archive_id p.conversation_id)
      db.participants
    || any
        (λ (m : Message).
          m.archive_id == archive
          && is_some_of m.sender_id person
          && m.materialized
          && is_disclosed db m.archive_id m.conversation_id)
        db.messages

unfoldable pub grouping_policy_predicate : Tables → String → String → List String → Bool
grouping_policy_predicate db archive group ids =
    not (any (λ p. in_group db archive group p && is_hidden p) db.conversations)
    && all_authorized ids db archive group

unfoldable pub grouping_conversation_predicate : Tables → Conversation → List String → Bool
grouping_conversation_predicate db c ids =
    grouping_policy_predicate db c.archive_id (presentation_conversation_id db c.archive_id c.id)
      ids

unfoldable pub grouping_source_predicate : Tables → SourceConversation → List String → Bool
grouping_source_predicate db s ids =
    grouping_policy_predicate db s.archive_id s.unified_conversation_id ids
