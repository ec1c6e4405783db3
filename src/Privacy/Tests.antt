-- ===== src/Privacy/Tests.antt =====
-- Two conversations of one group, one of them locked, and the theorems about privacy at them.
use echohoard.Base.{
  Any, String, [], false, is_blank, nat_eq, none, ok, refl, some, string_eq, true, ◌==◌, ◌↔◌, ◌∷◌,
  ◌≡◌,
}
use echohoard.Reads.Requests.{locked}
use echohoard.Privacy.{Conversation, SourceConversation, Tables}
use echohoard.Privacy.Policy.{
  PrivacyPolicy, UpdatePrivacyRequest, audit_of, privacy_policy, set_ui_visibility,
  transition_conversation_privacy, update_policy, validate_policy, validate_privacy_request,
}
use echohoard.Privacy.Predicates.{
  effective_policy_rank, in_group, max_rank, policy_belongs_to_group, presentation_conversation_id,
  ui_conversation_predicate,
}
use echohoard.Privacy.Shown.{IsShown, ui_conversation-IsShown}
use echohoard.Privacy.Withheld.{update_policy-withheld}

abbrev conversation : String → String → Conversation
conversation id visibility = record {
  archive_id = "archive";
  id = id;
  ui_visibility = visibility;
  mcp_access = "allowed";
  source_lock_metadata = none;
  materialized = true;
  grouping_version = 0;
  grouping_locked = false;
  owner_title = none;
  owner_avatar = none;
}

abbrev secret_source : SourceConversation
secret_source = record { archive_id = "archive"; id = "secret"; unified_conversation_id = "family" }

-- The conversation "secret" with its visibility, in the group of "family".
abbrev tables_with : String → Tables
tables_with visibility = record {
  conversations = conversation "family" "normal" ∷ conversation "secret" visibility ∷ [];
  sources = secret_source ∷ [];
  messages = [];
  participants = [];
}

abbrev lock_request : UpdatePrivacyRequest
lock_request = record {
  archive_id = "archive";
  conversation_id = "secret";
  actor_id = "owner";
  ui_visibility = some "locked";
  mcp_access = none;
  requested_at = none;
}

abbrev locked_policy : PrivacyPolicy
locked_policy = record {
  archive_id = "archive";
  conversation_id = "secret";
  ui_visibility = "locked";
  mcp_access = "allowed";
  source_lock_metadata = none;
}

secret-locked :
    update_policy lock_request (tables_with "normal")
    ≡ ok (tables_with "locked", locked_policy, audit_of lock_request set_ui_visibility ∷ [])
unfolding update_policy privacy_policy transition_conversation_privacy validate_policy
    validate_privacy_request is_blank
secret-locked = refl

secret-in_group :
    in_group
      (tables_with "normal")
      "archive"
      (presentation_conversation_id (tables_with "normal") "archive" "family")
      (conversation "secret" "normal")
    ≡ true
unfolding presentation_conversation_id policy_belongs_to_group
secret-in_group = refl

family-shown :
    ui_conversation_predicate locked ("secret" ∷ []) (tables_with "locked") "archive" "family"
    ≡ true
unfolding ui_conversation_predicate effective_policy_rank max_rank presentation_conversation_id
    policy_belongs_to_group
family-shown = refl

ui_conversation-IsShown_example :
    (ui_conversation_predicate locked ("secret" ∷ []) (tables_with "locked") "archive" "family"
      ≡ true)
    ↔ IsShown (tables_with "locked") "archive" "family" ("secret" ∷ []) locked
ui_conversation-IsShown_example =
    ui_conversation-IsShown (tables_with "locked") "archive" "family" ("secret" ∷ []) locked

update_policy-withheld_example :
    (locked ≡ locked) × Any {A = String} (λ i. ("secret" == i) ≡ true) ("secret" ∷ [])
update_policy-withheld_example =
    update_policy-withheld lock_request (tables_with "normal") (tables_with "locked")
      (conversation "secret" "normal") locked_policy (audit_of lock_request set_ui_visibility ∷ [])
      "family" locked ("secret" ∷ []) refl secret-locked refl secret-in_group family-shown
