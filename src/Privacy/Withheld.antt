-- ===== src/Privacy/Withheld.antt =====
-- What locking a conversation changes for readers: `updatePolicy` of
-- src/infrastructure/db/prisma-persistence.ts under src/infrastructure/db/ui-privacy.ts.
use echohoard.Base.{
  All, Any, Bool-cases, List, Result, Result-cases, String, [], ap, arith, eq_iff, find, inl, inr,
  nat_eq, ok, refl, some, string_eq, subst, sym, true, truthy, ◌&&◌, ◌==◌, ◌∙◌, ◌∷◌, ◌≡◌,
}
use echohoard.Reads.Requests.{UiReadMode, default_to, hidden, locked, ordinary}
use echohoard.Privacy.{Conversation, Tables}
use echohoard.Privacy.Policy.{
  PrivacyAudit, PrivacyError, PrivacyPolicy, UpdatePrivacyRequest, audits_of, is_conversation,
  is_mcp_access, is_ui_visibility, privacy_policy, store_policy, transition_conversation_privacy,
  update_policy, update_row, validate_policy, validate_privacy_request,
}
use echohoard.Privacy.Predicates.{
  in_group, policy_belongs_to_group, presentation_conversation_id, ui_conversation_predicate,
}
use echohoard.Privacy.Shown.{Locked, ui_conversation-IsShown}

transition-next :
    (current next : PrivacyPolicy) (r : UpdatePrivacyRequest)
    → transition_conversation_privacy current r ≡ ok next
    → next ≡ record current {
      ui_visibility = default_to current.ui_visibility (truthy r.ui_visibility);
      mcp_access = default_to current.mcp_access (truthy r.mcp_access);
    }
unfolding transition_conversation_privacy
transition-next current next r h = elim (Result-cases (validate_policy current)) [
  | inr (e, bad) ↦ cc (rw bad at h)
  | inl (u, good) ↦ elim (Result-cases (validate_privacy_request r)) [
    | inr (e, bad) ↦ cc (rw (good, bad) at h)
    | inl (v, valid) ↦
        elim (Bool-cases
          (current.archive_id == r.archive_id && current.conversation_id == r.conversation_id)) [
            | inr elsewhere ↦ cc (rw (good, valid, elsewhere) at h)
            | inl here ↦ cc (rw (good, valid, here) at h)
          ]
  ]
]

privacy_policy-current :
    (row : Conversation) (current : PrivacyPolicy)
    → privacy_policy row ≡ ok current
    → current.ui_visibility ≡ row.ui_visibility
unfolding privacy_policy
privacy_policy-current row current h = elim (Bool-cases (is_ui_visibility row.ui_visibility)) [
  | inr bad ↦ cc (rw bad at h)
  | inl good ↦ elim (Bool-cases (is_mcp_access row.mcp_access)) [
    | inr bad ↦ cc (rw (good, bad) at h)
    | inl fine ↦
        let same : (record {
          archive_id = row.archive_id;
          conversation_id = row.id;
          ui_visibility = row.ui_visibility;
          mcp_access = row.mcp_access;
          source_lock_metadata = row.source_lock_metadata;
        })
            ≡ current =
          cc (rw (good, fine) at h) in
        ap (λ (p : PrivacyPolicy). p.ui_visibility) (sym same)
  ]
]

-- What an update that succeeds has done.
record IsUpdated (r : UpdatePrivacyRequest) (db : Tables) (row : Conversation) (after : Tables)
    : Type 0 where
  next : PrivacyPolicy
  stored : after ≡ record db { conversations = update_row r next db.conversations }
  visibility : next.ui_visibility ≡ default_to row.ui_visibility (truthy r.ui_visibility)

update_policy-IsUpdated :
    (r : UpdatePrivacyRequest) (db after : Tables) (row : Conversation) (p : PrivacyPolicy)
    (audits : List PrivacyAudit)
    → find (is_conversation r.archive_id r.conversation_id) db.conversations ≡ some row
    → update_policy r db ≡ ok (after, p, audits)
    → IsUpdated r db row after
unfolding update_policy
update_policy-IsUpdated r db after row p audits found h = elim (Result-cases (privacy_policy row)) [
  | inr (e, bad) ↦ cc (rw (found, bad) at h)
  | inl (current, read) ↦ elim (Result-cases (transition_conversation_privacy current r)) [
    | inr (e, bad) ↦ cc (rw (found, read, bad) at h)
    | inl (next, moved) ↦ elim (Result-cases (privacy_policy (store_policy next row))) [
      | inr (e, bad) ↦ cc (rw (found, read, moved, bad) at h)
      | inl (updated, fine) ↦ record {
        next = next;
        stored =
            let same : ◌≡◌ {A = Result PrivacyError (Tables × PrivacyPolicy × List PrivacyAudit)}
                (ok (
                  record db { conversations = update_row r next db.conversations },
                  updated,
                  audits_of r current next,
                ))
                (ok (after, p, audits)) =
              rw (found, read, moved, fine) at h in
            sym (cc same);
        visibility =
            ap (λ (q : PrivacyPolicy). q.ui_visibility) (transition-next current next r moved)
            ∙ ap (λ v. default_to v (truthy r.ui_visibility))
                (privacy_policy-current row current read);
      }
    ]
  ]
]

all-any : {A : Type 0} (P Q : A → Type 0) (xs : List A) → All P xs → Any Q xs → (x : A) × P x × Q x
all-any P Q [] h k = elim k [ ]
all-any P Q (x ∷ xs) h (inl q) = (x, h.0, q)
all-any P Q (x ∷ xs) h (inr k) = all-any P Q xs h.1 k

found-is_conversation :
    (archive id : String) (row : Conversation) (cs : List Conversation)
    → find (is_conversation archive id) cs ≡ some row
    → is_conversation archive id row ≡ true
found-is_conversation archive id row [] h = cc h
found-is_conversation archive id row (c ∷ cs) h = elim (Bool-cases (is_conversation archive id c)) [
  | inl e ↦
      let same : c ≡ row = cc (rw e at h) in subst (λ x. is_conversation archive id x ≡ true) same e
  | inr e ↦ found-is_conversation archive id row cs (rw e at h)
]

module _ (r : UpdatePrivacyRequest) (next : PrivacyPolicy) (row : Conversation)
    (Q : Conversation → Type 0) where
  -- The row that was found is there with its new policy.
  updated-Any :
      (cs : List Conversation)
      → find (is_conversation r.archive_id r.conversation_id) cs ≡ some row
      → Q (store_policy next row)
      → Any Q (update_row r next cs)
  updated-Any [] h q = cc h
  updated-Any (c ∷ cs) h q = elim (Bool-cases (is_conversation r.archive_id r.conversation_id c)) [
    | inl e ↦
        let same : c ≡ row = cc (rw e at h) in
        inl (rw e (subst (λ x. Q (store_policy next x)) (sym same) q))
    | inr e ↦ inr (updated-Any cs (rw e at h) q)
  ]

Any-weaken :
    {A : Type 0} (P Q : A → Type 0) (xs : List A) → ((x : A) → P x → Q x) → Any P xs → Any Q xs
Any-weaken P Q [] f h = elim h [ ]
Any-weaken P Q (x ∷ xs) f (inl p) = inl (f x p)
Any-weaken P Q (x ∷ xs) f (inr k) = inr (Any-weaken P Q xs f k)

module _ (r : UpdatePrivacyRequest) (db : Tables) (next : PrivacyPolicy) (row : Conversation)
    (id : String) where
  abbrev after_update : Tables
  after_update = record db { conversations = update_row r next db.conversations }

  -- The policy that was locked, after the update.
  abbrev IsTheLocked : Conversation → Type 0
  IsTheLocked p = Locked after_update r.archive_id id p × (p.id ≡ r.conversation_id)

  locked-Any :
      find (is_conversation r.archive_id r.conversation_id) db.conversations ≡ some row
      → next.ui_visibility ≡ "locked"
      → in_group db r.archive_id (presentation_conversation_id db r.archive_id id) row ≡ true
      → Any IsTheLocked after_update.conversations
  unfolding presentation_conversation_id policy_belongs_to_group
  locked-Any found now_locked inside =
      let there = found-is_conversation r.archive_id r.conversation_id row db.conversations found in
      updated-Any r next row IsTheLocked db.conversations found (
        rw now_locked (ground (arith, inside)),
        (eq_iff row.id r.conversation_id).0 (ground (arith, there)),
      )

  shown-Authorized :
      (mode : UiReadMode) (ids : List String)
      → Any IsTheLocked after_update.conversations
      → ui_conversation_predicate mode ids after_update r.archive_id id ≡ true
      → (mode ≡ locked) × Any (λ i. (r.conversation_id == i) ≡ true) ids
  shown-Authorized ordinary ids k shown =
      let promise = (ui_conversation-IsShown after_update r.archive_id id ids ordinary).0 shown in
      absurd (
        promise.0 (
          Any-weaken IsTheLocked (Locked after_update r.archive_id id) after_update.conversations
            (λ p q. q.0) k))
  shown-Authorized hidden ids k shown =
      let promise = (ui_conversation-IsShown after_update r.archive_id id ids hidden).0 shown in
      absurd (
        promise.0 (
          Any-weaken IsTheLocked (Locked after_update r.archive_id id) after_update.conversations
            (λ p q. q.0) k))
  shown-Authorized locked ids k shown =
      let promise = (ui_conversation-IsShown after_update r.archive_id id ids locked).0 shown in
      let (p, authorized, (the_locked, same)) =
        all-any _ IsTheLocked after_update.conversations promise.1 k in
      (refl, subst (λ x. Any (λ i. (x == i) ≡ true) ids) same (authorized the_locked))

-- Once an update has locked a conversation, every conversation of whose group it is one is shown to
-- readers of the web delivery in the locked view only, and only if they are authorized for the
-- conversation that was locked.
pub update_policy-withheld :
    (r : UpdatePrivacyRequest) (db after : Tables) (row : Conversation) (p : PrivacyPolicy)
    (audits : List PrivacyAudit) (id : String) (mode : UiReadMode) (ids : List String)
    → find (is_conversation r.archive_id r.conversation_id) db.conversations ≡ some row
    → update_policy r db ≡ ok (after, p, audits)
    → r.ui_visibility ≡ some "locked"
    → in_group db r.archive_id (presentation_conversation_id db r.archive_id id) row ≡ true
    → ui_conversation_predicate mode ids after r.archive_id id ≡ true
    → (mode ≡ locked) × Any (λ i. (r.conversation_id == i) ≡ true) ids
update_policy-withheld r db after row p audits id mode ids found h wanted inside shown =
    let u = update_policy-IsUpdated r db after row p audits found h in
    let now_locked : u.next.ui_visibility ≡ "locked" =
      u.visibility ∙ ap (λ v. default_to row.ui_visibility (truthy v)) wanted in
    shown-Authorized r db u.next row id mode ids
      (locked-Any r db u.next row id found now_locked inside)
      (subst (λ t. ui_conversation_predicate mode ids t r.archive_id id ≡ true) u.stored shown)
