-- ===== src/Grouping/Reversal.antt =====
-- An unmerge after a merge: src/infrastructure/db/conversation-grouping.ts.
use echohoard.Base.{
  All, Bool, Bool-cases, List, Result, Result-cases, String, [], all, any, ap, differ, false,
  filter, find, if◌then◌else◌, inl, inr, map, nat_eq, ok, refl, some, string_eq, subst, sym, true,
  truthy, ℕ, ◌==◌, ◌∙◌, ◌∷◌, ◌≡◌,
}
use echohoard.Privacy.{Conversation, SourceConversation}
use echohoard.Grouping.Commands.{
  after_command, chosen, group_of, has_key, is_merge, is_selected, move_to, moved_sources,
  new_audit, prepare, put_back, recorded_group, result_from_audit, same_ids, selected_ids,
  selected_sources, sort_ids, transact, unique_ids, update_sources,
}
use echohoard.Grouping.{
  GroupingAction, GroupingError, GroupingRequest, GroupingResult, GroupingTables, MergeAudit, merge,
  unmerge,
}

-- Each source has its own id.
abbrev pub IsKeyed : List SourceConversation → Type 0
IsKeyed [] = Unit
IsKeyed (s ∷ ss) = All (λ (t : SourceConversation). (s.id == t.id) ≡ false) ss × IsKeyed ss

module _ (test : SourceConversation → Bool) where
  abbrev IsRecorded : List (String × String) → SourceConversation → Type 0
  IsRecorded recorded s =
      test s ≡ true → recorded_group s.id recorded ≡ some s.unified_conversation_id

  IsRecorded-further :
      (s : SourceConversation) (recorded : List (String × String)) (ss : List SourceConversation)
      → All (λ (t : SourceConversation). (s.id == t.id) ≡ false) ss
      → All (IsRecorded recorded) ss
      → All (IsRecorded (group_of s ∷ recorded)) ss
  IsRecorded-further s recorded [] apart h = tt
  IsRecorded-further s recorded (t ∷ ss) apart h =
      (λ e. rw (apart.0) (h.0 e), IsRecorded-further s recorded ss apart.1 h.1)

  -- Every source that the test takes is recorded with its group.
  all-IsRecorded :
      (ss : List SourceConversation)
      → IsKeyed ss
      → All (IsRecorded (map group_of (filter test ss))) ss
  all-IsRecorded [] keyed = tt
  all-IsRecorded (s ∷ ss) keyed =
      let rest = all-IsRecorded ss keyed.1 in
      elim (Bool-cases (test s)) [
        | inr out ↦
            let same : filter test (s ∷ ss) ≡ filter test ss = rw out refl in
            subst (λ l. All (IsRecorded (map group_of l)) (s ∷ ss)) (sym same)
              ((λ e. let never : true ≡ false = sym e ∙ out in cc never), rest)
        | inl there ↦
            let same : filter test (s ∷ ss) ≡ (s ∷ filter test ss) = rw there refl in
            subst (λ l. All (IsRecorded (map group_of l)) (s ∷ ss)) (sym same)
              (
                λ e. rw ((string_eq.same_iff s.id s.id).1 refl) refl,
                IsRecorded-further s (map group_of (filter test ss)) ss keyed.0 rest,
              )
      ]

module _ (archive target : String) (ids : List String) where
  put_back-one :
      (recorded : List (String × String)) (s : SourceConversation)
      → IsRecorded (is_selected archive ids) recorded s
      → let moved = if is_selected archive ids s then move_to target s else s in
        (if is_selected archive ids moved then put_back recorded moved else moved) ≡ s
  put_back-one recorded s h = elim (Bool-cases (is_selected archive ids s)) [
    | inl there ↦ rw there (rw there (rw (h there) refl))
    | inr out ↦ rw out (rw out refl)
  ]

  -- A recorded source comes back from the target to its group.
  put_back-move_to :
      (recorded : List (String × String)) (ss : List SourceConversation)
      → All (IsRecorded (is_selected archive ids) recorded) ss
      → update_sources
          (put_back recorded)
          (is_selected archive ids)
          (update_sources (move_to target) (is_selected archive ids) ss)
        ≡ ss
  put_back-move_to recorded [] h = refl
  put_back-move_to recorded (s ∷ ss) h =
      let rest = put_back-move_to recorded ss h.1 in
      let one = put_back-one recorded s h.0 in rw (one, rest) refl

transact-after :
    (action : GroupingAction) (id : String) (now : ℕ) (r : GroupingRequest)
    (db after : GroupingTables) (result : GroupingResult)
    → transact action id now r db ≡ ok (after, result)
    → (target : Conversation) × (sources : List SourceConversation) × (moved_sources action db r
          target
        ≡ ok sources)
      × (after_command action id now db r target sources ≡ after)
unfolding transact
transact-after action id now r db after result h = elim (Result-cases (prepare db.tables r)) [
  | inr (e, bad) ↦ cc (rw bad at h)
  | inl (target, ready) ↦ elim (Result-cases (moved_sources action db r target)) [
    | inr (e, bad) ↦ cc (rw (ready, bad) at h)
    | inl (sources, moved) ↦ elim (Bool-cases (any (has_key r) db.audits)) [
      | inl used ↦ cc (rw (ready, moved, used) at h)
      | inr fresh ↦
          elim (Result-cases (result_from_audit (new_audit action id now db r target) r action)) [
            | inr (e, bad) ↦ cc (rw (ready, moved, fresh, bad) at h)
            | inl (made, good) ↦
                let same : ◌≡◌ {A = Result GroupingError (GroupingTables × GroupingResult)}
                    (ok (
                      after_command action id now db r target sources,
                      record made { idempotent = false },
                    ))
                    (ok (after, result)) =
                  rw (ready, moved, fresh, good) at h in
                (target, sources, moved, cc same)
          ]
    ]
  ]
]

unmerged-sources :
    (db : GroupingTables) (r : GroupingRequest) (target : Conversation) (a : MergeAudit)
    (id : String) (sources : List SourceConversation)
    → truthy r.audit_id ≡ some id
    → find (is_merge r id) db.audits ≡ some a
    → moved_sources unmerge db r target ≡ ok sources
    → update_sources (put_back a.previous_groups) (chosen r) db.tables.sources ≡ sources
unfolding moved_sources
unmerged-sources db r target a id sources named found h =
    elim (Bool-cases (a.target_conversation_id == target.id)) [
      | inr other ↦ cc (rw (named, found, other) at h)
      | inl here ↦
          elim (Bool-cases (same_ids (sort_ids a.source_conversation_ids) (selected_ids r))) [
            | inr differ ↦ cc (rw (named, found, here, differ) at h)
            | inl agree ↦
                elim (Bool-cases (
                  all (λ (s : SourceConversation). s.unified_conversation_id == target.id)
                    (selected_sources db.tables r))) [
                      | inr left ↦ cc (rw (named, found, here, agree, left) at h)
                      | inl inside ↦ cc (rw (named, found, here, agree, inside) at h)
                    ]
          ]
    ]

merge-found :
    (id : String) (now : ℕ) (m r : GroupingRequest) (db : GroupingTables) (target : Conversation)
    (rest : List MergeAudit)
    → r.archive_id ≡ m.archive_id
    → find (is_merge r id) (new_audit merge id now db m target ∷ rest)
      ≡ some (new_audit merge id now db m target)
merge-found id now m r db target rest archive =
    rw
      (
        (string_eq.same_iff m.archive_id r.archive_id).1 (sym archive),
        (string_eq.same_iff id id).1 refl,
      )
      refl

-- Where each source has its own id, an unmerge right after a merge that names its audit and its sources
-- leaves every source in the group that it was in before, whatever groups the sources came from.
pub unmerge-merge :
    (merged_id unmerged_id : String) (now later : ℕ) (m r : GroupingRequest)
    (db between after : GroupingTables) (merged unmerged : GroupingResult)
    → IsKeyed db.tables.sources
    → transact merge merged_id now m db ≡ ok (between, merged)
    → r.archive_id ≡ m.archive_id
    → r.source_conversation_ids ≡ m.source_conversation_ids
    → truthy r.audit_id ≡ some merged_id
    → transact unmerge unmerged_id later r between ≡ ok (after, unmerged)
    → after.tables.sources ≡ db.tables.sources
unfolding moved_sources
unmerge-merge merged_id unmerged_id now later m r db between after merged unmerged keyed h archive
      ids named k =
    let (target, sources, moved, made) = transact-after merge merged_id now m db between merged h in
    let (target', sources', moved', made') =
      transact-after unmerge unmerged_id later r between after unmerged k in
    let audit = new_audit merge merged_id now db m target in
    let found : find (is_merge r merged_id) between.audits ≡ some audit =
      subst (λ (t : GroupingTables). find (is_merge r merged_id) t.audits ≡ some audit) made
        (merge-found merged_id now m r db target db.audits archive) in
    let back = unmerged-sources between r target' audit merged_id sources' named found moved' in
    let there : update_sources (move_to target.id) (chosen m) db.tables.sources
        ≡ between.tables.sources =
      cc moved ∙ ap (λ (t : GroupingTables). t.tables.sources) made in
    let same : chosen r ≡ chosen m =
      ap (λ a. is_selected a (selected_ids r)) archive
      ∙ ap (λ l. is_selected m.archive_id (sort_ids (unique_ids l))) ids in
    ap (λ (t : GroupingTables). t.tables.sources) (sym made')
    ∙ sym back
    ∙ ap (λ t. update_sources (put_back audit.previous_groups) t between.tables.sources) same
    ∙ ap (λ l. update_sources (put_back audit.previous_groups) (chosen m) l) (sym there)
    ∙ put_back-move_to m.archive_id target.id (selected_ids m) audit.previous_groups
        db.tables.sources (all-IsRecorded (chosen m) db.tables.sources keyed)
