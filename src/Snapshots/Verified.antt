-- ===== src/Snapshots/Verified.antt =====
-- A snapshot is made of files that arrived whole: src/application/echohoard.ts.
use echohoard.Base.{
  All, Bool-cases, List, Option, Result, Result-cases, String, [], ap, arith, err, false, inl, inr,
  nat_eq, none, ok, some, string_eq, subst, sym, true, ◌==◌, ◌∙◌, ◌∷◌, ◌≡◌,
}
use echohoard.Jobs.States.{DeliveryFile, Snapshot, job_status_eq}
use echohoard.Snapshots.{
  CreateError, SnapshotManifestEntry, SnapshotWorld, copy_files, create, create_new, hash_files,
  is_expected, publish_or_find, sort_files,
}

module _ (w : SnapshotWorld) where
  -- The copy of the file hashes to what the claimed file hashed to.
  pub record IsWhole (f : DeliveryFile) : Type 0 where
    pub hash : String
    pub at_claim : w.claimed_hash f.name ≡ ok hash
    pub at_copy : w.copied_hash f.name ≡ ok hash

  abbrev IsHashed : SnapshotManifestEntry → Type 0
  IsHashed e = w.claimed_hash e.filename ≡ ok e.sha256

  hash_files-IsHashed :
      (files : List DeliveryFile) (entries : List SnapshotManifestEntry)
      → hash_files w files ≡ ok entries
      → All IsHashed entries
  unfolding hash_files
  hash_files-IsHashed [] entries h =
      let same : ◌≡◌ {A = List SnapshotManifestEntry} [] entries = cc h in
      subst (All IsHashed) same tt
  hash_files-IsHashed (f ∷ files) entries h = elim (Result-cases (w.claimed_hash f.name)) [
    | inr (e, bad) ↦ cc (rw bad at h)
    | inl (hash, good) ↦ elim (Result-cases (hash_files w files)) [
      | inr (e, bad) ↦ cc (rw (good, bad) at h)
      | inl (rest, all_good) ↦
          let same : (record { filename = f.name; size = f.size; sha256 = hash } ∷ rest) ≡ entries =
            cc (rw (good, all_good) at h) in
          subst (All IsHashed) same (good, hash_files-IsHashed files rest all_good)
    ]
  ]

  found-IsHashed :
      (entries : List SnapshotManifestEntry) (name : String) (hash : String)
      → All IsHashed entries
      → is_expected w entries name hash ≡ true
      → w.claimed_hash name ≡ ok hash
  found-IsHashed [] name hash a h = cc
  found-IsHashed (e ∷ entries) name hash a h = elim (Bool-cases (e.filename == name)) [
    | inl hit ↦
        let named = (string_eq.same_iff e.filename name).0 hit in
        let hashed = (string_eq.same_iff hash e.sha256).0 (rw (hit, is_expected) at h) in
        ap w.claimed_hash (sym named) ∙ a.0 ∙ ap ok (sym hashed)
    | inr miss ↦ found-IsHashed entries name hash a.1 (rw (miss, is_expected) at h)
  ]

  copy_files-IsWhole :
      (entries : List SnapshotManifestEntry) (files : List DeliveryFile)
      → All IsHashed entries
      → copy_files w entries files ≡ ok tt
      → All IsWhole files
  unfolding copy_files
  copy_files-IsWhole entries [] a h = tt
  copy_files-IsWhole entries (f ∷ files) a h = elim (Result-cases (w.copied f.name)) [
    | inr (e, bad) ↦ cc (rw bad at h)
    | inl (u, done) ↦ elim (Result-cases (w.copied_hash f.name)) [
      | inr (e, bad) ↦ cc (rw (done, bad) at h)
      | inl (hash, hashed) ↦ elim (Bool-cases (is_expected w entries f.name hash)) [
        | inr differs ↦ cc (rw (done, hashed, differs) at h)
        | inl agrees ↦ (
          record {
            hash = hash;
            at_claim = found-IsHashed entries f.name hash a agrees;
            at_copy = hashed;
          },
          copy_files-IsWhole entries files a (rw (done, hashed, agrees) at h),
        )
      ]
    ]
  ]

  -- Why a new snapshot was made.
  pub record IsNew (files : List DeliveryFile) (s : Snapshot) : Type 0 where
    pub entries : List SnapshotManifestEntry
    pub listed : hash_files w (sort_files w files) ≡ ok entries
    pub missing : w.found (w.sha256 entries) ≡ ok none
    pub whole : All IsWhole (sort_files w files)
    pub recorded : w.manifest entries ≡ ok tt
    pub published_at : w.published ≡ ok s.path
    pub named_after : s.source_hash ≡ w.sha256 entries

  publish_or_find-new :
      (delivery_id hash : String) (r : Result CreateError String) (s : Snapshot)
      → publish_or_find w delivery_id hash r ≡ ok (s, false)
      → (r ≡ ok s.path) × (s.source_hash ≡ hash)
  unfolding publish_or_find
  publish_or_find-new delivery_id hash (ok path) s h = ground arith
  publish_or_find-new delivery_id hash (err e) s h = elim (Result-cases (w.found_later hash)) [
    | inr (e, bad) ↦ cc (rw bad at h)
    | inl (none, looked) ↦ cc (rw looked at h)
    | inl (some t, looked) ↦ cc (rw looked at h)
  ]

  create_new-IsNew :
      (delivery_id : String) (files : List DeliveryFile) (entries : List SnapshotManifestEntry)
      (s : Snapshot)
      → hash_files w (sort_files w files) ≡ ok entries
      → (o : Option Snapshot) → w.found (w.sha256 entries) ≡ ok o
      → create_new w delivery_id (sort_files w files) entries o ≡ ok (s, false)
      → IsNew files s
  unfolding create_new copy_files sort_files publish_or_find
  create_new-IsNew delivery_id files entries s listed (some t) looked h = cc h
  create_new-IsNew delivery_id files entries s listed none looked h =
      elim (Result-cases w.staging) [
        | inr (e, bad) ↦ cc (rw bad at h)
        | inl (staging, staged) ↦ elim (Result-cases (copy_files w entries (sort_files w files))) [
          | inr (e, bad) ↦ cc (rw (staged, bad) at h)
          | inl (u, copied) ↦ elim (Result-cases (w.manifest entries)) [
            | inr (e, bad) ↦ cc (rw (staged, copied, bad) at h)
            | inl (v, written) ↦
                let last : publish_or_find w delivery_id (w.sha256 entries) w.published
                    ≡ ok (s, false) =
                  rw (staged, copied, written) at h in
                let (published, named) = publish_or_find-new delivery_id _ _ s last in
                record {
                  entries = entries;
                  listed = listed;
                  missing = looked;
                  whole = copy_files-IsWhole entries _ (hash_files-IsHashed _ _ listed) copied;
                  recorded = written;
                  published_at = published;
                  named_after = named;
                }
          ]
        ]
      ]

  -- A snapshot is reported as new only if no ready snapshot had the hash of its list of files, every
  -- copied file hashed to what the claimed file had hashed to, its list of files was written, and the
  -- store published it at the path that is reported.
  pub create-IsNew :
      (delivery_id : String) (files : List DeliveryFile) (s : Snapshot)
      → create w delivery_id files ≡ ok (s, false)
      → IsNew files s
  unfolding create
  create-IsNew delivery_id files s h = elim (Result-cases (hash_files w (sort_files w files))) [
    | inr (e, bad) ↦ cc (rw bad at h)
    | inl (entries, listed) ↦ elim (Result-cases (w.found (w.sha256 entries))) [
      | inr (e, bad) ↦ cc (rw (listed, bad) at h)
      | inl (o, looked) ↦
          create_new-IsNew delivery_id files entries s listed o looked (rw (listed, looked) at h)
    ]
  ]
