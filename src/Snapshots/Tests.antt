-- ===== src/Snapshots/Tests.antt =====
-- A concrete delivery, and the theorems about it.
use echohoard.Base.{
  String, [], false, nat_eq, none, ok, refl, some, string_eq, ◌==◌, ◌∷◌, ◌≡◌, ◌≢◌, ◌⊎◌,
}
use echohoard.Jobs.States.{DeliveryFile, Snapshot, job_status_eq, ready}
use echohoard.Snapshots.{
  SnapshotWorld, copy_files, create, create_new, hash_files, insert_file, publish_or_find,
  settle_and_claim, sort_files,
}
use echohoard.Snapshots.Settled.{settle_and_claim-stable}
use echohoard.Snapshots.Verified.{IsNew, create-IsNew}

abbrev file : String → DeliveryFile
file name = record { name = name; size = 7; modified_at = 1000 }

abbrev world : SnapshotWorld
world = record {
  before = λ a b. a == "a.db";
  sha256 = λ entries. "all";
  claimed_hash = λ name. ok name;
  found = λ hash. ok none;
  staging = ok "/staging";
  copied = λ name. ok tt;
  copied_hash = λ name. ok name;
  manifest = λ entries. ok tt;
  published = ok "/snapshots/1";
  found_later = λ hash. ok none;
  new_id = "snapshot-1";
  now = 5000;
}

abbrev snapshot : Snapshot
snapshot = record {
  id = "snapshot-1";
  delivery_id = "delivery-1";
  source_hash = "all";
  path = "/snapshots/1";
  created_at = 5000;
  status = ready;
}

created : create world "delivery-1" (file "b.db" ∷ file "a.db" ∷ []) ≡ ok (snapshot, false)
unfolding create create_new hash_files copy_files sort_files insert_file publish_or_find
created = refl

create-IsNew_example : IsNew world (file "b.db" ∷ file "a.db" ∷ []) snapshot
create-IsNew_example =
    create-IsNew world "delivery-1" (file "b.db" ∷ file "a.db" ∷ []) snapshot created

settle_and_claim-stable_example :
    let before = file "a.db" ∷ [] in
    ((before ≢ [])
      × (before ≡ before)
      × (settle_and_claim before before (some "/claimed") ≡ some "/claimed"))
    ⊎ (((before ≡ []) ⊎ (before ≢ before))
        × (settle_and_claim before before (some "/claimed") ≡ none))
settle_and_claim-stable_example =
    settle_and_claim-stable (file "a.db" ∷ []) (file "a.db" ∷ []) (some "/claimed")
