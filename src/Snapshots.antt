-- ===== src/Snapshots.antt =====
-- src/application/echohoard.ts: `StableBatchClaimer` and `ImmutableSnapshotCreator`. The inbox, the
-- store and the hashes answer from a world; SHA-256 of a text and the order of names are parameters.
pub mod Settled
pub mod Verified
mod Tests
use echohoard.Base.{
  Bool, List, Option, Result, String, [], err, false, find, if◌then◌else◌, nat_eq, none, ok,
  require, some, string_eq, true, ℕ, ◌&&◌, ◌==◌, ◌>>=◌, ◌>>◌, ◌∷◌,
}
use echohoard.Jobs.States.{DeliveryFile, Snapshot, job_status_eq, ready}

-- What `other?.name === file.name && ...` compares.
abbrev pub same_file : DeliveryFile → DeliveryFile → Bool
same_file a b = b.name == a.name && b.size == a.size && b.modified_at == a.modified_at

-- `sameFiles`
unfoldable pub same_files : List DeliveryFile → List DeliveryFile → Bool
same_files [] [] = true
same_files (a ∷ left) (b ∷ right) = same_file a b && same_files left right
same_files _ _ = false

-- `settleAndClaim`, with what the inbox shows before and after the quiet period and what `claim`
-- gives.
unfoldable pub settle_and_claim :
    List DeliveryFile → List DeliveryFile → Option String → Option String
settle_and_claim [] after claim = none
settle_and_claim (f ∷ before) after claim = if same_files (f ∷ before) after then claim else none

pub record SnapshotManifestEntry : Type 0 where
  pub filename : String
  pub size : ℕ
  pub sha256 : String

pub data CreateError : Type 0 where
  port_error : CreateError
  hash_mismatch : String → CreateError

-- What the ports answer, for the files by their names. `sha256` hashes the entries, as
-- `stableSourceHash` writes them, and `before` is `localeCompare`.
pub record SnapshotWorld : Type 0 where
  pub before : String → String → Bool
  pub sha256 : List SnapshotManifestEntry → String
  pub claimed_hash : String → Result CreateError String
  pub found : String → Result CreateError (Option Snapshot)
  pub staging : Result CreateError String
  pub copied : String → Result CreateError (Unit {0})
  pub copied_hash : String → Result CreateError String
  pub manifest : List SnapshotManifestEntry → Result CreateError (Unit {0})
  pub published : Result CreateError String
  pub found_later : String → Result CreateError (Option Snapshot)
  pub new_id : String
  pub now : ℕ

module _ (w : SnapshotWorld) where
  unfoldable pub insert_file : DeliveryFile → List DeliveryFile → List DeliveryFile
  insert_file f [] = f ∷ []
  insert_file f (g ∷ files) =
      let rest = insert_file f files in if w.before g.name f.name then g ∷ rest else f ∷ g ∷ files

  -- `files.sort((a, b) => a.name.localeCompare(b.name))`
  unfoldable pub sort_files : List DeliveryFile → List DeliveryFile
  unfolding insert_file
  sort_files [] = []
  sort_files (f ∷ files) = insert_file f (sort_files files)

  unfoldable pub hash_files : List DeliveryFile → Result CreateError (List SnapshotManifestEntry)
  hash_files [] = ok []
  hash_files (f ∷ files) = do
    hash ← w.claimed_hash f.name
    rest ← hash_files files
    ok (record { filename = f.name; size = f.size; sha256 = hash } ∷ rest)

  -- `copiedHash !== entries.find((entry) => entry.filename === file.name)?.sha256`, negated.
  abbrev pub is_expected : List SnapshotManifestEntry → String → String → Bool
  is_expected entries name hash =
      elim (find (λ (e : SnapshotManifestEntry). e.filename == name) entries) [
        | none ↦ false
        | some e ↦ hash == e.sha256
      ]

  unfoldable pub copy_files :
      List SnapshotManifestEntry → List DeliveryFile → Result CreateError (Unit {0})
  copy_files entries [] = ok tt
  copy_files entries (f ∷ files) = do
    w.copied f.name
    hash ← w.copied_hash f.name
    require (is_expected entries f.name hash) (hash_mismatch f.name)
    copy_files entries files

  -- What follows `publish`.
  unfoldable pub publish_or_find :
      String → String → Result CreateError String → Result CreateError (Snapshot × Bool)
  publish_or_find delivery_id source_hash (ok path) = ok (
    record {
      id = w.new_id;
      delivery_id = delivery_id;
      source_hash = source_hash;
      path = path;
      created_at = w.now;
      status = ready;
    },
    false,
  )
  publish_or_find delivery_id source_hash (err e) = do
    other ← w.found_later source_hash
    elim other [ none ↦ err e | some s ↦ ok (s, true) ]

  -- What follows the first look into the store.
  unfoldable pub create_new :
      String
      → List DeliveryFile
      → List SnapshotManifestEntry
      → Option Snapshot
      → Result CreateError (Snapshot × Bool)
  create_new delivery_id files entries (some s) = ok (s, true)
  create_new delivery_id files entries none = do
    staging ← w.staging
    copy_files entries files
    w.manifest entries
    publish_or_find delivery_id (w.sha256 entries) w.published

  -- `create`: the snapshot, and whether it was there already.
  unfoldable pub create : String → List DeliveryFile → Result CreateError (Snapshot × Bool)
  create delivery_id files = do
    entries ← hash_files (sort_files files)
    existing ← w.found (w.sha256 entries)
    create_new delivery_id (sort_files files) entries existing
