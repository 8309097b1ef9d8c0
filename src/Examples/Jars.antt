-- ===== src/Examples/Jars.antt =====
-- The theorems on the Maven repository at concrete inputs.
use mathlib.Core.List.{Memᴰ}
use packrune.Prelude.{
  ℕ, ◌≡◌, refl, true, false, none, some, [], ◌∷◌, ◌++◌, Bytes, codes, ◌==◌, split, join, not,
  nat_eq, all, lacks-All, cut_last, has_suffix, strip_suffix?, strip_prefix?, less, sort_by,
  is_seen, cut, trim_prefix, contains, has_prefix, IsField,
}
use packrune.Action.{err, io}
use packrune.Repo.Tables.{Engine, kind_hosted}
use packrune.Storage.Disk.{
  Disk, take, copy_to, create_file, find, plain_call, remove_file, rename_file, read_file, store,
  without,
}
use packrune.Storage.Cas.{key_for, digest_of, put, temp_key}
use packrune.Storage.Fs.Objects.{object, IsKey, no_faults}
use packrune.Format.{store_at, World, Env, Request}
use packrune.Maven.Path.{
  Coordinates, content_type_for, split_artifact_path, is_primary_artifact, base, trim_slashes,
}
use packrune.Repo.Store.{find_artifact, matching, get_artifact, upsert, upsert_artifact}
use packrune.Repo.Listing.Shadowing.{rows_of}
use packrune.Maven.Metadata.Versions.{Lists, IsUnder}
use packrune.Maven.Path.Parts.{split_artifact_path-join}
use packrune.Maven.Metadata.{Metadata, metadata_for, version_set, last_version, dotted}
use packrune.Storage.Cas.Hash.{encode_hex}
use packrune.Storage.Fs as Fs
use packrune.Storage.Fs.{path_text, join_path, clean_onto, write_through}
use packrune.Maven.Handler.{
  Handler, Response, file_path, ensure_checksums, write_checksum, artifact_prefix, xml_header,
  created, sha1_sum, sha256_sum, md5_sum, file_sent, max_bytes, upload_file, serve_file, checksum,
}
use packrune.Maven.Handler.Upload.{upload_file-serve_file}
use packrune.Maven.Handler.Checksums.{upload_file-checksum, upload_file-metadata}
use packrune.Examples.Instances.{
  sha256, sha256-IsHash, nonce, root, fs, fs_laws, digest_key, upload_key, empty_disk,
}
use packrune.Examples.Blobs.{empty_Addressed}

abbrev pub engine : Engine
engine = record {
  like = λ pattern path. true;
  order_by_path = λ rows. rows;
  order_by_name = λ rows. rows;
}

abbrev handler : Handler
handler = record {
  repo_id = codes "r";
  repo_kind = kind_hosted;
  upstream = [];
  fetch = λ path. err io;
  members = λ config. [];
  print = λ m. some m.latest;
  date = λ now. codes "20260101000000";
  sha1 = λ body. body;
  md5 = λ body. body;
  checks = sha1_sum ∷ md5_sum ∷ sha256_sum ∷ [];
}

abbrev pub envs : ℕ → Env
envs n = record { nonce = nonce; row_id = codes "row"; now = n }

abbrev world : World Disk
world = record {
  storage = empty_disk;
  db = record { repositories = []; artifacts = []; faults = [] };
}

abbrev jar : Bytes
jar = codes "org/x/lib/1.0/lib-1.0.jar"

abbrev put_request : Request
put_request = record { method = codes "PUT"; path = jar; body = codes "PK"; body_fails = false }

-- The answer to the upload of a file of two bytes, and the world behind it.
abbrev uploaded : Response × World Disk
uploaded = upload_file sha256 fs engine handler envs put_request jar world

upload_file-serve_file_example :
    (uploaded.0 ≡ created)
    × (c : Bytes) × ((serve_file sha256 fs engine handler envs (codes "GET") jar uploaded.1).0
        ≡ file_sent (codes "GET") jar c)
    × (digest_of sha256 c ≡ digest_of sha256 (take max_bytes (codes "PK")))
    × (object root world.storage (key_for (digest_of sha256 (take max_bytes (codes "PK")))) ≡ none
        → c ≡ take max_bytes (codes "PK"))
upload_file-serve_file_example =
    upload_file-serve_file sha256 fs engine handler envs sha256-IsHash (object root) (IsKey root)
      no_faults fs_laws digest_key (λ n. upload_key) put_request (codes "GET") jar world
      (record { well = refl; addressed = empty_Addressed []; calm = refl }) refl

jar-primary : is_primary_artifact jar ≡ true
unfolding is_primary_artifact base trim_slashes cut_last has_suffix strip_suffix? strip_prefix? ◌==◌
jar-primary = refl

upload_file-checksum_example :
    let q = jar ++ codes ".md5" in
    (c : Bytes) × ((serve_file sha256 fs engine handler envs (codes "GET") q uploaded.1).0
      ≡ file_sent (codes "GET") q c)
    × (digest_of sha256 c ≡ digest_of sha256 (encode_hex (take max_bytes (codes "PK"))))
upload_file-checksum_example =
    upload_file-checksum sha256 fs engine handler envs sha256-IsHash (object root) (IsKey root)
      no_faults fs_laws digest_key (λ n. upload_key) put_request (codes "GET") jar (codes ".md5")
      (encode_hex (take max_bytes (codes "PK"))) md5_sum world (refl, refl)
      (record { well = refl; addressed = empty_Addressed []; calm = refl }) refl jar-primary
      (Memᴰ.tail (Memᴰ.head refl)) (unfold find_artifact in refl)

field : (s : Bytes) → all (λ c. not (nat_eq c b'/')) s ≡ true → IsField s
field = lacks-All b'/'

split_artifact_path-join_example :
    split_artifact_path
      (join (codes "org" ∷ codes "x" ∷ codes "lib" ∷ codes "1" ∷ codes "f" ∷ []) b'/')
    ≡ (record {
      group_path = join (codes "org" ∷ codes "x" ∷ []) b'/';
      artifact_id = codes "lib";
      version = codes "1";
    })
split_artifact_path-join_example =
    split_artifact_path-join (codes "org") (codes "lib") (codes "1") (codes "f") (codes "x" ∷ [])
      (field (codes "org") (unfold all in refl), (field (codes "x") (unfold all in refl), tt))
      (field (codes "lib") (unfold all in refl)) (field (codes "1") (unfold all in refl))
      (field (codes "f") (unfold all in refl))

abbrev coordinates : Coordinates
coordinates = record {
  group_path = codes "org/x";
  artifact_id = codes "lib";
  version = codes "1.0";
}

abbrev stored : World Disk
stored =
    (store_at sha256 fs (envs 0) (codes "r") (file_path jar) (content_type_for jar)
      (take max_bytes (codes "PK")) world).1

abbrev summed : World Disk
summed =
    (ensure_checksums sha256 fs engine handler envs 1 jar (take max_bytes (codes "PK"))
      handler.checks stored).1

rows-IsUnder :
    IsUnder
      (artifact_prefix coordinates)
      (rows_of engine (artifact_prefix coordinates) summed.db (codes "r"))
unfolding rows_of matching ensure_checksums write_checksum get_artifact put Fs.put Fs.resolve ◌==◌
    trim_prefix strip_prefix? temp_key contains cut encode_hex has_prefix path_text join_path
    clean_onto split write_through checksum file_path artifact_prefix find_artifact upsert
    upsert_artifact digest_of key_for copy_to create_file find plain_call remove_file rename_file
    store without Fs.stat read_file Fs.get Fs.delete
rows-IsUnder = (
  (codes "1.0/lib-1.0.jar", refl),
  (
    (codes "1.0/lib-1.0.jar.sha1", refl),
    ((codes "1.0/lib-1.0.jar.md5", refl), ((codes "1.0/lib-1.0.jar.sha256", refl), tt)),
  ),
)

abbrev document : Metadata
document = record {
  group_id = codes "org.x";
  artifact_id = codes "lib";
  latest = codes "1.0";
  release = codes "1.0";
  versions = codes "1.0" ∷ [];
  last_updated = codes "20260101000000";
}

rows-document :
    metadata_for coordinates
      (codes "20260101000000")
      (artifact_prefix coordinates)
      (rows_of engine (artifact_prefix coordinates) summed.db (codes "r"))
    ≡ some document
unfolding rows_of matching ensure_checksums write_checksum get_artifact put Fs.put Fs.resolve ◌==◌
    trim_prefix strip_prefix? temp_key contains cut encode_hex has_prefix path_text join_path
    clean_onto split write_through checksum file_path artifact_prefix find_artifact upsert
    upsert_artifact digest_of key_for copy_to create_file find plain_call remove_file rename_file
    store without Fs.stat read_file Fs.get Fs.delete metadata_for version_set last_version dotted
    sort_by less is_seen
rows-document = refl

jar-coordinates : split_artifact_path jar ≡ coordinates
unfolding split_artifact_path split join
jar-coordinates = refl

upload_file-metadata_example :
    let q = codes "org/x/lib/maven-metadata.xml" in
    Lists
      (artifact_prefix coordinates)
      (rows_of engine (artifact_prefix coordinates) summed.db (codes "r"))
      document
    × (got : Bytes) × ((serve_file sha256 fs engine handler envs (codes "GET") q uploaded.1).0
        ≡ file_sent (codes "GET") q got)
    × (digest_of sha256 got ≡ digest_of sha256 (xml_header ++ codes "1.0"))
unfolding split_artifact_path split join
upload_file-metadata_example =
    upload_file-metadata sha256 fs engine handler envs sha256-IsHash (object root) (IsKey root)
      no_faults fs_laws digest_key (λ n. upload_key) put_request (codes "GET") jar (codes "1.0")
      document world (record { well = refl; addressed = empty_Addressed []; calm = refl }) refl
      jar-primary (unfold ◌==◌ in refl) rows-IsUnder rows-document refl
