-- ===== src/Examples/Charts.antt =====
-- The theorems on Helm charts at concrete inputs.
use packrune.Prelude.{
  ◌≡◌, refl, true, none, some, List, [], ◌∷◌, ◌++◌, Bytes, codes, ◌==◌, length, has_suffix,
  strip_suffix?, trim_prefix, strip_prefix?, cut, contains, has_prefix, split, all,
}
use mathlib.Core.List.{Memᴰ}
use packrune.Action.{ok, err, io}
use packrune.Repo.Tables.{Artifact, kind_hosted}
use packrune.Repo.Store.{get_by_id, list_artifacts_by_prefix, matching, find_repository}
use packrune.Repo.Listing.{resolve_artifacts_by_prefix}
use packrune.Storage.Disk.{
  Disk, copy_to, create_file, find, plain_call, remove_file, rename_file, read_file, store, without,
}
use packrune.Storage.Cas.{digest_of, put, temp_key, key_for, validate_digest}
use packrune.Storage.Cas
use packrune.Storage.Cas.Hash.{encode_hex}
use packrune.Storage.Cas.Addressed.{put-IsAddressed}
use packrune.Storage.Fs as Fs
use packrune.Storage.Fs.{path_text, join_path, clean_onto, write_through}
use packrune.Storage.Fs.Objects.{object, IsKey, no_faults}
use packrune.Format.{World, Env}
use packrune.Helm.Chart.{entries_of, build_index}
use packrune.Helm.Handler.{Handler, sent, octet_stream, all_charts, handle_download, find_file}
use packrune.Helm.Chart.Listed.{named_entries, build_index-entries_of}
use packrune.Helm.Handler.Download.{handle_download-digest}
use packrune.Examples.Instances.{
  sha256, sha256-IsHash, nonce, root, fs, fs_laws, digest_key, upload_key, empty_disk,
}
use packrune.Examples.Blobs.{empty_Addressed}
use packrune.Examples.Jars.{engine}

abbrev handler : Handler Bytes
handler = record {
  repo_id = codes "r";
  repo_kind = kind_hosted;
  upstream = [];
  context_path = codes "/helm";
  fetch = λ path. err io;
  members = λ config. [];
  untar = λ body. err io;
  yaml = λ text. none;
  chart_json = λ c. c.name;
  read_json = λ text. some (record { name = text; version = codes "1"; rest = [] });
  print_index = λ index. none;
  date = λ now. [];
}

abbrev env : Env
env = record { nonce = nonce; row_id = codes "row"; now = 1 }

abbrev chart : Artifact
chart = record {
  id = codes "a";
  repo_id = codes "r";
  path = codes "charts/app/app-1.tgz";
  digest = digest_of sha256 (codes "tgz");
  size = 3;
  media_type = octet_stream;
  metadata = codes "app";
  created_at = 1;
}

abbrev world : World Disk
world = record {
  storage = (Cas.put sha256 fs nonce (codes "tgz") empty_disk).1;
  db = record { repositories = []; artifacts = chart ∷ []; faults = [] };
}

delivered :
    (handle_download sha256 fs engine handler env (codes "app-1.tgz") world).0
    ≡ sent octet_stream 3 (codes "tgz")
unfolding handle_download all_charts resolve_artifacts_by_prefix get_by_id list_artifacts_by_prefix
    matching find_repository find_file has_suffix strip_suffix? put Cas.get validate_digest Fs.put
    Fs.resolve ◌==◌ trim_prefix strip_prefix? temp_key contains cut encode_hex has_prefix path_text
    join_path clean_onto split write_through digest_of key_for copy_to create_file find plain_call
    remove_file rename_file store without Fs.stat read_file Fs.get Fs.delete all
delivered = refl

handle_download-digest_example :
    (arts : List Artifact) × (a : Artifact) × ((all_charts sha256 fs engine handler env world).0
      ≡ ok arts)
    × Memᴰ a arts
    × (has_suffix a.path (codes "/" ++ codes "app-1.tgz") ≡ true)
    × (digest_of sha256 (codes "tgz") ≡ a.digest)
    × (3 ≡ length (codes "tgz"))
handle_download-digest_example =
    handle_download-digest sha256 fs engine handler env sha256-IsHash (object root) (IsKey root)
      no_faults fs_laws digest_key upload_key (codes "app-1.tgz") (codes "tgz") 3 world
      (unfold ◌==◌ in refl)
      (put-IsAddressed sha256 sha256-IsHash fs (object root) (IsKey root) no_faults fs_laws
        digest_key nonce upload_key (codes "tgz") empty_disk (empty_Addressed []))
      delivered

build_index-entries_of_example :
    entries_of (codes "app") (build_index handler.read_json handler.date (chart ∷ []) [] 1).entries
    ≡ named_entries handler.read_json handler.date (codes "app") (chart ∷ [])
build_index-entries_of_example =
    build_index-entries_of handler.read_json handler.date (codes "app") [] 1 (chart ∷ [])
