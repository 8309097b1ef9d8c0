-- ===== src/Examples/Wheels.antt =====
-- The theorems on the index of Python packages at concrete inputs.
use packrune.Prelude.{
  ◌≡◌, refl, true, false, none, some, [], Bytes, codes, ◌==◌, lacks-All, all, lower_ascii, is_ascii,
}
use packrune.Action.{err, io}
use packrune.Repo.Tables.{kind_hosted}
use packrune.Storage.Disk.{Disk, take}
use packrune.Storage.Cas.{key_for, digest_of}
use packrune.Storage.Fs.Objects.{object, IsKey, no_faults}
use packrune.Format.{World}
use packrune.Pypi.Name.{normalize, join_runs, is_normal, normalize-normalize}
use packrune.Pypi.Handler.{
  FormFile, Form, Request, Handler, Response, uploaded, package_path, file_sent, max_bytes, serve,
}
use packrune.Pypi.Handler.Upload.{upload-download}
use packrune.Examples.Instances.{
  sha256, sha256-IsHash, root, fs, fs_laws, digest_key, upload_key, empty_disk,
}
use packrune.Examples.Blobs.{empty_Addressed}
use packrune.Examples.Jars.{engine, envs}

abbrev lower : Bytes → Bytes
lower s = s

normalize-normalize_example :
    (is_normal false (normalize lower (codes "My__Lib.x")) ≡ true)
    × (normalize lower (normalize lower (codes "My__Lib.x")) ≡ normalize lower (codes "My__Lib.x"))
normalize-normalize_example =
    normalize-normalize lower (codes "My__Lib.x") (unfold is_ascii all in refl)

abbrev handler : Handler
handler = record {
  repo_id = codes "r";
  repo_kind = kind_hosted;
  upstream = [];
  fetch_page = λ path. err io;
  fetch_file = λ url. err io;
  members = λ config. [];
  upload_meta = λ name version. name;
  link_meta = λ href. href;
  upstream_url = λ meta. [];
  print_index = λ names. [];
  print_package = λ name arts. [];
  links = λ page. [];
  lower = lower;
}

abbrev wheel : FormFile
wheel = record { filename = codes "lib-1.whl"; content = codes "PK"; content_fails = false }

abbrev form : Form
form = record { name = codes "Lib_X"; version = codes "1"; file = some wheel }

abbrev post : Request
post = record { method = codes "POST"; path = codes "/"; accept = []; form = some form }

abbrev get : Request
get = record {
  method = codes "GET";
  path = codes "/packages/lib-x/lib-1.whl";
  accept = [];
  form = none;
}

abbrev world : World Disk
world = record {
  storage = empty_disk;
  db = record { repositories = []; artifacts = []; faults = [] };
}

-- The answer to the upload, and the world behind it.
abbrev done : Response × World Disk
done = serve sha256 fs engine handler envs post world

upload-download_example :
    (done.0 ≡ uploaded)
    × (c : Bytes) × ((serve sha256 fs engine handler envs get done.1).0 ≡ file_sent (codes "GET") c)
    × (digest_of sha256 c ≡ digest_of sha256 (take max_bytes (codes "PK")))
    × (object root world.storage (key_for (digest_of sha256 (take max_bytes (codes "PK")))) ≡ none
        → c ≡ take max_bytes (codes "PK"))
upload-download_example =
    upload-download sha256 fs engine handler envs sha256-IsHash (object root) (IsKey root) no_faults
      fs_laws digest_key (λ n. upload_key) post get form wheel world
      (record { well = refl; addressed = empty_Addressed []; calm = refl }) (unfold ◌==◌ in refl)
      (unfold normalize is_ascii all lower_ascii join_runs in
        (lacks-All b'/' (codes "lib-x") (unfold all in refl)))
      refl refl refl (unfold ◌==◌ in refl) refl refl
      (unfold package_path normalize is_ascii all lower_ascii join_runs in refl)
