-- ===== src/Examples/Registry.antt =====
-- The theorems on the Docker registry at concrete inputs.
use packrune.Prelude.{
  ℕ, ◌≡◌, ◌≢◌, refl, true, false, Option, none, some, [], ◌∷◌, arith, Bytes, codes, length, ◌==◌,
  eq_iff, ==_refl, if◌then◌else◌, strip_prefix?, trim_prefix, has_prefix, has_suffix, strip_suffix?,
  all,
}
use packrune.Action.{digest_mismatch, Result, ok, err}
use packrune.Storage.Disk.{Disk}
use packrune.Storage.Fs.Objects.{object, IsKey, no_faults}
use packrune.Storage.Cas
use packrune.Storage.Cas.{key_for, digest_of}
use packrune.Storage.Cas.Keys.{digest_of-IsDigest}
use packrune.Storage.Cas.Addressed.{put_ok}
use packrune.Repo.Store.{upsert_artifact}
use packrune.Repo.Tables.{Engine, kind_hosted, kind_proxy}
use packrune.Docker.Route.{unknown, parse_path, parse_trimmed, trim_mount, validate_name}
use packrune.Docker.Route.Urls.{Spells, parse_path-Spells}
use packrune.Docker.World.{World, Session, Request, Response, Env, content}
use packrune.Docker.Upload.{handle_upload_session, created, octet_stream}
use packrune.Docker.Proxy.{
  Handler, Upstream, proxy_fetch, proxy_fetch_blob, or_default, manifest_type,
}
use packrune.Docker.Handler.{handle_manifest, manifest_created, answer}
use packrune.Docker.Handler.Push.{is_bound, push-pull}
use packrune.Docker.Proxy.Mismatch.{blob_url, fetch_verified, mismatch-blob}
use packrune.Examples.Instances.{
  sha256, sha256-IsHash, nonce, root, fs, fs_laws, digest_key, upload_key, empty_disk,
}
use packrune.Examples.Blobs.{empty_Addressed}

tags_known : (parse_path (codes "/v2/lib/app/tags/list")).kind ≢ unknown
unfolding parse_path parse_trimmed trim_mount trim_prefix strip_prefix? ◌==◌ has_suffix
    strip_suffix?
tags_known e = cc

parse_path-Spells_example :
    Spells (trim_mount (codes "/v2/lib/app/tags/list")) (parse_path (codes "/v2/lib/app/tags/list"))
parse_path-Spells_example = parse_path-Spells (codes "/v2/lib/app/tags/list") (tags_known)

abbrev session : Session
session = record { id = codes "u1"; path = codes "/up/u1"; size = 2 }

abbrev world : World Disk
world = record {
  storage = empty_disk;
  db = record { repositories = []; artifacts = []; faults = [] };
  sessions = session ∷ [];
  staging = record { files = (codes "/up/u1", codes "he") ∷ []; faults = [] };
}

abbrev env : Env
env = record {
  session_id = codes "u2";
  nonce = nonce;
  row_id = codes "r1";
  second_row_id = codes "r2";
  now = 9;
}

abbrev request : Bytes → Bytes → Bytes → Option ℕ → Request
request method digest body n = record {
  method = method;
  path = [];
  digest = digest;
  length = n;
  content_type = [];
  body = body;
  body_fails = false;
}

abbrev patch : Request
patch = request (codes "PATCH") [] (codes "llo") none

abbrev session_request : Request → World Disk → Result Response × World Disk
session_request req w =
    handle_upload_session sha256 fs (codes "repo") env req (codes "lib/app") (codes "u1") w

stored_ok :
    (body : Bytes)
    → (Cas.put sha256 fs nonce body empty_disk).0 ≡ ok (digest_of sha256 body, length body)
stored_ok body =
    (put_ok sha256 sha256-IsHash fs (object root) (IsKey root) no_faults fs_laws digest_key nonce
      upload_key body empty_disk refl).0

abbrev put : Request
put = request (codes "PUT") (digest_of sha256 (codes "he")) [] (some 0)

abbrev put_answer : Response
put_answer = created (codes "lib/app") (digest_of sha256 (codes "he"))

abbrev upstream_answer : Upstream
upstream_answer = record {
  status = 200;
  body = codes "hello";
  body_fails = false;
  content_type = [];
  content_digest = [];
}

abbrev engine : Engine
engine = record { like = λ pattern s. true; order_by_path = λ rows. rows; order_by_name = λ rs. rs }

abbrev handler : Bytes → Handler
handler kind = record {
  repo_id = codes "repo";
  repo_kind = kind;
  upload_root = codes "/up";
  upstream = codes "https://registry.example";
  fetch = λ path. ok upstream_answer;
  members = λ config. [];
  json_valid = λ s. true;
  engine = engine;
}

abbrev manifest_put : Request
manifest_put = request (codes "PUT") [] (codes "{}") (some 2)

abbrev manifest_get : Request
manifest_get = request (codes "GET") [] [] (some 0)

abbrev manifest_digest : Bytes
manifest_digest = digest_of sha256 (codes "{}")

abbrev manifest_request : Request → World Disk → Result Response × World Disk
manifest_request req w =
    handle_manifest sha256 fs (handler kind_hosted) env req (codes "lib/app") (codes "1.0") w

tag_bound : is_bound manifest_digest (codes "1.0") (codes "1.0") ≡ true
unfolding digest_of ◌==◌ has_prefix strip_prefix?
tag_bound = refl

push-pull_example :
    ((manifest_request manifest_put world).0
      ≡ ok (manifest_created (codes "lib/app") manifest_digest))
    × (c : Bytes) × ((manifest_request manifest_get (manifest_request manifest_put world).1).0
        ≡ ok (answer 200 (or_default [] manifest_type) manifest_digest (length c) (content c)))
    × (digest_of sha256 c ≡ manifest_digest)
    × (object root world.storage (key_for manifest_digest) ≡ none → c ≡ codes "{}")
push-pull_example =
    push-pull sha256 fs (handler kind_hosted) env sha256-IsHash (object root) (IsKey root) no_faults
      fs_laws digest_key upload_key manifest_put manifest_get (codes "lib/app") (codes "1.0")
      (codes "1.0") world refl (empty_Addressed []) refl (unfold validate_name all in refl) refl
      refl refl refl tag_bound

abbrev hello_digest : Bytes
hello_digest = digest_of sha256 (codes "hello")

abbrev other_digest : Bytes
other_digest = digest_of sha256 (codes "other content")

abbrev fetch_other : Result (ℕ × Bytes) × World Disk
fetch_other =
    proxy_fetch_blob sha256 fs (handler kind_proxy) env (codes "lib/app") other_digest world

configured : (codes "https://registry.example" == []) ≡ false
unfolding ◌==◌
configured = refl

digests_differ : (hello_digest == other_digest) ≡ false
unfolding digest_of Cas.Hash.encode_hex ◌==◌
digests_differ = refl

fetched :
    (proxy_fetch_blob sha256 fs (handler kind_proxy) env (codes "lib/app") hello_digest world).0
    ≡ ok (5, octet_stream)
unfolding proxy_fetch_blob proxy_fetch upsert_artifact
fetched = ground (arith, stored_ok (codes "hello"), ==_refl hello_digest, configured)

fetch_verified_example :
    (u : Upstream) × ((handler kind_proxy).fetch (blob_url (codes "lib/app") hello_digest) ≡ ok u)
    × (digest_of sha256 u.body ≡ hello_digest)
    × (5 ≡ length u.body)
fetch_verified_example =
    fetch_verified sha256 fs (handler kind_proxy) env sha256-IsHash (object root) (IsKey root)
      no_faults fs_laws digest_key upload_key (codes "lib/app") hello_digest octet_stream 5 world
      fetched

mismatch-blob_example :
    ((fetch_other).0 ≡ err digest_mismatch)
    × (object root (fetch_other).1.storage (key_for hello_digest) ≡ (
        if digest_of sha256 (codes "hello") == hello_digest
        then none
        else object root world.storage (key_for hello_digest)))
mismatch-blob_example =
    mismatch-blob sha256 fs (handler kind_proxy) env sha256-IsHash (object root) (IsKey root)
      no_faults fs_laws digest_key upload_key (codes "lib/app") other_digest hello_digest
      upstream_answer world refl (λ e. cc) refl refl refl
      (λ e. cc ((eq_iff hello_digest other_digest).1 e, digests_differ))
      (digest_of-IsDigest sha256-IsHash (codes "hello"))
