-- ===== src/Examples/Modules.antt =====
-- The theorems on the Go module proxy at concrete inputs.
use packrune.Prelude.{inl, ◌≡◌, refl, true, false, not, none, some, [], Bytes, codes, all}
use packrune.Action.{io, err}
use packrune.Storage.Disk.{Disk}
use packrune.Storage.Fs.Objects.{object, IsKey, no_faults}
use packrune.Storage.Cas.{key_for, digest_of}
use packrune.Repo.Tables.{kind_hosted}
use packrune.Gomod.Route.{is_upper, decode_module, decode_from}
use packrune.Format.{World, Request, Env}
use packrune.Gomod.Handler.{
  Handler, Response, created, version_file, upload_version_file, serve_version_file,
}
use packrune.Gomod.Handler.Publish.{IsKept, publish-serve}
use packrune.Examples.Instances.{
  sha256, sha256-IsHash, nonce, root, fs, fs_laws, digest_key, upload_key, empty_disk,
}
use packrune.Examples.Blobs.{empty_Addressed}

small_letters : all (λ c. not (is_upper c)) (codes "a/!bc") ≡ true
unfolding all
small_letters = refl

decoded : decode_module (codes "a/!bc") ≡ some (codes "a/Bc")
unfolding decode_module decode_from
decoded = refl

abbrev handler : Handler
handler = record {
  repo_id = codes "repo";
  repo_kind = kind_hosted;
  upstream = [];
  fetch = λ path. err io;
  members = λ config. [];
  json_valid = λ s. true;
  parse_info = λ s. none;
  print_info = λ i. none;
  engine = record {
    like = λ pattern s. true;
    order_by_path = λ rows. rows;
    order_by_name = λ rs. rs;
  };
}

abbrev env : Env
env = record { nonce = nonce; row_id = codes "r1"; now = 9 }

abbrev world : World Disk
world = record {
  storage = empty_disk;
  db = record { repositories = []; artifacts = []; faults = [] };
}

abbrev request : Bytes → Bytes → Request
request method body = record { method = method; path = []; body = body; body_fails = false }

abbrev mod_body : Bytes
mod_body = codes "module a/Bc"

abbrev uploaded : Response × World Disk
uploaded =
    upload_version_file sha256 fs handler env (request (codes "PUT") mod_body) (codes "a/Bc")
      (codes "v1") (codes ".mod") world

mod_IsKept : IsKept handler 9 (codes "v1") (codes ".mod") mod_body mod_body
mod_IsKept = inl ((λ e. cc), refl)

publish-serve_example :
    (uploaded.0 ≡ created (codes "a/Bc") (codes "v1") (codes ".mod"))
    × (c : Bytes) × ((serve_version_file sha256 fs handler env
          (request (codes "GET") [])
          (codes "a/Bc")
          (codes "v1")
          (codes ".mod")
          uploaded.1).0
        ≡ version_file (codes "GET") (codes ".mod") c)
    × (digest_of sha256 c ≡ digest_of sha256 mod_body)
    × (object root empty_disk (key_for (digest_of sha256 mod_body)) ≡ none → c ≡ mod_body)
publish-serve_example =
    publish-serve sha256 fs handler env sha256-IsHash (object root) (IsKey root) no_faults fs_laws
      digest_key upload_key (request (codes "PUT") mod_body) (request (codes "GET") [])
      (codes "a/Bc") (codes "v1") (codes ".mod") mod_body world refl (empty_Addressed []) refl refl
      mod_IsKept
