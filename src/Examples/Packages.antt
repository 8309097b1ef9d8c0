-- ===== src/Examples/Packages.antt =====
-- The theorems on npm packages at concrete inputs.
use packrune.Prelude.{
  ℕ, ◌≡◌, ◌⊎◌, refl, Bool, true, false, none, some, [], ◌∷◌, Bytes, codes, ◌==◌, or_else,
  has_prefix, trim_prefix, strip_prefix?, all, length,
}
use packrune.Action.{ok, err, io}
use packrune.Repo.Tables.{kind_hosted}
use packrune.Repo.Store.{get_artifact, find_artifact}
use packrune.Repo.Rows.{content_at}
use packrune.Storage.{Backend}
use packrune.Storage.Disk.{Disk}
use packrune.Storage.Cas.{digest_of, validate_digest}
use packrune.Storage.Cas
use packrune.Storage.Cas.Hash.{encode_hex}
use packrune.Format.{World, Env}
use packrune.Npm.Packument.{lookup, Packument, named, merge_into}
use packrune.Npm.Packument.Merged.{is_map, shares, or_lookup, last_lookup, merge_into-versions}
use packrune.Npm.Handler.{
  Handler, Response, failed, packument_path, load_stored, store_attachments, publish,
}
use packrune.Npm.Handler.Publish.{publish-conflict}
use packrune.Examples.Instances.{sha256, nonce, fs, empty_disk}

abbrev with_version : Bytes → Bytes → Packument
with_version v meta = record (named (codes "left")) {
  versions = (v, meta) ∷ [];
  dist_tags = (codes "latest", v) ∷ [];
}

merge_into-versions_example :
    let p = with_version (codes "2") (codes "m2") in
    let base = with_version (codes "1") (codes "m1") in
    ((shares base.versions p.versions ≡ true) × (merge_into p base ≡ none))
    ⊎ ((m : Packument) × (shares base.versions p.versions ≡ false)
        × (merge_into p base ≡ some m)
        × (lookup (codes "1") m.versions
            ≡ or_lookup (lookup (codes "1") base.versions) (lookup (codes "1") p.versions))
        × (lookup (codes "latest") m.dist_tags
            ≡ or_lookup
                (last_lookup (codes "latest") p.dist_tags)
                (lookup (codes "latest") base.dist_tags)))
merge_into-versions_example =
    merge_into-versions (codes "1") (codes "latest") (with_version (codes "2") (codes "m2"))
      (with_version (codes "1") (codes "m1")) (unfold is_map lookup in refl)

-- A reader of JSON that knows one document.
abbrev unmarshal : Bytes → Packument → Packument × Bool
unmarshal body p = (with_version (codes "1") (codes "m1"), true)

abbrev handler : Handler
handler = record {
  repo_id = codes "r";
  repo_kind = kind_hosted;
  upstream = [];
  fetch = λ path. err io;
  members = λ config. [];
  unmarshal = unmarshal;
  print = λ p. some p.name;
  decode = λ text. some text;
}

abbrev envs : ℕ → Env
envs n = record { nonce = nonce; row_id = codes "row"; now = n }

abbrev world : World Disk
world = record {
  storage = empty_disk;
  db = record { repositories = []; artifacts = []; faults = [] };
}

abbrev incoming : Packument
incoming = record (with_version (codes "1") (codes "m1")) {
  attachments = (codes "left-1.tgz", record { content_type = []; data_ = codes "tgz" }) ∷ [];
}

-- The world behind a publish of the first version.
abbrev first : Response × World Disk
first = publish sha256 fs handler envs (codes "left") incoming world

-- A store that holds one document under every digest.
abbrev one_document : Backend (Unit {0})
one_document = record {
  put = λ k body s. (ok (length body), s);
  append = λ k body s. (err io, s);
  get = λ k s. (ok (codes "{}"), s);
  stat = λ k s. (ok 2, s);
  delete = λ k s. (ok tt, s);
  list = λ prefix token limit s. (err io, s);
}

abbrev published : World (Unit {0})
published = record {
  storage = tt;
  db = record {
    repositories = [];
    artifacts =
        record {
          id = codes "row";
          repo_id = codes "r";
          path = codes "packuments/left";
          digest = digest_of sha256 [];
          size = 2;
          media_type = codes "application/json";
          metadata = codes "{}";
          created_at = 1;
        }
        ∷ [];
    faults = [];
  };
}

abbrev loaded : Packument × World (Unit {0})
loaded = load_stored sha256 one_document handler envs (codes "left") published

publish-conflict_example :
    ((publish sha256 one_document handler envs (codes "left") incoming published).0
      ≡ failed (
          or_else
            (store_attachments sha256 one_document handler envs 1
              (codes "left")
              incoming.attachments
              loaded.1).0
            409))
    × (content_at
          (publish sha256 one_document handler envs (codes "left") incoming published).1.db
          (codes "r")
          (packument_path (codes "left"))
        ≡ content_at published.db (codes "r") (packument_path (codes "left")))
publish-conflict_example =
    publish-conflict sha256 one_document handler envs (codes "left") incoming published
      (unfold is_map lookup in refl)
      (unfold load_stored get_artifact find_artifact packument_path ◌==◌ Cas.get validate_digest
          has_prefix trim_prefix strip_prefix? all digest_of encode_hex shares lookup in
        refl)
