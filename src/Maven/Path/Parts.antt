-- ===== src/Maven/Path/Parts.antt =====
-- internal/format/maven/handler.go: the coordinates that a path spells are read back.
use mathlib.Core.List.{reverse, reverse_aux-append, reverse-reverse}
use packrune.Prelude.{
  ◌≡◌, ◌≢◌, sym, ap, ◌∙◌, List, [], ◌∷◌, ◌++◌, Bytes, split-join_from, join, All, All-append,
  IsField,
}
use packrune.Maven.Path.{coordinates, split_artifact_path}

coordinates-cons :
    (file version artifact : Bytes) (rs gs : List Bytes)
    → reverse rs ≡ gs
    → gs ≢ []
    → coordinates (file ∷ version ∷ artifact ∷ rs)
      ≡ (record { group_path = join gs b'/'; artifact_id = artifact; version = version })
coordinates-cons file version artifact [] gs e n = absurd (n (sym e))
coordinates-cons file version artifact (r ∷ rs) gs e n =
    ap
      (λ (x : List Bytes). record {
        group_path = join x b'/';
        artifact_id = artifact;
        version = version;
      })
      e

-- A path of a group of one or more parts, an artifact, a version and a file, none of them with a slash
-- inside, is split into the group's path, the artifact and the version.
pub split_artifact_path-join :
    (g artifact version file : Bytes) (gs : List Bytes)
    → All IsField (g ∷ gs)
    → IsField artifact
    → IsField version
    → IsField file
    → split_artifact_path (join ((g ∷ gs) ++ (artifact ∷ version ∷ file ∷ [])) b'/')
      ≡ (record { group_path = join (g ∷ gs) b'/'; artifact_id = artifact; version = version })
unfolding split_artifact_path join
split_artifact_path-join g artifact version file gs hg ha hv hf =
    let tail_ = artifact ∷ version ∷ file ∷ [] in
    let parts =
      split-join_from g (gs ++ tail_) b'/'
        (All-append IsField (g ∷ gs) tail_ hg (ha, (hv, (hf, tt)))) in
    ap (λ (x : List Bytes). coordinates (reverse x)) parts
    ∙ ap coordinates (reverse_aux-append (g ∷ gs) tail_ [])
    ∙ coordinates-cons file version artifact (reverse (g ∷ gs)) (g ∷ gs) (reverse-reverse (g ∷ gs))
        (λ e. cc)
