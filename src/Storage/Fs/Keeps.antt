-- ===== src/Storage/Fs/Keeps.antt =====
-- internal/storage/fs/fs.go: calls that leave a file alone.
use packrune.Prelude.{◌≡◌, refl, ◌∙◌, false, ◌++◌, arith, Bytes, ◌==◌, Option-cases, inl, inr, []}
use packrune.Action.{Action, next-Keeps, ◌>>=◌, ◌>>◌, attempt}
use packrune.Storage.Disk.{
  Disk, Copied, content, find-store, plain_call, create_file, copy_to, fault, old_content,
  delivered,
}
use packrune.Storage.Fs.{open_append, after_append}

-- A call that leaves the file at a path alone.
abbrev pub Keeps : {A : Type 0} → Bytes → Action Disk A → Type 0
Keeps q f = (d : Disk) → content (f d).1 q ≡ content d q

pub then-Keeps :
    {A B : Type 0} (q : Bytes) (f : Action Disk A) (g : A → Action Disk B)
    → Keeps q f
    → ((a : A) → Keeps q (g a))
    → Keeps q (f >>= g)
then-Keeps q f g kf kg d =
    next-Keeps (λ (x : Disk). content x q ≡ content d q) (f d) g (kf d) (λ a s k. kg a s ∙ k)

pub plain_call-Keeps : (q : Bytes) → Keeps q plain_call
unfolding plain_call
plain_call-Keeps q d = elim (Option-cases (fault d)) [
  | inl e ↦ rw (plain_call, e) refl
  | inr (n, e) ↦ rw (plain_call, e) refl
]

pub create_file-Keeps : (dst q : Bytes) → (dst == q) ≡ false → Keeps q (create_file dst)
unfolding create_file
create_file-Keeps dst q other d = elim (Option-cases (fault d)) [
  | inl e ↦ rw (create_file, e) (ground (arith, find-store dst q [] d.files, other))
  | inr (n, e) ↦ rw (create_file, e) refl
]

pub copy_to-Keeps : (dst q body : Bytes) → (dst == q) ≡ false → Keeps q (copy_to dst body)
unfolding copy_to
copy_to-Keeps dst q body other d =
    let part = delivered (fault d) body in
    ground (arith, find-store dst q (old_content (content d dst) ++ part) d.files, other)

open_append-Keeps : (dst q : Bytes) → (dst == q) ≡ false → Keeps q (open_append dst)
open_append-Keeps dst q other d = elim (Option-cases (content d dst)) [
  | inl e ↦ rw (open_append, e) (create_file-Keeps dst q other d)
  | inr (c, e) ↦ rw (open_append, e) (plain_call-Keeps q d)
]

attempt-Keeps : {A : Type 0} (q : Bytes) (f : Action Disk A) → Keeps q f → Keeps q (attempt f)
attempt-Keeps q f k d = k d

-- What follows `resolve` in Append.
pub append-Keeps :
    (dst q body : Bytes)
    → (dst == q) ≡ false
    → Keeps q (
        plain_call
        >> (open_append dst
            >> (copy_to dst body >>= λ copied.
                attempt plain_call >>= λ closed. λ d. (after_append copied closed, d))))
append-Keeps dst q body other =
    let close =
      λ (copied : Copied). attempt plain_call >>= λ closed. λ d. (after_append copied closed, d) in
    then-Keeps q plain_call (λ u. open_append dst >> (copy_to dst body >>= close))
      (plain_call-Keeps q)
      (λ u.
        then-Keeps q (open_append dst) (λ v. copy_to dst body >>= close)
          (open_append-Keeps dst q other)
          (λ v. then-Keeps q (copy_to dst body) close (copy_to-Keeps dst q body other) (λ copied.
            then-Keeps q (attempt plain_call) (λ closed. λ d. (after_append copied closed, d))
              (attempt-Keeps q plain_call (plain_call-Keeps q)) (λ closed d. refl))))
