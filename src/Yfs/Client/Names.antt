-- ===== src/Yfs/Client/Names.antt =====
-- Names in a directory: looking up, creating and removing them.
use cse_labs.Prelude.{ℕ, ◌≡◌, ◌>>=◌, Option, refl, ap, ◌∙◌, false, none, some, List, Bytes}
use cse_labs.Yfs.Dirs.{Dirent, Holds, find_name, Holds-parse_dir}
use cse_labs.Yfs.Services.{Extents, Locks}
use cse_labs.Yfs.Client.{
  Yfs, Status, ok, exist, mkdir, symlink, under_lock, lookup, create_in, create,
}
use cse_labs.Yfs.Client.Locked.{Freed, under_lock-Freed}

module _ {E L : Type 0} (x : Extents E) (k : Locks L) where
  -- `lookup` in a directory of entries finds the first one of the name, and changes no content.
  lookup_lem :
      (e : E) (parent : ℕ) (name : Bytes) (es : List Dirent)
      → Holds (x.value e parent) es
      → (e' : E) × (lookup x k e parent name ≡ some (find_name es name, e'))
        × ((j : ℕ) → x.value e' j ≡ x.value e j)
        × ((t : ℕ) (n : Bytes) (p : ℕ) → x.CanCreate e t n p → x.CanCreate e' t n p)
  unfolding lookup
  lookup_lem e parent name es h =
      let (e', got, keeps, _, can) = x.get_ok e parent in
      (e', rw (got, Holds-parse_dir h) refl, keeps, can)

  -- The operation returns EXIST; no content changes, and the lock is free again.
  abbrev Refused : Yfs E L → ℕ → Option ((Status × Option ℕ) × Yfs E L) → Type 0
  Refused s parent r =
      (s' : Yfs E L) × (r ≡ some ((exist, none), s'))
      × ((j : ℕ) → x.value s'.ec j ≡ x.value s.ec j)
      × Freed x k s.lc s'.lc parent

  exist_under_lock :
      (s : Yfs E L) (parent : ℕ) (name : Bytes) (es : List Dirent)
      (work : E → Option ((Status × Option ℕ) × E))
      → k.held s.lc parent ≡ false
      → Holds (x.value s.ec parent) es
      → ((e : E)
          → lookup x k s.ec parent name ≡ some (find_name es name, e)
          → work s.ec ≡ some ((exist, none), e))
      → Refused s parent (under_lock x k s parent work)
  exist_under_lock s parent name es work free h done =
      let (e, found, keeps, _) = lookup_lem s.ec parent name es h in
      let (s', ran, here, freed) = under_lock-Freed x k s parent work free (done e found) in
      (s', ran, λ j. ap (λ v. x.value v j) here ∙ keeps j, freed)

  -- `create` of a name that the directory has returns EXIST; no content changes, and the lock is free
  -- again.
  pub create_exist :
      (s : Yfs E L) (parent : ℕ) (name : Bytes) (es : List Dirent) (inum : ℕ)
      → k.held s.lc parent ≡ false
      → Holds (x.value s.ec parent) es
      → find_name es name ≡ some inum
      → Refused s parent (create x k s parent name)
  unfolding create
  create_exist s parent name es inum free h old =
      exist_under_lock s parent name es (λ ec. create_in x k 2 ec parent name) free h
        (λ e found. unfold create_in in rw (found, old) refl)

  -- So do `mkdir` and `symlink`.
  pub mkdir_exist :
      (s : Yfs E L) (parent : ℕ) (name : Bytes) (es : List Dirent) (inum : ℕ)
      → k.held s.lc parent ≡ false
      → Holds (x.value s.ec parent) es
      → find_name es name ≡ some inum
      → Refused s parent (mkdir x k s parent name)
  unfolding mkdir
  mkdir_exist s parent name es inum free h old =
      exist_under_lock s parent name es (λ ec. create_in x k 1 ec parent name) free h
        (λ e found. unfold create_in in rw (found, old) refl)

  pub symlink_exist :
      (s : Yfs E L) (parent : ℕ) (name target : Bytes) (es : List Dirent) (inum : ℕ)
      → k.held s.lc parent ≡ false
      → Holds (x.value s.ec parent) es
      → find_name es name ≡ some inum
      → Refused s parent (symlink x k s parent name target)
  unfolding symlink
  symlink_exist s parent name target es inum free h old =
      exist_under_lock s parent name es
        (λ ec. do
          (found, ec1) ← lookup x k ec parent name
          elim found [
            | some _ ↦ some ((exist, none), ec1)
            | none ↦ do
              (id, ec2) ← x.create_symlink ec1 name target parent
              some ((ok, some id), ec2)
          ])
        free h (λ e found. rw (found, old) refl)
