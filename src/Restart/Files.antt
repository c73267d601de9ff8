-- ===== src/Restart/Files.antt =====
-- The directory `env_dir` as the names and the contents of its files, a name at most once.
use uswarm_unitctl.Base.{
  ◌≡◌, refl, false, Option, none, some, List, [], ◌∷◌, Text, text_eq, text_eq_refl, text_eq_iff,
  if◌then◌else◌, arith,
}

abbrev pub Files : Type 0
Files = List (Text × Text)

unfoldable pub read : Files → Text → Option Text
read [] name = none
read ((n, c) ∷ files) name = let rest = read files name in if text_eq n name then some c else rest

unfoldable pub delete : Files → Text → Files
delete [] name = []
delete ((n, c) ∷ files) name =
    let rest = delete files name in if text_eq n name then rest else (n, c) ∷ rest

-- Writing a file replaces what stood there.
unfoldable pub write : Files → Text → Text → Files
write files name content = (name, content) ∷ delete files name

pub read_deleted : (files : Files) (name : Text) → read (delete files name) name ≡ none
unfolding read delete
read_deleted [] name = refl
read_deleted ((n, c) ∷ files) name = ground (arith, read_deleted files name)

pub read_written :
    (files : Files) (name content : Text) → read (write files name content) name ≡ some content
unfolding read write
read_written files name content = ground (arith, text_eq_refl name)

-- The deletion of a file leaves the others.
pub read-delete :
    (files : Files) (name other : Text)
    → text_eq name other ≡ false
    → read (delete files name) other ≡ read files other
unfolding read delete
read-delete [] name other h = refl
read-delete ((n, c) ∷ files) name other h =
    ground (arith, read-delete files name other h, text_eq_iff n name, text_eq_iff n other)
