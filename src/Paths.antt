-- ===== src/Paths.antt =====
-- Paths as their characters: how the file systems split them (fuse_adaptor/operations.cpp and
-- in_memory_fuse_frontend/main.cpp), and the paths that are made of names.
use dogbox.Base.{
  suc, ◌≤◌, ◌≡◌, ◌≢◌, refl, List, [], ◌∷◌, ◌++◌, arith, length, length-append, All, Bytes,
}
use dogbox.Base.{find, find-first, find-absent}

pub record PathSplitResult : Type 0 where
  pub head : Bytes
  pub tail : Bytes

abbrev pub split_at : Bytes × Bytes → PathSplitResult
split_at (before, []) = record { head = before; tail = [] }
split_at (before, slash ∷ behind) = record { head = before; tail = behind }

unfoldable pub split_path : Bytes → PathSplitResult
split_path original = split_at (find b'/' original)

-- The text of a path of names, and the names that such a path can have.
abbrev pub path_text : List Bytes → Bytes
path_text [] = []
path_text (name ∷ []) = name
path_text (name ∷ next ∷ names) = name ++ b'/' ∷ path_text (next ∷ names)

abbrev pub IsName : Bytes → Type 0
IsName name = (1 ≤ length name) × All (λ c. c ≢ b'/') name

pub path_text-some :
    (name : Bytes) (names : List Bytes) → IsName name → 1 ≤ length (path_text (name ∷ names))
path_text-some name [] v = v.0
path_text-some name (next ∷ names) v =
    omega (arith, v.0, length-append name (b'/' ∷ path_text (next ∷ names)))

pub split_path-path_text :
    (name : Bytes) (names : List Bytes)
    → IsName name
    → split_path (path_text (name ∷ names)) ≡ record { head = name; tail = path_text names }
unfolding split_path
split_path-path_text name [] v = rw (find-absent b'/' name v.1) refl
split_path-path_text name (next ∷ names) v =
    rw (find-first b'/' name (path_text (next ∷ names)) v.1) refl

-- The rest of a path is shorter by a character at least.
pub longer :
    (name : Bytes) (names : List Bytes)
    → IsName name
    → suc (length (path_text names)) ≤ length (path_text (name ∷ names))
longer name [] v = v.0
longer name (next ∷ names) v = omega (arith, length-append name (b'/' ∷ path_text (next ∷ names)))
