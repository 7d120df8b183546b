-- ===== src/Trees/ReadCaching.antt =====
-- trees/read_file.h: the modes of the read cache, and their names.
use dogbox.Base.{List, [], ◌∷◌, ◌++◌, Bytes, codes}

pub data ReadCaching : Type 0 where
  none : ReadCaching
  one_piece : ReadCaching

-- `operator<<`: what the stream `out` holds afterwards.
unfoldable pub print_read_caching : Bytes → ReadCaching → Bytes
print_read_caching out none = out ++ codes "none"
print_read_caching out one_piece = out ++ codes "one_piece"

abbrev pub all_read_caching_modes : List ReadCaching
all_read_caching_modes = none ∷ one_piece ∷ []
