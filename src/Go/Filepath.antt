-- ===== src/Go/Filepath.antt =====
-- Package `path/filepath`, on Unix.
use lts_agent.Base.{Bool, Bytes, List, [], ◌∷◌, ◌++◌, reverse, lit, same, if◌then◌else◌, is_empty}
use lts_agent.Go.Strings.{has_prefix, split, join}

-- `filepath.IsAbs`.
unfoldable pub is_abs : Bytes → Bool
is_abs path = has_prefix (lit "/") path

-- The segments that are kept, the last one first, after one more segment of a rooted path.
clean_step : List Bytes → Bytes → List Bytes
clean_step kept segment =
    if is_empty segment
    then kept
    else if same segment (lit ".")
    then kept
    else if same segment (lit "..")
    then elim kept [ [] ↦ [] | last ∷ before ↦ before ]
    else segment ∷ kept

clean_segments : List Bytes → List Bytes → List Bytes
clean_segments kept [] = kept
clean_segments kept (segment ∷ segments) = clean_segments (clean_step kept segment) segments

-- `filepath.Clean`, of a rooted path.
unfoldable pub clean_rooted : Bytes → Bytes
unfolding clean_step clean_segments
clean_rooted path = b'/' ∷ join (lit "/") (reverse (clean_segments [] (split b'/' path)))

-- `filepath.Join(directory, path)`, where the directory is rooted.
unfoldable pub join_rooted : Bytes → Bytes → Bytes
join_rooted directory path =
    clean_rooted (if is_empty path then directory else directory ++ (b'/' ∷ path))
