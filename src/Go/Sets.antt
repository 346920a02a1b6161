-- ===== src/Go/Sets.antt =====
-- A `map[string]struct{}` as the list of its keys, and `sort.Strings`.
pub mod Order
use lts_agent.Base.{Bool, true, false, Bytes, List, [], ◌∷◌, less, contains, if◌then◌else◌}

-- `unique[value] = struct{}{}`.
unfoldable pub add : Bytes → List Bytes → List Bytes
add v keys = if contains v keys then keys else v ∷ keys

-- `v` before the first string that is not less.
unfoldable pub insert : Bytes → List Bytes → List Bytes
insert v [] = v ∷ []
insert v (x ∷ xs) = if less x v then x ∷ insert v xs else v ∷ x ∷ xs

-- `sort.Strings`.
unfoldable pub sort_strings : List Bytes → List Bytes
unfolding insert
sort_strings [] = []
sort_strings (x ∷ xs) = insert x (sort_strings xs)
