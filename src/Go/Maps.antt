-- ===== src/Go/Maps.antt =====
-- A Go `map[string]string`: what was stored last under a key is found first.
use lts_agent.Base.{Bytes, List, [], ◌∷◌, same, if◌then◌else◌}

abbrev pub Map : Type 0
Map = List (Bytes × Bytes)

-- `m[key] = value`.
abbrev pub put : Bytes → Bytes → Map → Map
put key value m = (key, value) ∷ m

-- `m[key]`, which is the empty string where the key is missing.
unfoldable pub get : Bytes → Map → Bytes
get key [] = []
get key ((k, v) ∷ m) = if same k key then v else get key m
