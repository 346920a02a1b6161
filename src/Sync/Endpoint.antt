-- ===== src/Sync/Endpoint.antt =====
-- The endpoints of a node in internal/coresync/sync.go.
use lts_agent.Base.{◌≡◌, refl, ap, true, Bytes, [], ◌∷◌, ◌++◌, all, arith, lit}
use lts_agent.Go.Strings.{split}
use lts_agent.Sync.Token.{is_node_byte}
use lts_agent.Sync.Identity.{IsNodeId, path_escape-IsNodeId}
use lts_agent.Sync.{node_endpoint}

split-all : (s : Bytes) → all is_node_byte s ≡ true → split b'/' s ≡ s ∷ []
unfolding split
split-all [] h = refl
split-all (c ∷ s) h = ground (arith, split-all s)

segment-IsNodeId : (s : Bytes) → IsNodeId s → split b'/' s ≡ s ∷ []
segment-IsNodeId [] h = absurd h
segment-IsNodeId (c ∷ s) h = split-all (c ∷ s) (ground arith)

-- For a well-formed node id the endpoint is `v1/nodes/`, the id itself and the suffix, and the id
-- is a single segment of that path.
pub node_endpoint-IsNodeId :
    (node_id suffix : Bytes)
    → IsNodeId node_id
    → (node_endpoint node_id suffix ≡ lit "v1/nodes/" ++ (node_id ++ suffix))
      × (split b'/' node_id ≡ node_id ∷ [])
node_endpoint-IsNodeId node_id suffix h = (
  ap (λ s. lit "v1/nodes/" ++ (s ++ suffix)) (path_escape-IsNodeId node_id h),
  segment-IsNodeId node_id h,
)
