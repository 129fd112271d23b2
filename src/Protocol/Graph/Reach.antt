-- ===== src/Protocol/Graph/Reach.antt =====
-- What a tag implies directly and through other tags.
use blaze_list.Prelude.{List, In}
use blaze_list.Protocol.Types.{Uuid}
use blaze_list.Protocol.Graph.{TagGraph, implies_of}

-- The tags that can be reached from the roots along `implies`.
pub data Reach (g : TagGraph) (roots : List Uuid) : Uuid → Type 0 where
  root : {x : Uuid} → In x roots → Reach g roots x
  step : {u v : Uuid} → Reach g roots u → In v (implies_of g u) → Reach g roots v

-- A list of tags with every tag that one of its tags implies.
abbrev pub IsClosed : TagGraph → List Uuid → Type 0
IsClosed g tags = (u v : Uuid) → In u tags → In v (implies_of g u) → In v tags
