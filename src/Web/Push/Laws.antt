-- ===== src/Web/Push/Laws.antt =====
-- The outcomes of `push_card_or_queue` in clients/wasm/src/state/sync.rs, on every answer to a push.
use blaze_list.Prelude.Result.{Result}
use blaze_list.Protocol.Card.{Card}
