-- ===== src/Tests/Server.antt =====
-- The server's requests on sample data.
use blaze_list.Prelude.{arith, ℕ, ◌≡◌, refl, ◌⊎◌, [], ◌∷◌}
use blaze_list.Prelude.Int.{pos}
use blaze_list.Prelude.Result.{ok}
use blaze_list.Protocol.Card
use blaze_list.Protocol.Card.{Card}
use blaze_list.Protocol.Tag
use blaze_list.Protocol.Tag.{Tag, first_with_implies, dedup, normalize_implies}
use blaze_list.Protocol.NonNegative.{try_from_u64, try_from_i64, to_i64, to_u64}
use blaze_list.Protocol.Messages.{Request, Response, ProtocolError, is_mutation}
use blaze_list.Server.Db.{Db, empty_db, is_deleted, bucket_of}
use blaze_list.Server.Storage.{
  push_batch, delete_tag, delete_tag_tx, note_item, stamp_each, stamp_affected, push_item,
  push_items, finish_batch, push_batch_tx,
}
use blaze_list.Server.Write.{
  delete_tag_inner, linked, has_card_version, has_tag_version, insert_card_versions,
  insert_tag_versions, priority_holder, put_card, put_tag, check_card_ancestor, check_tag_ancestor,
  push_card_chain, push_card_versions_inner, push_tag_chain, push_tag_versions_inner,
  stamp_card_sequence, stamp_tag_sequence, stamp_delete_sequence,
}
use blaze_list.Server.Table.{select, delete, replace, update}
use blaze_list.Server.Storage.Soundness.{IsValid}
use blaze_list.Server.Storage.Roots.{Advances}
use blaze_list.Server.Handler.{handle_request, storage_error_to_protocol}
use blaze_list.Server.Handler.Valid.{empty_db-IsValid, handle_request-IsValid}
use blaze_list.Server.Handler.Atomic.{handle_request_read, handle_request_error}
use blaze_list.Server.Handler.Sequence.{handle_request-Advances}
use blaze_list.Server.Root.History.{IsBounded, recompute_root_for_ids_total}
use blaze_list.Prelude.Btree.{set_insert, map_get, map_insert, map_remove, set_of}
use blaze_list.Prelude.Sort.{insert_by, sort_by}
use blaze_list.Protocol.Bytes.{
  be_bytes, u64_of_i64, i64_bytes, sort_ids, id_list_bytes, bool_bytes, due_date_bytes, color_bytes,
  canonical_card_bytes, implies_bytes, canonical_tag_bytes, canonical_card_hash, canonical_tag_hash,
}
use blaze_list.Protocol.Graph.{
  pairs_into, from_pairs, implies_of, sorted_implies, push_unvisited, closure_loop, edge_count,
  closure_of, missing_for_card,
}
use blaze_list.Protocol.Graph.Cycle.{
  position, cycle_at, enter, leave, advance, visit, descend, search_from, cycle_fuel,
  initial_colors, detect_cycle,
}
use blaze_list.Server.Root.{
  hashes_by_id, card_hashes, tag_hashes, deleted_hashes, hash_list_bytes, affected_buckets,
  recompute_bucket_hash, root_of_buckets, recompute_root_from_buckets, recompute_buckets,
  recompute_root_for_ids,
}
use blaze_list.Server.Implications.{
  tag_snapshot, card_snapshot, overlay_tags, overlay_cards, check_dangling, check_acyclic,
  check_closed, check_snapshots, validate_batch_implications,
}
use blaze_list.Tests.Data.{sample_hash, batch}

handle_request-IsValid_example :
    IsValid (handle_request sample_hash empty_db (Request.push_batch batch) (pos 9)).1
handle_request-IsValid_example =
    handle_request-IsValid sample_hash empty_db (Request.push_batch batch) (pos 9) empty_db-IsValid

batch_passes : (push_batch sample_hash empty_db batch (pos 9)).0 ≡ ok tt
unfolding set_insert map_get map_insert map_remove set_of insert_by sort_by try_from_i64 to_i64
    to_u64 try_from_u64 be_bytes u64_of_i64 i64_bytes sort_ids id_list_bytes bool_bytes
    due_date_bytes color_bytes canonical_card_bytes implies_bytes canonical_tag_bytes
    canonical_card_hash canonical_tag_hash Card.expected_hash Card.seal Card.first dedup
    normalize_implies Tag.expected_hash Tag.seal first_with_implies pairs_into from_pairs implies_of
    sorted_implies push_unvisited closure_loop edge_count closure_of missing_for_card position
    cycle_at enter leave advance visit descend search_from cycle_fuel initial_colors detect_cycle
    select delete replace update empty_db bucket_of is_deleted linked has_card_version
    has_tag_version insert_card_versions insert_tag_versions priority_holder put_card put_tag
    check_card_ancestor check_tag_ancestor push_card_chain push_card_versions_inner push_tag_chain
    push_tag_versions_inner stamp_card_sequence stamp_tag_sequence stamp_delete_sequence
    hashes_by_id card_hashes tag_hashes deleted_hashes hash_list_bytes affected_buckets
    recompute_bucket_hash root_of_buckets recompute_root_from_buckets recompute_buckets
    recompute_root_for_ids tag_snapshot card_snapshot overlay_tags overlay_cards check_dangling
    check_acyclic check_closed check_snapshots validate_batch_implications note_item stamp_each
    stamp_affected push_item push_items finish_batch push_batch_tx push_batch
batch_passes = refl

handle_request-Advances_example :
    ((handle_request sample_hash empty_db (Request.push_batch batch) (pos 9)).1 ≡ empty_db)
    ⊎ Advances sample_hash
        (pos 9)
        empty_db
        (handle_request sample_hash empty_db (Request.push_batch batch) (pos 9)).1
handle_request-Advances_example =
    handle_request-Advances sample_hash empty_db (Request.push_batch batch) (pos 9)

handle_request_read_example :
    (handle_request sample_hash empty_db (Request.get_card 3) (pos 9)).1 ≡ empty_db
unfolding is_mutation
handle_request_read_example =
    handle_request_read sample_hash empty_db (Request.get_card 3) (pos 9) refl

unknown_tag :
    (handle_request sample_hash empty_db (Request.delete_tag 3) (pos 9)).0
    ≡ Response.error ProtocolError.not_found
unfolding handle_request delete_tag delete_tag_tx delete_tag_inner is_deleted select empty_db
    storage_error_to_protocol
unknown_tag = refl

handle_request_error_example :
    (handle_request sample_hash empty_db (Request.delete_tag 3) (pos 9)).1 ≡ empty_db
handle_request_error_example =
    handle_request_error sample_hash empty_db (Request.delete_tag 3) (pos 9) ProtocolError.not_found
      unknown_tag

empty_db-IsBounded : IsBounded empty_db
unfolding empty_db
empty_db-IsBounded = tt

recompute_root_for_ids_total_example :
    (r : Db × ℕ) × (recompute_root_for_ids sample_hash empty_db (1 ∷ 2 ∷ []) (pos 9) ≡ ok r)
recompute_root_for_ids_total_example =
    recompute_root_for_ids_total sample_hash empty_db (1 ∷ 2 ∷ []) (pos 9) empty_db-IsBounded
      (unfold empty_db in omega arith)
