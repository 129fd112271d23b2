-- ===== src/Server/History.antt =====
-- `get_sequence_history` of server/src/storage/sqlite/mod.rs.
use blaze_list.Prelude.{
  ℕ, Bool, true, Option, none, some, List, [], ◌∷◌, ◌++◌, filter, map, contains, ◌==◌, ltb, leb,
  ◌&&◌, if◌then◌else◌,
}
use blaze_list.Prelude.Btree.{map_get, map_insert, map_remove}
use blaze_list.Prelude.Sort.{sort_by}
use blaze_list.Prelude.Result.{Result, ok}
use blaze_list.Protocol.NonNegative.{NonNegativeI64}
use blaze_list.Protocol.Messages.{
  SequenceOperation, card_created, card_updated, tag_created, tag_updated, entity_deleted,
  SequenceHistoryEntry,
}
use blaze_list.Server.Errors.{StorageError}
use blaze_list.Server.Db.{Db, HistoryRow, CardVersionRow, TagVersionRow, DeletedRow}
use blaze_list.Server.Reads.{limited, or_nil}

-- An operation with the sequence at which it happened.
abbrev pub Stamped : Type 0
Stamped = ℕ × SequenceOperation

abbrev pub is_before : Option NonNegativeI64 → ℕ → Bool
is_before none n = true
is_before (some after) n = ltb n after.value

-- `WHERE sequence < ? ORDER BY sequence DESC LIMIT ?`
unfoldable pub root_entries : Db → Option NonNegativeI64 → Option ℕ → List HistoryRow
root_entries db after_sequence limit = limited limit (
    sort_by (λ (a : HistoryRow) (b : HistoryRow). leb b.sequence a.sequence)
      (filter (λ (r : HistoryRow). is_before after_sequence r.sequence) db.root_history))

-- The rows with a sequence that is asked for.
abbrev pub is_listed : List ℕ → ℕ → Bool
is_listed seq_set n = ltb 0 n && contains seq_set n

unfoldable pub card_ops : Db → List ℕ → List Stamped
card_ops db seq_set =
    map
      (λ (r : CardVersionRow). (
        r.root_sequence_at,
        record {
          entity_id = r.version.id;
          kind = if r.version.count.value == 1 then card_created else card_updated;
        },
      ))
      (filter (λ (r : CardVersionRow). is_listed seq_set r.root_sequence_at) db.card_versions)

unfoldable pub tag_ops : Db → List ℕ → List Stamped
tag_ops db seq_set =
    map
      (λ (r : TagVersionRow). (
        r.root_sequence_at,
        record {
          entity_id = r.version.id;
          kind = if r.version.count.value == 1 then tag_created else tag_updated;
        },
      ))
      (filter (λ (r : TagVersionRow). is_listed seq_set r.root_sequence_at) db.tag_versions)

unfoldable pub delete_ops : Db → List ℕ → List Stamped
delete_ops db seq_set =
    map
      (λ (r : DeletedRow).
        (r.root_sequence_at, record { entity_id = r.entity.id; kind = entity_deleted }))
      (filter (λ (r : DeletedRow). is_listed seq_set r.root_sequence_at) db.deleted_entities)

-- `ops_by_seq.entry(seq).or_default().push(op)` for each operation.
unfoldable pub group_ops :
    List Stamped → List (ℕ × List SequenceOperation) → List (ℕ × List SequenceOperation)
group_ops [] m = m
group_ops ((seq, op) ∷ ops) m = group_ops ops (map_insert seq (or_nil (map_get seq m) ++ op ∷ []) m)

-- Each entry takes the operations of its sequence out of the map.
unfoldable pub attach_ops :
    List HistoryRow → List (ℕ × List SequenceOperation) → List SequenceHistoryEntry
attach_ops [] m = []
attach_ops (r ∷ rs) m =
    record {
      sequence = record { value = r.sequence };
      hash = r.hash;
      operations = or_nil (map_get r.sequence m);
      created_at = r.created_at;
    }
    ∷ attach_ops rs (map_remove r.sequence m)

unfoldable pub get_sequence_history :
    Db → Option NonNegativeI64 → Option ℕ → Result StorageError (List SequenceHistoryEntry)
get_sequence_history db after_sequence limit =
    let entries = root_entries db after_sequence limit in
    let seq_set = map (λ (r : HistoryRow). r.sequence) entries in
    let ops = card_ops db seq_set ++ (tag_ops db seq_set ++ delete_ops db seq_set) in
    ok (attach_ops entries (group_ops ops []))
