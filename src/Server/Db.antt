-- ===== src/Server/Db.antt =====
-- The tables of server/src/storage/sqlite/schema.rs, and the row helpers of sqlite/helpers.rs. A
-- column that SQLite keeps as a blob holds the value that postcard reads back from it.
use blaze_list.Prelude.{
  ℕ, leb, if◌then◌else◌, ◌/◌, ◌%◌, ◌^◌, Bool, true, false, none, some, List, [], replicate,
}
use blaze_list.Prelude.Result.{Result, ok, err, map_err}
use blaze_list.Protocol.Types.{Uuid, Hash, DateTime, zero_hash}
use blaze_list.Protocol.Card.{Card}
use blaze_list.Protocol.Card
use blaze_list.Protocol.Tag.{Tag}
use blaze_list.Protocol.Tag
use blaze_list.Protocol.Deleted.{DeletedEntity}
use blaze_list.Protocol.Messages.{RootState}
use blaze_list.Server.Errors.{SqlError, StorageError, storage_of_sql, sql_error}
use blaze_list.Server.Table.{select}

pub record CardRow : Type 0 where
  pub card : Card
  pub root_sequence_at : ℕ
  pub bucket : ℕ

pub record TagRow : Type 0 where
  pub tag : Tag
  pub root_sequence_at : ℕ
  pub bucket : ℕ

pub record CardVersionRow : Type 0 where
  pub version : Card
  pub root_sequence_at : ℕ

pub record TagVersionRow : Type 0 where
  pub version : Tag
  pub root_sequence_at : ℕ

pub record DeletedRow : Type 0 where
  pub entity : DeletedEntity
  pub root_sequence_at : ℕ
  pub bucket : ℕ

pub record HistoryRow : Type 0 where
  pub sequence : ℕ
  pub hash : Hash
  pub created_at : DateTime

pub record Db : Type 0 where
  pub cards : List CardRow
  pub card_versions : List CardVersionRow
  pub tags : List TagRow
  pub tag_versions : List TagVersionRow
  pub deleted_entities : List DeletedRow
  pub root_hash : Hash
  pub root_sequence : ℕ
  pub root_history : List HistoryRow
  pub root_buckets : List Hash

-- The primary keys.
abbrev pub card_key : CardRow → Uuid
card_key r = r.card.id

abbrev pub tag_key : TagRow → Uuid
tag_key r = r.tag.id

abbrev pub deleted_key : DeletedRow → Uuid
deleted_key r = r.entity.id

-- The tables after `init_schema` on a new file.
unfoldable pub empty_db : Db
empty_db = record {
  cards = [];
  card_versions = [];
  tags = [];
  tag_versions = [];
  deleted_entities = [];
  root_hash = zero_hash;
  root_sequence = 0;
  root_history = [];
  root_buckets = replicate 256 zero_hash;
}

-- The first byte of the identifier.
unfoldable pub bucket_of : Uuid → ℕ
bucket_of id = id / 2 ^ 120 % 256

unfoldable pub is_deleted : Db → Uuid → Bool
is_deleted db id = elim (select deleted_key id db.deleted_entities) [ none ↦ false | some _ ↦ true ]

-- A number past an `i64` does not read back.
unfoldable pub read_root_state : Db → Result StorageError RootState
read_root_state db =
    if leb db.root_sequence 9223372036854775807
    then ok (record { hash = db.root_hash; sequence = record { value = db.root_sequence } })
    else err (storage_of_sql sql_error)

module _ (blake3 : List ℕ → Hash) where
  -- The stored hash is checked again.
  unfoldable pub card_from_row : Card → Result SqlError Card
  card_from_row c = map_err (λ _. sql_error) (Card.from_parts blake3 c)

  unfoldable pub tag_from_row : Tag → Result SqlError Tag
  tag_from_row t = map_err (λ _. sql_error) (Tag.from_parts blake3 t)
