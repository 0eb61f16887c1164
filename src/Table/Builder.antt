-- ===== src/Table/Builder.antt =====
-- The setters of `DbTableBuilder` (src/table.rs), each of which replaces one part. The schema is a
-- parameter of the table, so only whether it is set is kept.
use alchemy.Base.{ℕ, Option, some}
use alchemy.Schema.{Schema}
use alchemy.Table.{DbIndex, DbTableBuilder}

module _ {I : DbIndex} {S : Schema} where
  unfoldable pub set_cache : ℕ → DbTableBuilder I S → DbTableBuilder I S
  set_cache size b = record b { cache_size = some size }

  unfoldable pub set_storage : ℕ → DbTableBuilder I S → DbTableBuilder I S
  set_storage size b = record b { storage_size = some size }

  unfoldable pub set_probe_len : Option ℕ → DbTableBuilder I S → DbTableBuilder I S
  set_probe_len probe_len b = record b { probe_len = probe_len }

  unfoldable pub set_index : I.Index → DbTableBuilder I S → DbTableBuilder I S
  set_index index b = record b { index = some index }

  unfoldable pub set_schema : DbTableBuilder I S → DbTableBuilder I S
  set_schema b = record b { schema = some tt }
