-- ===== src/Constants.antt =====
-- core/constants.go.
use reddit_commander.Prelude.{ℕ, codes}
use reddit_commander.Bytes.{Str}

abbrev pub status_pending : ℕ
status_pending = 0

abbrev pub status_active : ℕ
status_active = 1

abbrev pub status_inactive : ℕ
status_inactive = 2

abbrev pub status_non_initialized : ℕ
status_non_initialized = 100

abbrev pub type_terminal : ℕ
type_terminal = 1

abbrev pub type_root : ℕ
type_root = 0

abbrev pub type_non_terminal : ℕ
type_non_terminal = 2

abbrev pub uninitialized_path : Str
uninitialized_path = codes "-1"

abbrev pub tx_status_pending : ℕ
tx_status_pending = 100

abbrev pub tx_status_processing : ℕ
tx_status_processing = 200

abbrev pub tx_status_processed : ℕ
tx_status_processed = 300

abbrev pub tx_status_reverted : ℕ
tx_status_reverted = 400

abbrev pub batch_broadcasted : ℕ
batch_broadcasted = 100

abbrev pub batch_committed : ℕ
batch_committed = 200

abbrev pub tx_genesis : ℕ
tx_genesis = 0

abbrev pub tx_transfer_type : ℕ
tx_transfer_type = 1

abbrev pub tx_create_2_transfer : ℕ
tx_create_2_transfer = 2

abbrev pub tx_mass_migrations : ℕ
tx_mass_migrations = 3

abbrev pub tx_deposit : ℕ
tx_deposit = 4
