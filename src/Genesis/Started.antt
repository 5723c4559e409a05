-- ===== src/Genesis/Started.antt =====
-- cmd/start.go: a node that starts on an empty database, and starts again.
use reddit_commander.State.Rows.{Rows}
use reddit_commander.Account.{Account}
use reddit_commander.Genesis.{Genesis}
use reddit_commander.Genesis.Loaded.{Loaded}
