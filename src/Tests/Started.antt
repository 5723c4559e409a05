-- ===== src/Tests/Started.antt =====
-- A node that starts on empty tables with a genesis file of two accounts.
use reddit_commander.Prelude.{[]}
use reddit_commander.Account.{Account}
use reddit_commander.Params.{Params}
use reddit_commander.Database.{Db}
use reddit_commander.Genesis.Loaded.{Loaded}
use reddit_commander.Tests.Stores.{stored, quiet_tables, some_db}

abbrev no_db : Db quiet_tables
no_db = record some_db { params = stored []; syncs = stored []; txs = stored [] }
