-- ===== src/Account/Taken.antt =====
-- core/account.go: `InitAccountTree` where a key is taken.
use reddit_commander.Account.{Account}
