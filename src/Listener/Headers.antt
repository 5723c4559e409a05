-- ===== src/Listener/Headers.antt =====
-- listener/syncer.go: headers without events, and headers that are not new.
use reddit_commander.Prelude.{
  ℕ, zero, suc, ◌%◌, ◌^◌, Bool-cases, ◌≤◌, ◌<◌, ◌≡◌, ◌⊎◌, inl, inr, refl, ap, ◌∙◌, arith, List, [],
  ◌∷◌, Error, ok, err, leb, true, false,
}
use reddit_commander.Merkle.{Crypto}
use reddit_commander.Gorm.{IsQuiet}
use reddit_commander.Params.{SyncStatus, update_sync_status_with_block_number}
use reddit_commander.Params.Writes.{newer}
use reddit_commander.Params.Sync.{
  SyncWrite, run_sync_write, run_sync_write-Leaves, get_sync_status_one,
}
use reddit_commander.Database.{Tables, Db}
use reddit_commander.Listener.{Chain, Event, or_return}
use reddit_commander.Listener.Syncer.{header_logs, process_header, process_events, process_logs}

le→leb : (a b : ℕ) → a ≤ b → leb a b ≡ true
le→leb a b h = ground arith

lt→leb : (a b : ℕ) → b < a → leb a b ≡ false
lt→leb a b h = ground arith

newer_pos : (n old : ℕ) → 0 < n → newer n old ≡ n
newer_pos zero old pos = absurd (omega arith)
newer_pos (suc n) old pos = refl

module _ (K : Crypto) (C : Chain) (G : Tables) (quiet : IsQuiet G.sync_table) where
  -- With one row of progress and where no statement on it fails, a header whose number's low 64
  -- bits are not above the recorded block, or whose logs cannot be fetched, changes no row of any table.
  pub process_header-idle :
      (abis : List (List Event)) (number : ℕ) (r : SyncStatus) (db : Db G)
      → G.sync_table.rows db.syncs ≡ r ∷ []
      → (number % 2 ^ 64 ≤ r.last_eth_block_recorded)
        ⊎ ((e : Error) × (C.filter_logs r.last_eth_block_recorded number ≡ err e))
      → process_header K C G abis number db
        ≡ (ok tt, record db { syncs = G.sync_table.tick db.syncs })
  unfolding process_header header_logs
  process_header-idle abis number r db one (inl le) =
      rw
        (
          get_sync_status_one G.sync_table quiet r db.syncs one,
          le→leb (number % 2 ^ 64) r.last_eth_block_recorded le,
        )
        refl
  process_header-idle abis number r db one (inr (e, failed)) =
      elim (Bool-cases (leb (number % 2 ^ 64) r.last_eth_block_recorded)) [
        | inl b ↦ rw (get_sync_status_one G.sync_table quiet r db.syncs one, b) refl
        | inr b ↦ rw (get_sync_status_one G.sync_table quiet r db.syncs one, b, failed) refl
      ]

  process_events-empty :
      (abis : List (List Event)) (number : ℕ) (db : Db G) (s : G.sync_table.Store)
      → update_sync_status_with_block_number G.sync_table (number % 2 ^ 64) db.syncs ≡ (ok tt, s)
      → process_events K C G abis [] number db ≡ (ok tt, record db { syncs = s })
  unfolding process_events process_logs
  process_events-empty abis number db s runs =
      ap (λ result. or_return (λ (d : Db G). (result.0, record d { syncs = result.1 })) db) runs

  -- With one row of progress and where no statement on it fails, a header whose number's low 64 bits
  -- are above the recorded block and whose blocks have no logs has them recorded as the last block, and
  -- nothing else changes.
  pub process_header-empty :
      (abis : List (List Event)) (number : ℕ) (r : SyncStatus) (db : Db G)
      → G.sync_table.rows db.syncs ≡ r ∷ []
      → r.last_eth_block_recorded < number % 2 ^ 64
      → C.filter_logs r.last_eth_block_recorded number ≡ ok []
      → (s : G.sync_table.Store) × (process_header K C G abis number db
          ≡ (ok tt, record db { syncs = s }))
        × (G.sync_table.rows s ≡ record r { last_eth_block_recorded = number % 2 ^ 64 } ∷ [])
  unfolding process_header header_logs run_sync_write
  process_header-empty abis number r db one new none_there =
      let (s, runs, written) =
        run_sync_write-Leaves G.sync_table quiet (SyncWrite.block (number % 2 ^ 64)) r
          (G.sync_table.tick db.syncs) (G.sync_table.rows-tick db.syncs ∙ one) in
      let updates : update_sync_status_with_block_number G.sync_table (number % 2 ^ 64)
            (G.sync_table.tick db.syncs)
          ≡ (ok tt, s) =
        runs in
      (
        s,
        rw
            (
              get_sync_status_one G.sync_table quiet r db.syncs one,
              lt→leb (number % 2 ^ 64) r.last_eth_block_recorded new,
              none_there,
              process_events-empty abis number (record db { syncs = G.sync_table.tick db.syncs }) s
                  updates,
            )
            refl,
        written
            ∙ ap (λ n. record r { last_eth_block_recorded = n } ∷ [])
                (newer_pos (number % 2 ^ 64) r.last_eth_block_recorded (omega arith)),
      )
