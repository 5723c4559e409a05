-- ===== src/Params/Sync.antt =====
-- What a sequence of updates leaves in the table of the syncer's progress, core/params.go.
use reddit_commander.Prelude.{ℕ, ◌≡◌, refl, ap, ◌∙◌, true, List, [], ◌∷◌, ok, list_eq, list_eq_refl}
use reddit_commander.Gorm.{Exec, Table, IsQuiet, pure, ◌>>◌}
use reddit_commander.Params.{
  SyncStatus, get_sync_status, update_sync_status_with_batch_number, assign_sync,
  update_sync_status_with_block_number,
}
use reddit_commander.Params.Writes.{Leaves, newer, newer_self, overwrite_number-newer}

-- An update of the progress and its value.
pub data SyncWrite : Type 0 where
  batch block : ℕ → SyncWrite

module _ (T : Table SyncStatus) where
  unfoldable pub run_sync_write : SyncWrite → Exec T.Store (Unit {0})
  run_sync_write (batch n) = update_sync_status_with_batch_number T n
  run_sync_write (block n) = update_sync_status_with_block_number T n

  unfoldable pub run_sync_writes : List SyncWrite → Exec T.Store (Unit {0})
  run_sync_writes [] = pure tt
  run_sync_writes (w ∷ ws) = do run_sync_write w; run_sync_writes ws

abbrev pub put_sync : SyncWrite → SyncStatus → SyncStatus
put_sync (batch n) r = record r { last_batch_recorded = newer n r.last_batch_recorded }
put_sync (block n) r = record r { last_eth_block_recorded = newer n r.last_eth_block_recorded }

abbrev pub put_sync_all : List SyncWrite → SyncStatus → SyncStatus
put_sync_all [] r = r
put_sync_all (w ∷ ws) r = put_sync_all ws (put_sync w r)

module _ (T : Table SyncStatus) (q : IsQuiet T) where
  pub get_sync_status_one :
      (r : SyncStatus) (s : T.Store) → T.rows s ≡ r ∷ [] → get_sync_status T s ≡ (ok r, T.tick s)
  unfolding get_sync_status
  get_sync_status_one r s e = rw (T.find_one_lem (λ row. true) s, q s, e, T.pick_one r) refl

  -- The update of the only row, which has the id that was read.
  update_one :
      (f : SyncStatus → SyncStatus) (r r' : SyncStatus) (s : T.Store)
      → f r ≡ r'
      → T.rows s ≡ r ∷ []
      → Leaves T (T.update (λ row. list_eq row.id r.id) f) s r'
  update_one f r r' s written e = (
    T.updated (λ row. list_eq row.id r.id) f s,
    rw (T.update_lem (λ row. list_eq row.id r.id) f s, q s) refl,
    T.rows-updated (λ row. list_eq row.id r.id) f s
        ∙ rw (e, list_eq_refl r.id) (ap (λ x. x ∷ []) written),
  )

  assign_sync-newer :
      (block_number batch_index : ℕ) (r : SyncStatus)
      → assign_sync T block_number batch_index r ≡ record r {
        last_eth_block_recorded = newer block_number r.last_eth_block_recorded;
        last_batch_recorded = newer batch_index r.last_batch_recorded;
      }
  assign_sync-newer block_number batch_index r =
      rw
        (
          overwrite_number-newer T block_number r.last_eth_block_recorded,
          overwrite_number-newer T batch_index r.last_batch_recorded,
        )
        refl

  pub run_sync_write-Leaves :
      (w : SyncWrite) (r : SyncStatus) (s : T.Store)
      → T.rows s ≡ r ∷ []
      → Leaves T (run_sync_write T w) s (put_sync w r)
  unfolding run_sync_write update_sync_status_with_batch_number update_sync_status_with_block_number
  run_sync_write-Leaves (batch n) r s e =
      let (s1, e1, r1) =
        update_one (assign_sync T r.last_eth_block_recorded n) r (put_sync (batch n) r) (T.tick s)
          (assign_sync-newer r.last_eth_block_recorded n r
            ∙ ap (λ v. record (put_sync (batch n) r) { last_eth_block_recorded = v })
                (newer_self r.last_eth_block_recorded))
          (T.rows-tick s ∙ e) in
      (s1, rw (get_sync_status_one r s e) e1, r1)
  run_sync_write-Leaves (block n) r s e =
      let (s1, e1, r1) =
        update_one (assign_sync T n r.last_batch_recorded) r (put_sync (block n) r) (T.tick s)
          (assign_sync-newer n r.last_batch_recorded r
            ∙ ap (λ v. record (put_sync (block n) r) { last_batch_recorded = v })
                (newer_self r.last_batch_recorded))
          (T.rows-tick s ∙ e) in
      (s1, rw (get_sync_status_one r s e) e1, r1)

  run_sync_writes-Leaves :
      (ws : List SyncWrite) (r : SyncStatus) (s : T.Store)
      → T.rows s ≡ r ∷ []
      → Leaves T (run_sync_writes T ws) s (put_sync_all ws r)
  unfolding run_sync_writes
  run_sync_writes-Leaves [] r s e = (s, refl, e)
  run_sync_writes-Leaves (w ∷ ws) r s e =
      let (s1, e1, r1) = run_sync_write-Leaves w r s e in
      let (s2, e2, r2) = run_sync_writes-Leaves ws (put_sync w r) s1 r1 in
      (s2, rw (e1, e2) refl, r2)

  -- On a table of one row and where no statement fails, after a sequence of updates `GetSyncStatus`
  -- returns a row with the last block number and the last batch number other than 0 that were given,
  -- or the old ones. Neither update changes the other number.
  pub get_sync_status-run_sync_writes :
      (ws : List SyncWrite) (r : SyncStatus) (s : T.Store)
      → T.rows s ≡ r ∷ []
      → (s' : T.Store) × ((run_sync_writes T ws >> get_sync_status T) s
          ≡ (ok (put_sync_all ws r), s'))
  get_sync_status-run_sync_writes ws r s e =
      let (s1, e1, r1) = run_sync_writes-Leaves ws r s e in
      (T.tick s1, rw e1 (get_sync_status_one (put_sync_all ws r) s1 r1))
