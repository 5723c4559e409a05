-- ===== src/Tests/Deposits.antt =====
-- The finalisation of a deposit in a tree of depth two.
use reddit_commander.Prelude.{
  ℕ, ◌≡◌, refl, sym, subst, inl, inr, arith, [], ◌∷◌, ◌++◌, length, All, ok, codes,
}
use reddit_commander.Bytes.{Str, to_string}
use reddit_commander.Bytes.Hex.{encode}
use reddit_commander.NodePath.{IsBits, solidity_path_to_node_path, uint_to_string, format_bits}
use reddit_commander.Merkle.{zero_value_leaf}
use reddit_commander.Merkle.Defaults.{zero_value_leaf-IsByteArray}
use reddit_commander.Gorm.Memory.{reliable-IsQuiet}
use reddit_commander.State.{UserState, blank_state}
use reddit_commander.State.Rows.{Rows, Node, IsHash, to_string-IsHash, join, join-IsHash}
use reddit_commander.State.Spine.{IsTree}
use reddit_commander.State.Put.{Joined}
use reddit_commander.State.Update.{IsMerkle}
use reddit_commander.Params.{Params}
use reddit_commander.Database.{Db}
use reddit_commander.Deposit.{finalise_deposits}
use reddit_commander.Deposit.Queue.{Sound-beside}
use reddit_commander.Deposit.Sound.{Sound, Placed}
use reddit_commander.Deposit.Finalise.{Entered}
use reddit_commander.Deposit.Enter.{finalise_deposits-Entered}
use reddit_commander.Tests.Fixtures.{toy}
use reddit_commander.Tests.Stores.{stored, quiet_tables, some_params, some_db}

abbrev pub zero_text : Str
zero_text = to_string zero_value_leaf

abbrev pub empty_leaf : Str → UserState
empty_leaf p = record blank_state {
  path = p;
  status = 2;
  node_type = 1;
  hash = zero_text;
  level = 2;
}

abbrev pub inner : Str → ℕ → Str → UserState
inner p level hash = record blank_state {
  path = p;
  status = 1;
  node_type = 2;
  hash = hash;
  level = level;
}

abbrev pub hash_1 : Str
hash_1 = join toy zero_text zero_text

abbrev pub hash_0 : Str
hash_0 = join toy hash_1 hash_1

abbrev pub deposit : UserState
deposit = record blank_state {
  account_id = 3;
  state_data = 4 ∷ 2 ∷ [];
  path = codes "-1";
  node_type = 1;
  level = 2;
  hash = codes "0x04";
  created_by_deposit_sub_tree = zero_text;
}

abbrev pub tree_rows : Rows
tree_rows =
    empty_leaf (codes "00")
    ∷ empty_leaf (codes "01")
    ∷ empty_leaf (codes "10")
    ∷ empty_leaf (codes "11")
    ∷ inner (codes "0") 1 hash_1
    ∷ inner (codes "1") 1 hash_1
    ∷ inner [] 0 hash_0
    ∷ []

abbrev pub deposit_rows : Rows
deposit_rows = tree_rows ++ deposit ∷ []

abbrev Readable : Str → Type 0
Readable q = (r : UserState) × Node tree_rows q r × IsHash r.hash

zero_text-IsHash : IsHash zero_text
zero_text-IsHash = to_string-IsHash zero_value_leaf zero_value_leaf-IsByteArray

four_leaves-IsTree : IsTree 2 tree_rows
four_leaves-IsTree [] h le = (inner [] 0 hash_0, refl, join-IsHash toy hash_1 hash_1)
four_leaves-IsTree (c ∷ []) (inl e, _) le =
    subst (λ k. Readable (k ∷ [])) (sym e)
      (inner (codes "0") 1 hash_1, refl, join-IsHash toy zero_text zero_text)
four_leaves-IsTree (c ∷ []) (inr e, _) le =
    subst (λ k. Readable (k ∷ [])) (sym e)
      (inner (codes "1") 1 hash_1, refl, join-IsHash toy zero_text zero_text)
four_leaves-IsTree (c ∷ d ∷ []) (inl e, (inl f, _)) le =
    subst (λ k. Readable (k ∷ d ∷ [])) (sym e)
      (subst (λ k. Readable (48 ∷ k ∷ [])) (sym f)
        (empty_leaf (codes "00"), refl, zero_text-IsHash))
four_leaves-IsTree (c ∷ d ∷ []) (inl e, (inr f, _)) le =
    subst (λ k. Readable (k ∷ d ∷ [])) (sym e)
      (subst (λ k. Readable (48 ∷ k ∷ [])) (sym f)
        (empty_leaf (codes "01"), refl, zero_text-IsHash))
four_leaves-IsTree (c ∷ d ∷ []) (inr e, (inl f, _)) le =
    subst (λ k. Readable (k ∷ d ∷ [])) (sym e)
      (subst (λ k. Readable (49 ∷ k ∷ [])) (sym f)
        (empty_leaf (codes "10"), refl, zero_text-IsHash))
four_leaves-IsTree (c ∷ d ∷ []) (inr e, (inr f, _)) le =
    subst (λ k. Readable (k ∷ d ∷ [])) (sym e)
      (subst (λ k. Readable (49 ∷ k ∷ [])) (sym f)
        (empty_leaf (codes "11"), refl, zero_text-IsHash))
four_leaves-IsTree (c ∷ d ∷ x ∷ q) h le = absurd (omega arith)

four_leaves-IsMerkle : IsMerkle toy 2 tree_rows
four_leaves-IsMerkle [] h le = record {
  node = inner [] 0 hash_0;
  left = inner (codes "0") 1 hash_1;
  right = inner (codes "1") 1 hash_1;
  at = refl;
  at_left = refl;
  at_right = refl;
  joins = refl;
}
four_leaves-IsMerkle (c ∷ []) (inl e, _) le =
    subst (λ k. Joined toy tree_rows (k ∷ [])) (sym e)
      (record {
        node = inner (codes "0") 1 hash_1;
        left = empty_leaf (codes "00");
        right = empty_leaf (codes "01");
        at = refl;
        at_left = refl;
        at_right = refl;
        joins = refl;
      })
four_leaves-IsMerkle (c ∷ []) (inr e, _) le =
    subst (λ k. Joined toy tree_rows (k ∷ [])) (sym e)
      (record {
        node = inner (codes "1") 1 hash_1;
        left = empty_leaf (codes "10");
        right = empty_leaf (codes "11");
        at = refl;
        at_left = refl;
        at_right = refl;
        joins = refl;
      })
four_leaves-IsMerkle (c ∷ d ∷ q) h le = absurd (omega arith)

leaf-Placed : (p : Str) → IsBits p → length p ≡ 2 → Placed 2 (empty_leaf p)
leaf-Placed p bits len = record {
  waiting = λ e. absurd (omega (arith, e));
  terminal = λ e. inr (bits, len);
}

inner-Placed : (p : Str) (level : ℕ) (hash : Str) → Placed 2 (inner p level hash)
inner-Placed p level hash = record {
  waiting = λ e. absurd (omega (arith, e));
  terminal = λ e. absurd (omega (arith, e));
}

four_leaves-Placed : All (Placed 2) tree_rows
four_leaves-Placed = (
  leaf-Placed (codes "00") (inl refl, (inl refl, tt)) refl,
  (
    leaf-Placed (codes "01") (inl refl, (inr refl, tt)) refl,
    (
      leaf-Placed (codes "10") (inr refl, (inl refl, tt)) refl,
      (
        leaf-Placed (codes "11") (inr refl, (inr refl, tt)) refl,
        (
          inner-Placed (codes "0") 1 hash_1,
          (inner-Placed (codes "1") 1 hash_1, (inner-Placed [] 0 hash_0, tt)),
        ),
      ),
    ),
  ),
)

pub four_leaves-Sound : Sound toy 2 tree_rows
four_leaves-Sound = record {
  tree = four_leaves-IsTree;
  merkle = four_leaves-IsMerkle;
  placed = four_leaves-Placed;
}

pub deposit-Sound : Sound toy 2 deposit_rows
deposit-Sound =
    Sound-beside tree_rows (deposit ∷ []) (record { pending = refl; nowhere = refl }, tt) toy 2
      four_leaves-Sound

abbrev pub deposit_db : Db quiet_tables
deposit_db = record some_db { states = stored deposit_rows }

finalise_deposits-Entered_example :
    (db' : Db quiet_tables) × (finalise_deposits toy quiet_tables 1 zero_value_leaf deposit_db
      ≡ (ok tt, db'))
    × Entered toy quiet_tables.state_table 2 0
        (codes "10" ∷ codes "11" ∷ [])
        (deposit ∷ [])
        deposit_rows
        db'.states.held
unfolding solidity_path_to_node_path uint_to_string format_bits to_string encode
finalise_deposits-Entered_example =
    finalise_deposits-Entered toy quiet_tables some_params 1 zero_value_leaf (codes "1") deposit_db
      (reliable-IsQuiet UserState) (reliable-IsQuiet Params) refl (omega arith) (omega arith)
      (omega arith) refl deposit-Sound (refl, (refl, tt)) (omega arith)
