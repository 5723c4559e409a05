-- ===== src/Gorm/Memory.antt =====
-- A table in memory that meets the interface, with a script of which statements fail.
use reddit_commander.Gorm.Sort.{sort, sort-All, any-sort, length-sort, sort-IsAscending, sort-Perm}
use reddit_commander.Prelude.{
  take, ap, ◌≡◌, ℕ, zero, suc, refl, Bool, true, false, List, [], ◌∷◌, ◌++◌, select, Outcome, ok,
  err, record_not_found, db_fault, if◌then◌else◌,
}
use reddit_commander.Gorm.{Table, IsQuiet, map_where}

pub record Mem (Row : Type 0) : Type 0 where
  pub held : List Row
  pub script : List Bool

abbrev next_fault : List Bool → Bool
next_fault [] = false
next_fault (b ∷ bs) = b

abbrev rest : List Bool → List Bool
rest [] = []
rest (b ∷ bs) = bs

module _ {Row : Type 0} where
  abbrev pub scripted : Mem Row → Bool
  scripted m = next_fault m.script

  abbrev step : Mem Row → Mem Row
  step m = record m { script = rest m.script }

  abbrev pick_first : List Row → Outcome Row
  pick_first [] = err record_not_found
  pick_first (r ∷ rs) = ok r

  abbrev rewrite_rows : (Row → Bool) → (Row → Row) → Mem Row → Mem Row
  rewrite_rows p f m = record { held = map_where p f m.held; script = rest m.script }

  abbrev append_rows : List Row → Mem Row → Mem Row
  append_rows xs m = record { held = m.held ++ xs; script = rest m.script }

  abbrev drop_rows : (Row → Bool) → Mem Row → Mem Row
  drop_rows p m = record {
    held = select (λ r. if p r then false else true) m.held;
    script = rest m.script;
  }

  abbrev undo : Mem Row → Mem Row → Mem Row
  undo before m = record { held = before.held; script = rest m.script }

  abbrev pub assign_rows : (Row → Row) → Row → List Row → List Row
  assign_rows f out [] = f out ∷ []
  assign_rows f out (r ∷ rs) = f r ∷ rs

  abbrev assign_first : (Row → Row) → Row → Mem Row → Mem Row
  assign_first f out m = record { held = assign_rows f out m.held; script = rest m.script }

  pub assign_first-empty :
      (f : Row → Row) (out : Row) (m : Mem Row)
      → m.held ≡ []
      → assign_rows f out m.held ≡ f out ∷ []
  assign_first-empty f out m e = ap (assign_rows f out) e

  pub assign_first-one :
      (f : Row → Row) (out r : Row) (m : Mem Row)
      → m.held ≡ r ∷ []
      → assign_rows f out m.held ≡ f r ∷ []
  assign_first-one f out r m e = ap (assign_rows f out) e

abbrev overwrite_text : List ℕ → List ℕ → List ℕ
overwrite_text [] old = old
overwrite_text (c ∷ new) old = c ∷ new

abbrev overwrite_count : ℕ → ℕ → ℕ
overwrite_count zero old = old
overwrite_count (suc n) old = suc n

abbrev pub memory_with : (Row : Type 0) → (Mem Row → Bool) → Table Row
memory_with Row fails = record {
  Store = Mem Row;
  rows = λ m. m.held;
  fault = fails;
  tick = step;
  rows-tick = λ s. refl;
  find_all = λ p s. (if fails s then err db_fault else ok (select p s.held), step s);
  find_all_lem = λ p s. refl;
  pick = pick_first;
  pick_none = refl;
  pick_one = λ r. refl;
  pick_some = λ P r rs h. (r, refl, h.0);
  find_one = λ p s. (if fails s then err db_fault else pick_first (select p s.held), step s);
  find_one_lem = λ p s. refl;
  updated = rewrite_rows;
  rows-updated = λ p f s. refl;
  update = λ p f s. if fails s then (err db_fault, step s) else (ok tt, rewrite_rows p f s);
  update_lem = λ p f s. refl;
  inserted = append_rows;
  rows-inserted = λ xs s. refl;
  insert = λ xs s. if fails s then (err db_fault, step s) else (ok tt, append_rows xs s);
  insert_lem = λ xs s. refl;
  deleted = drop_rows;
  rows-deleted = λ p s. refl;
  delete = λ p s. if fails s then (err db_fault, step s) else (ok tt, drop_rows p s);
  delete_lem = λ p s. refl;
  ordered = λ key xs. sort key xs;
  ordered-All = λ P key xs h. sort-All key P xs h;
  any-ordered = λ p key xs. any-sort key p xs;
  length-ordered = λ key xs. length-sort key xs;
  ordered-IsAscending = λ key xs. sort-IsAscending key xs;
  ordered-Perm = λ key xs. sort-Perm key xs;
  find_ordered = λ n key p s.
      (if fails s then err db_fault else ok (take n (sort key (select p s.held))), step s);
  find_ordered_lem = λ n key p s. refl;
  assigned = assign_first;
  rows-assigned_empty = assign_first-empty;
  rows-assigned_one = assign_first-one;
  first_or_create =
      λ f out s. if fails s then (err db_fault, step s) else (ok tt, assign_first f out s);
  first_or_create_lem = λ f out s. refl;
  begin = λ s. (if fails s then err db_fault else ok tt, step s);
  begin_lem = λ s. refl;
  undone = undo;
  rows-undone = λ before s. refl;
  commit = λ before s. if fails s then (err db_fault, undo before s) else (ok tt, step s);
  commit_lem = λ before s. refl;
  overwrite = overwrite_text;
  overwrite_blank = λ old. refl;
  overwrite_set = λ c new old. refl;
  overwrite_number = overwrite_count;
  overwrite_number_blank = λ old. refl;
  overwrite_number_set = λ n old. refl;
}

-- Statements fail as the script says.
abbrev pub memory : (Row : Type 0) → Table Row
memory Row = memory_with Row scripted

-- No statement fails.
abbrev pub reliable : (Row : Type 0) → Table Row
reliable Row = memory_with Row (λ m. false)

pub reliable-IsQuiet : (Row : Type 0) → IsQuiet (reliable Row)
reliable-IsQuiet Row s = refl
