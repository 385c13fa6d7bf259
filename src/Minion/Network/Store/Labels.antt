-- ===== src/Minion/Network/Store/Labels.antt =====
-- The label table follows the label directory of the store (`readLabelTransact`).
use di.Prelude.{find, keys, String, ◌≡◌, refl, some}
use di.Join.{join}
use di.Db.{Database, label_row, select_from}
use di.Db.Rows.{Label}
use di.Db.Sync.{flip}
use di.Db.Sync.Policy.{WellFormed, Follows, sync-flipped}
use di.Minion.Policy.Follow.{any}
use di.Minion.Network.Store.{
  Directory, child, children, label_score, update_label, read_label_transact, is_some,
}

abbrev pub label_view : Label → Label
label_view l = record l { id = 0 }

-- What the directory says of a label.
abbrev pub label_source : Directory → String → Label
label_source dir key = record {
  id = 0;
  label = key;
  ip = child "IP" (children key dir);
  multi_host = is_some (find "MultiHost" (children key dir));
}

-- On a database whose label ids are distinct and handed out, `readLabelTransact` does not panic, and
-- afterwards the label rows are the entries of the directory, one for each key, with the address of
-- the entry and with the mark of several hosts where the entry has one. The other tables stay as they
-- were.
pub read_label_transact-Follows :
    (dir : Directory) (db : Database)
    → WellFormed Label db
    → (db' : Database) × (read_label_transact dir db ≡ some db')
      × Follows any label_view
          (label_source dir)
          (update_label dir)
          (keys dir)
          (flip (join label_score (select_from any db) (keys dir)))
          db
          db'
unfolding read_label_transact update_label
read_label_transact-Follows dir db w =
    sync-flipped any label_view (label_source dir) (update_label dir) (λ s r. refl) (λ s r. refl)
      (λ s r. refl) label_score (keys dir) db w
