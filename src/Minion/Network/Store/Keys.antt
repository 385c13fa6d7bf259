-- ===== src/Minion/Network/Store/Keys.antt =====
-- `syncDir` of minion/network/store.go makes a directory of the store have the wanted keys.
use mathlib.Core.HLevel.{¬_prop, ⊥_prop}
use mathlib.Core.List.{dec_mem}
use mathlib.Core.Logic.{∥∥₁_elim}
use di.Prelude.{
  find, keys, HasKey, has_key-mem, mem-HasKey, String, true, ◌≡◌, ◌≢◌, refl, sym, ◌∙◌, subst,
  Option, none, some, List, Mem, Nodup, none≢some, String-discrete, eq_iff, pos,
}
use di.Join.{Joined, join}
use di.Join.Exact.{kept_wanted, made_wanted, wanted_kept, stays}
use di.Minion.Network.Store.{
  Children, Directory, Store, dir_score, delete_dirs, make_dirs, sync_dir,
}
use di.Minion.Network.Store.Dirs.{
  dir_score_match, delete_gone, delete_kept, make_kept, make_only, make_all,
}

dir_score_same : (k : String) → dir_score k k ≡ pos 0
unfolding dir_score
dir_score_same k = rw ((eq_iff k k).1 refl) refl

module _ (dir : Directory) (ids : List String) where
  abbrev joined : Joined String String
  joined = join dir_score (keys dir) ids

  module _ {W : Type 0} (store : Store W) (path : String) (w : W) where
    abbrev deleted : Directory × W
    deleted = delete_dirs store path joined.lonely_lefts dir w

    -- After `syncDir` every key of the directory is a wanted id.
    pub sync_dir-wanted : (k : String) → HasKey k (sync_dir store dir path ids w).0 → Mem k ids
    unfolding sync_dir
    sync_dir-wanted k h = elim (dec_mem String-discrete k joined.lonely_rights) [
      | yes m ↦ made_wanted dir_score dir_score_match (keys dir) ids k m
      | no n ↦
          let left : HasKey k deleted.0 =
            subst (λ (o : Option Children). o ≢ none)
              (make_only store path k joined.lonely_rights deleted.0 deleted.1 n) h in
          let stays : ¬ Mem k joined.lonely_lefts = λ m.
            ∥∥₁_elim m ⊥_prop (λ d. left (delete_gone store path k joined.lonely_lefts dir w d)) in
          kept_wanted dir_score dir_score_match (keys dir) ids k
            (has_key-mem k dir (
              subst (λ (o : Option Children). o ≢ none)
                (delete_kept store path k joined.lonely_lefts dir w stays) left))
            stays
    ]

    -- If the store makes every directory that it is asked for, and the keys of the directory are
    -- distinct, then after `syncDir` every wanted id is a key.
    pub sync_dir_complete :
        Nodup (keys dir)
        → ((p : String) (v : W) → (store.mkdir p v).1 ≡ true)
        → (k : String) → Mem k ids
        → HasKey k (sync_dir store dir path ids w).0
    unfolding sync_dir
    sync_dir_complete distinct ok k m = elim (dec_mem String-discrete k joined.lonely_rights) [
      | yes n ↦
          ∥∥₁_elim n ¬_prop (make_all store path ok k joined.lonely_rights deleted.0 deleted.1)
      | no n ↦
          let (at, kept) = wanted_kept dir_score dir_score_match (keys dir) ids distinct k m n in
          found (find k dir) refl (mem-HasKey k dir at) kept
    ]
      where
        found :
            (o : Option Children)
            → find k dir ≡ o
            → HasKey k dir
            → ¬ Mem k joined.lonely_lefts
            → HasKey k (make_dirs store path joined.lonely_rights deleted.0 deleted.1).0
        found none e h kept gone = h e
        found (some c) e h kept gone = none≢some (
            sym gone
            ∙ make_kept store path k c joined.lonely_rights deleted.0 deleted.1
                (delete_kept store path k joined.lonely_lefts dir w kept ∙ e))

    -- On a directory with distinct keys, `syncDir` keeps what it has under a key that is still wanted.
    pub sync_dir-keeps :
        Nodup (keys dir)
        → (k : String) (c : Children) → Mem k ids
        → find k dir ≡ some c
        → find k (sync_dir store dir path ids w).0 ≡ some c
    unfolding sync_dir
    sync_dir-keeps distinct k c m e =
        make_kept store path k c joined.lonely_rights deleted.0 deleted.1 (
          delete_kept store path k joined.lonely_lefts dir w (
            stays dir_score dir_score_match (keys dir) ids distinct String-discrete dir_score_same k
              m)
          ∙ e)
