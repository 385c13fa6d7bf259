-- ===== src/Minion/Network/Store/Dirs.antt =====
-- The two loops of `syncDir` of minion/network/store.go.
use mathlib.Core.Bool.{false≢true}
use mathlib.Core.List.{Memᴰ, mem-cons_self, mem-cons_of_mem}
use di.Prelude.{
  find, put, del, HasKey, find-del, find-del_other, find-put, find-put_other, String, true, false,
  ◌≡◌, ◌≢◌, refl, sym, ap, ◌∙◌, subst, inl, inr, none, some, List, [], ◌∷◌, Mem, arith, eq_iff,
  str_eq, Bool-cases, Option-cases, none≢some, ◌<>◌,
}
use di.Join.Greedy.{Negative}
use di.Minion.Network.Store.{Children, Directory, Store, dir_score, delete_dirs, make_dirs}

pub dir_score_match : (l r : String) → ¬ Negative (dir_score l r) → l ≡ r
unfolding dir_score
dir_score_match l r h = ground (arith, eq_iff l r)

pub not_eq : (a b : String) → a ≢ b → str_eq a b ≡ false
not_eq a b n = elim (Bool-cases (str_eq a b)) [ inl e ↦ absurd (n ((eq_iff a b).0 e)) | inr e ↦ e ]

module _ {W : Type 0} (store : Store W) (path : String) where
  delete_none :
      (k : String) (ids : List String) (dir : Directory) (w : W)
      → find k dir ≡ none
      → find k (delete_dirs store path ids dir w).0 ≡ none
  unfolding delete_dirs
  delete_none k [] dir w e = e
  delete_none k (id ∷ ids) dir w e =
      delete_none k ids (del id dir) _ (elim (Bool-cases (str_eq id k)) [
        | inl f ↦ subst (λ x. find x (del id dir) ≡ none) ((eq_iff id k).0 f) (find-del id dir)
        | inr f ↦ find-del_other k id dir f ∙ e
      ])

  pub delete_gone :
      (k : String) (ids : List String) (dir : Directory) (w : W)
      → Memᴰ k ids
      → find k (delete_dirs store path ids dir w).0 ≡ none
  unfolding delete_dirs
  delete_gone k [] dir w n = elim n [ ]
  delete_gone k (id ∷ ids) dir w (Memᴰ.head e) =
      delete_none k ids (del id dir) _ (subst (λ x. find k (del x dir) ≡ none) e (find-del k dir))
  delete_gone k (id ∷ ids) dir w (Memᴰ.tail n) = delete_gone k ids (del id dir) _ n

  pub delete_kept :
      (k : String) (ids : List String) (dir : Directory) (w : W)
      → ¬ Mem k ids
      → find k (delete_dirs store path ids dir w).0 ≡ find k dir
  unfolding delete_dirs
  delete_kept k [] dir w n = refl
  delete_kept k (id ∷ ids) dir w n =
      delete_kept k ids (del id dir) _ (λ m. n (mem-cons_of_mem id m))
      ∙ find-del_other k id dir
          (not_eq id k (λ e. n (subst (λ x. Mem x (id ∷ ids)) e mem-cons_self)))

  -- What one round of the second loop makes of the directory.
  data Made (id : String) (dir : Directory) (w : W) : Directory → Type 0 where
    there :
        (m : Children) {dir' : Directory} → find id dir ≡ some m → dir' ≡ dir → Made id dir w dir'
    made : {dir' : Directory} → find id dir ≡ none → dir' ≡ put id [] dir → Made id dir w dir'
    failed :
        {dir' : Directory}
        → (store.mkdir (path <> "/" <> id) w).1 ≡ false
        → dir' ≡ dir
        → Made id dir w dir'

  make_step :
      (id : String) (ids : List String) (dir : Directory) (w : W)
      → (dir' : Directory) × (w' : W) × (make_dirs store path (id ∷ ids) dir w
          ≡ make_dirs store path ids dir' w')
        × Made id dir w dir'
  unfolding make_dirs
  make_step id ids dir w = elim (Option-cases (find id dir)) [
    | inr (m, e) ↦ (dir, w, rw (e, make_dirs) refl, there m e refl)
    | inl e ↦ elim (Bool-cases (store.mkdir (path <> "/" <> id) w).1) [
      | inl f ↦ (
        put id [] dir,
        (store.mkdir (path <> "/" <> id) w).0,
        rw (e, make_dirs) (rw f refl),
        made e refl,
      )
      | inr f ↦
          (dir, (store.mkdir (path <> "/" <> id) w).0, rw (e, make_dirs) (rw f refl), failed f refl)
    ]
  ]

  Made-kept :
      (k : String) (m : Children) (id : String) (dir dir' : Directory) (w : W)
      → Made id dir w dir'
      → find k dir ≡ some m
      → find k dir' ≡ some m
  Made-kept k m id dir dir' w (there n f g) e = rw g e
  Made-kept k m id dir dir' w (failed f g) e = rw g e
  Made-kept k m id dir dir' w (made f g) e = elim (Bool-cases (str_eq id k)) [
    | inl h ↦ absurd (none≢some (sym (subst (λ x. find x dir ≡ none) ((eq_iff id k).0 h) f) ∙ e))
    | inr h ↦ rw g (find-put_other k id [] dir h ∙ e)
  ]

  Made-only :
      (k : String) (id : String) (dir dir' : Directory) (w : W)
      → Made id dir w dir'
      → id ≢ k
      → find k dir' ≡ find k dir
  Made-only k id dir dir' w (there n f g) e = rw g refl
  Made-only k id dir dir' w (failed f g) e = rw g refl
  Made-only k id dir dir' w (made f g) e = rw g (find-put_other k id [] dir (not_eq id k e))

  pub make_kept :
      (k : String) (m : Children) (ids : List String) (dir : Directory) (w : W)
      → find k dir ≡ some m
      → find k (make_dirs store path ids dir w).0 ≡ some m
  unfolding make_dirs
  make_kept k m [] dir w e = e
  make_kept k m (id ∷ ids) dir w e =
      let (dir', w', f, s) = make_step id ids dir w in
      ap (λ (r : Directory × W). find k r.0) f
      ∙ make_kept k m ids dir' w' (Made-kept k m id dir dir' w s e)

  pub make_only :
      (k : String) (ids : List String) (dir : Directory) (w : W)
      → ¬ Mem k ids
      → find k (make_dirs store path ids dir w).0 ≡ find k dir
  unfolding make_dirs
  make_only k [] dir w n = refl
  make_only k (id ∷ ids) dir w n =
      let (dir', w', f, s) = make_step id ids dir w in
      ap (λ (r : Directory × W). find k r.0) f
      ∙ make_only k ids dir' w' (λ m. n (mem-cons_of_mem id m))
      ∙ Made-only k id dir dir' w s (λ e. n (subst (λ x. Mem x (id ∷ ids)) e mem-cons_self))

  pub make_all :
      ((p : String) (v : W) → (store.mkdir p v).1 ≡ true)
      → (k : String) (ids : List String) (dir : Directory) (w : W) → Memᴰ k ids
      → HasKey k (make_dirs store path ids dir w).0
  unfolding make_dirs
  make_all ok k [] dir w n = elim n [ ]
  make_all ok k (id ∷ ids) dir w (Memᴰ.tail n) =
      let (dir', w', f, s) = make_step id ids dir w in
      subst (λ (r : Directory × W). HasKey k r.0) (sym f) (make_all ok k ids dir' w' n)
  make_all ok k (id ∷ ids) dir w (Memᴰ.head e) =
      let (dir', w', f, s) = make_step id ids dir w in
      let (m, g) = now dir' s in
      λ gone. none≢some (
        sym gone
        ∙ ap (λ (r : Directory × W). find k r.0) f
        ∙ make_kept k m ids dir' w' (subst (λ x. find x dir' ≡ some m) (sym e) g))
    where
      now : (dir' : Directory) → Made id dir w dir' → (m : Children) × (find id dir' ≡ some m)
      now dir' (there m f g) = (m, rw g f)
      now dir' (made f g) = ([], rw g (find-put id [] dir))
      now dir' (failed f g) = absurd (false≢true (sym f ∙ ok (path <> "/" <> id) w))
