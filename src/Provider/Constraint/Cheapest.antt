-- ===== src/Provider/Constraint/Cheapest.antt =====
-- `pickBestSize` of provider/constraint.go finds the cheapest description that fits.
use mathlib.Core.List.{mem-cons_self, mem-append_left, mem-append_right, append_assoc, append-nil}
use di.Prelude.{
  All-snoc, All-map, String, true, false, ◌&&◌, ◌||◌, ◌≡◌, refl, sym, ap, subst, inl, inr, List, [],
  ◌∷◌, ◌++◌, Mem, arith, str_eq, Bool-cases, if◌then◌else◌, All,
}
use di.Dsl.{Range, Float}
use di.Provider.Constraint.{Description, fits, best_loop, no_description, pick_best_size}

module _ {F : Type 0} (float : Float F) (ram cpu : Range F)
    (lt_trans : (a b c : F) → float.lt a b ≡ true → float.lt b c ≡ true → float.lt a c ≡ true)
    (irrefl : (a : F) → float.lt a a ≡ false) where
  -- Of the descriptions that fit, none is cheaper than `best`.
  abbrev pub NoneCheaper : List (Description F) → Description F → Type 0
  NoneCheaper ds best = All (λ d. (fits float ram cpu d && float.lt d.price best.price) ≡ false) ds

  -- Where the loop stands after the descriptions `ds`: it has found none, since none fits, or `best`
  -- is one of them, fits, and is the cheapest that does.
  pub data Found (ds : List (Description F)) (best : Description F) : Type 0 where
    nothing :
        best ≡ no_description float ram cpu
        → All (λ d. fits float ram cpu d ≡ false) ds
        → Found ds best
    cheapest :
        Mem best ds
        → str_eq best.size "" ≡ false
        → fits float ram cpu best ≡ true
        → NoneCheaper ds best
        → Found ds best

  -- The description of one round.
  next : Description F → Description F → Description F
  next d best =
      if fits float ram cpu d && (str_eq best.size "" || float.lt d.price best.price)
      then d
      else best

  next_first :
      (d best : Description F)
      → fits float ram cpu d ≡ true
      → best ≡ no_description float ram cpu
      → next d best ≡ d
  unfolding next
  next_first d best f e = rw (e, f) refl

  next_cheaper :
      (d best : Description F)
      → fits float ram cpu d ≡ true
      → float.lt d.price best.price ≡ true
      → next d best ≡ d
  unfolding next
  next_cheaper d best f l = ground arith

  next_same :
      (d best : Description F)
      → str_eq best.size "" ≡ false
      → float.lt d.price best.price ≡ false
      → next d best ≡ best
  unfolding next
  next_same d best s l = ground arith

  not_cheaper :
      (d best x : Description F)
      → float.lt d.price best.price ≡ true
      → (fits float ram cpu x && float.lt x.price best.price) ≡ false
      → (fits float ram cpu x && float.lt x.price d.price) ≡ false
  not_cheaper d best x l h = elim (Bool-cases (float.lt x.price d.price)) [
    | inl e ↦ let f = lt_trans x.price d.price best.price e l in ground arith
    | inr e ↦ ground arith
  ]

  Found-next :
      (ds : List (Description F)) (d best : Description F)
      → str_eq d.size "" ≡ false
      → Found ds best
      → Found (ds ++ d ∷ []) (next d best)
  unfolding next
  Found-next ds d best named (nothing e h) = elim (Bool-cases (fits float ram cpu d)) [
    | inr f ↦ rw f (nothing e (All-snoc _ ds d h f))
    | inl f ↦ subst (Found (ds ++ d ∷ [])) (sym (next_first d best f e)) (
        cheapest (mem-append_right ds mem-cons_self) named f (
          All-snoc _ ds d (All-map _ _ ds (λ x g. rw g refl) h)
            (rw (irrefl d.price) (ground arith))))
  ]
  Found-next ds d best named (cheapest m s f h) = elim (Bool-cases (fits float ram cpu d)) [
    | inr g ↦ rw g (cheapest (mem-append_left _ m) s f (All-snoc _ ds d h (rw g refl)))
    | inl g ↦ elim (Bool-cases (float.lt d.price best.price)) [
      | inl l ↦ subst (Found (ds ++ d ∷ [])) (sym (next_cheaper d best g l)) (
          cheapest (mem-append_right ds mem-cons_self) named g (
            All-snoc _ ds d (All-map _ _ ds (λ x k. not_cheaper d best x l k) h)
              (rw (irrefl d.price) (ground arith))))
      | inr l ↦
          subst (Found (ds ++ d ∷ [])) (sym (next_same d best s l))
            (cheapest (mem-append_left _ m) s f (All-snoc _ ds d h (ground arith)))
    ]
  ]

  loop-Found :
      (seen ds : List (Description F)) (best : Description F)
      → All (λ d. str_eq d.size "" ≡ false) ds
      → Found seen best
      → Found (seen ++ ds) (best_loop float ram cpu ds best)
  unfolding best_loop next
  loop-Found seen [] best named h = rw append-nil h
  loop-Found seen (d ∷ ds) best (a, named) h =
      subst (λ l. Found l (best_loop float ram cpu (d ∷ ds) best)) (append_assoc seen (d ∷ []) ds)
        (loop-Found (seen ++ d ∷ []) ds (next d best) named (Found-next seen d best a h))

  -- What `pickBestSize` returns: no size, if nothing fits or the cheapest that fits costs more than the
  -- limit; or the size of a description that fits, within the limit, such that none that fits is
  -- cheaper. A limit of zero is no limit.
  pub data Picked (ds : List (Description F)) (max_price : F) (size : String) : Type 0 where
    unfit : All (λ d. fits float ram cpu d ≡ false) ds → size ≡ "" → Picked ds max_price size
    too_dear :
        (d : Description F)
        → fits float ram cpu d ≡ true
        → NoneCheaper ds d
        → (float.eq max_price float.zero || float.le d.price max_price) ≡ false
        → size ≡ ""
        → Picked ds max_price size
    picked :
        (d : Description F)
        → Mem d ds
        → fits float ram cpu d ≡ true
        → NoneCheaper ds d
        → (float.eq max_price float.zero || float.le d.price max_price) ≡ true
        → size ≡ d.size
        → Picked ds max_price size

  -- `pickBestSize` picks the size of a cheapest description that fits, if its price is within the limit,
  -- and no size otherwise, for descriptions that have a size and for prices whose order is transitive
  -- and irreflexive.
  pub pick_best_size-Picked :
      (ds : List (Description F)) (max_price : F)
      → All (λ d. str_eq d.size "" ≡ false) ds
      → Picked ds max_price (pick_best_size float ram cpu ds max_price)
  unfolding pick_best_size
  pick_best_size-Picked ds max_price named =
      by_found (best_loop float ram cpu ds (no_description float ram cpu))
        (loop-Found [] ds (no_description float ram cpu) named (nothing refl tt))
    where
      by_found :
          (best : Description F)
          → Found ds best
          → Picked ds max_price (
              if float.eq max_price float.zero || float.le best.price max_price
              then best.size
              else "")
      by_found best (nothing e h) = unfit h (ground (arith, ap (λ (d : Description F). d.size) e))
      by_found best (cheapest m s f h) =
          elim (Bool-cases (float.eq max_price float.zero || float.le best.price max_price)) [
            | inl l ↦ picked best m f h l (rw l refl)
            | inr l ↦ too_dear best f h l (rw l refl)
          ]
