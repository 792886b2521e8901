-- ===== src/Go/Sort/Ordered.antt =====
-- The order of the results of `sort.Slice` and `sort.Strings`.
use mathlib.Core.List.{Perm}
use mathlib.Core.List.Perm
use go_acp_server.Base.{
  code, String, Bool, true, false, List, [], ◌∷◌, ◌≡◌, refl, All, arith, nat_eq_iff, Bool-cases,
  inl, inr, keep,
}
use go_acp_server.Go.Sort.{insert_sorted, sort_by}
use go_acp_server.Go.Text.{str_lt}

str_lt-asym : (s t : String) → str_lt s t ≡ true → str_lt t s ≡ false
unfolding str_lt
str_lt-asym s String.[] h = ground (arith, h)
str_lt-asym String.[] (String.◌∷◌ d t) h = refl
str_lt-asym (String.◌∷◌ c s) (String.◌∷◌ d t) h =
    ground (arith, h, str_lt-asym s t, nat_eq_iff (code c) (code d), nat_eq_iff (code d) (code c))

str_lt-trans_not : (s t u : String) → str_lt t s ≡ false → str_lt u t ≡ false → str_lt u s ≡ false
unfolding str_lt
str_lt-trans_not String.[] t u h k = refl
str_lt-trans_not (String.◌∷◌ c s) String.[] u h k = ground (arith, h)
str_lt-trans_not (String.◌∷◌ c s) (String.◌∷◌ d t) String.[] h k = ground (arith, k)
str_lt-trans_not (String.◌∷◌ c s) (String.◌∷◌ d t) (String.◌∷◌ e u) h k = ground (
  arith,
  h,
  k,
  str_lt-trans_not s t u,
  nat_eq_iff (code d) (code c),
  nat_eq_iff (code e) (code d),
  nat_eq_iff (code e) (code c),
)

-- Each entry stands before those behind it.
module _ {A : Type 0} (key : A → String) where
  abbrev pub Before : A → A → Type 0
  Before x y = str_lt (key y) (key x) ≡ false

  abbrev pub Ordered : List A → Type 0
  Ordered [] = Unit
  Ordered (x ∷ xs) = All (Before x) xs × Ordered xs

  Before-All : (x y : A) (zs : List A) → Before x y → All (Before y) zs → All (Before x) zs
  Before-All x y [] h hs = tt
  Before-All x y (z ∷ zs) h (k, hs) =
      (str_lt-trans_not (key x) (key y) (key z) h k, Before-All x y zs h hs)

  All-insert_sorted :
      (y x : A) (zs : List A)
      → Before y x
      → All (Before y) zs
      → All (Before y) (insert_sorted key x zs)
  unfolding insert_sorted
  All-insert_sorted y x [] h hs = (h, tt)
  All-insert_sorted y x (z ∷ zs) h (k, hs) = elim (Bool-cases (str_lt (key z) (key x))) [
    | inl less ↦ rw less (k, All-insert_sorted y x zs h hs)
    | inr not_less ↦ rw not_less (h, (k, hs))
  ]

  insert_sorted-Ordered : (x : A) (ys : List A) → Ordered ys → Ordered (insert_sorted key x ys)
  unfolding insert_sorted
  insert_sorted-Ordered x [] h = (tt, tt)
  insert_sorted-Ordered x (y ∷ ys) (b, h) = elim (Bool-cases (str_lt (key y) (key x))) [
    | inl less ↦ rw less (
      All-insert_sorted y x ys (str_lt-asym (key y) (key x) less) b,
      insert_sorted-Ordered x ys h,
    )
    | inr not_less ↦ rw not_less ((not_less, Before-All x y ys not_less b), (b, h))
  ]

  pub sort_by-Ordered : (xs : List A) → Ordered (sort_by key xs)
  unfolding sort_by
  sort_by-Ordered [] = tt
  sort_by-Ordered (x ∷ xs) = insert_sorted-Ordered x (sort_by key xs) (sort_by-Ordered xs)

  All-keep : (w : A) (p : A → Bool) (xs : List A) → All (Before w) xs → All (Before w) (keep p xs)
  All-keep w p [] h = tt
  All-keep w p (x ∷ xs) (h, hs) = elim (Bool-cases (p x)) [
    | inl holds ↦ rw holds (h, All-keep w p xs hs)
    | inr fails ↦ rw fails (All-keep w p xs hs)
  ]

  pub keep-Ordered : (p : A → Bool) (xs : List A) → Ordered xs → Ordered (keep p xs)
  keep-Ordered p [] h = tt
  keep-Ordered p (x ∷ xs) (b, h) = elim (Bool-cases (p x)) [
    | inl holds ↦ rw holds (All-keep x p xs b, keep-Ordered p xs h)
    | inr fails ↦ rw fails (keep-Ordered p xs h)
  ]

  keep-insert_sorted :
      (p : A → Bool) (x : A) (ys : List A)
      → Perm (keep p (insert_sorted key x ys)) (keep p (x ∷ ys))
  unfolding insert_sorted
  keep-insert_sorted p x [] = Perm.refl _
  keep-insert_sorted p x (y ∷ ys) = elim (Bool-cases (str_lt (key y) (key x))) [
    | inr not_less ↦ rw not_less (Perm.refl _)
    | inl less ↦ rw less (elim (Bool-cases (p y)) [
      | inr fails ↦ rw fails (keep-insert_sorted p x ys)
      | inl holds ↦ elim (Bool-cases (p x)) [
        | inl both ↦ rw holds (
            rw both
              (Perm.trans (Perm.cons y (rw both at (keep-insert_sorted p x ys))) (Perm.swap _ _ _)))
        | inr alone ↦ rw holds (rw alone (Perm.cons y (rw alone at (keep-insert_sorted p x ys))))
      ]
    ])
  ]

  -- Sorting and then keeping some entries loses and adds none of them.
  pub keep-sort_by : (p : A → Bool) (xs : List A) → Perm (keep p (sort_by key xs)) (keep p xs)
  unfolding sort_by
  keep-sort_by p [] = Perm.refl _
  keep-sort_by p (x ∷ xs) =
      Perm.trans (keep-insert_sorted p x (sort_by key xs)) (elim (Bool-cases (p x)) [
        | inl holds ↦ rw holds (Perm.cons x (keep-sort_by p xs))
        | inr fails ↦ rw fails (keep-sort_by p xs)
      ])
