-- ===== src/Binpack/Fill.antt =====
-- What `first_fit_decreasing` of src/lcsas/binpack/algorithm.py selects.
use mathlib.Core.List.Perm
use mathlib.Core.List.{Perm, perm_middle, append_assoc, append-nil}
use mathlib.Core.Path.{subst}
use lcsas.Prelude.{
  ℕ, ◌+◌, ◌-◌, ◌*◌, ◌≤◌, ◌<◌, ◌≡◌, refl, ap, ◌⊎◌, inl, inr, true, false, List, [], ◌∷◌, ◌++◌, arith,
  leb, ◌==◌, All, All-append, Bool-cases, leb→le,
}
use lcsas.Binpack.{Item, precedes, sort_items, place_items, first_fit_decreasing}
use lcsas.Binpack.Order.{
  IsSorted, precedes-size, sort_items-perm, sort_items_perm, sort_items-IsSorted, All-sort,
}

abbrev pub total_size : List Item → ℕ
total_size [] = 0
total_size (x ∷ xs) = x.size + total_size xs

total_size-append : (xs ys : List Item) → total_size (xs ++ ys) ≡ total_size xs + total_size ys
total_size-append [] ys = omega arith
total_size-append (x ∷ xs) ys = omega (arith, total_size-append xs ys)

-- Each round moves one item from the input to an end of the output.
move_selected :
    (x : Item) (sel rem xs : List Item)
    → Perm (((sel ++ x ∷ []) ++ rem) ++ xs) ((sel ++ rem) ++ x ∷ xs)
move_selected x sel rem xs =
    Perm.trans (rw (append_assoc sel (x ∷ []) rem) (Perm.append_right xs (perm_middle sel rem)))
      (Perm.symm (perm_middle (sel ++ rem) xs))

move_remaining :
    (x : Item) (sel rem xs : List Item) → (sel ++ (rem ++ x ∷ [])) ++ xs ≡ (sel ++ rem) ++ x ∷ xs
move_remaining x sel rem xs =
    rw (← append_assoc sel rem (x ∷ []), append_assoc (sel ++ rem) (x ∷ []) xs) refl

abbrev Split : Type 0
Split = List Item × List Item

module _ (usable : ℕ) where
  step_fits :
      (cur : ℕ) (sel rem : List Item) (x : Item) (xs : List Item)
      → leb (cur + x.size) usable ≡ true
      → place_items usable (cur + x.size) (sel ++ x ∷ []) rem xs
        ≡ place_items usable cur sel rem (x ∷ xs)
  unfolding place_items
  step_fits cur sel rem x xs fits = rw fits refl

  step_not_fits :
      (cur : ℕ) (sel rem : List Item) (x : Item) (xs : List Item)
      → leb (cur + x.size) usable ≡ false
      → place_items usable cur sel (rem ++ x ∷ []) xs ≡ place_items usable cur sel rem (x ∷ xs)
  unfolding place_items
  step_not_fits cur sel rem x xs not_fits = rw not_fits refl

  -- A property of the outcome, by the two ways a round goes.
  by_round :
      (P : Split → Type 0) (cur : ℕ) (sel rem : List Item) (x : Item) (xs : List Item)
      → (cur + x.size ≤ usable → P (place_items usable (cur + x.size) (sel ++ x ∷ []) rem xs))
      → (usable < cur + x.size → P (place_items usable cur sel (rem ++ x ∷ []) xs))
      → P (place_items usable cur sel rem (x ∷ xs))
  by_round P cur sel rem x xs f g = elim (Bool-cases (leb (cur + x.size) usable)) [
    | inl fits ↦ subst P (step_fits cur sel rem x xs fits) (f (leb→le (cur + x.size) usable fits))
    | inr not_fits ↦ subst P (step_not_fits cur sel rem x xs not_fits) (g (ground arith))
  ]

  place_items_perm :
      (cur : ℕ) (sel rem xs : List Item)
      → let (selected, remaining) = place_items usable cur sel rem xs in
        Perm (selected ++ remaining) ((sel ++ rem) ++ xs)
  unfolding place_items
  place_items_perm cur sel rem [] = rw (append-nil (sel ++ rem)) Perm.rfl
  place_items_perm cur sel rem (x ∷ xs) =
      by_round (λ r. Perm (r.0 ++ r.1) ((sel ++ rem) ++ x ∷ xs)) cur sel rem x xs
        (λ fits.
          Perm.trans (place_items_perm (cur + x.size) (sel ++ x ∷ []) rem xs)
            (move_selected x sel rem xs))
        (λ not_fits.
          subst (Perm _) (move_remaining x sel rem xs)
            (place_items_perm cur sel (rem ++ x ∷ []) xs))

  -- The counter is the size of what is selected; it only grows, and stays within the volume.
  place_items_total :
      (cur : ℕ) (sel rem xs : List Item)
      → total_size sel ≡ cur
      → cur ≤ usable
      → let (selected, _) = place_items usable cur sel rem xs in
        (total_size selected ≤ usable) × (cur ≤ total_size selected)
  unfolding place_items
  place_items_total cur sel rem [] e h = (omega arith, omega arith)
  place_items_total cur sel rem (x ∷ xs) e h =
      by_round (λ r. (total_size r.0 ≤ usable) × (cur ≤ total_size r.0)) cur sel rem x xs
        (λ fits.
          let (under, grows) =
            place_items_total (cur + x.size) (sel ++ x ∷ []) rem xs
              (omega (arith, total_size-append sel (x ∷ []))) fits in
          (under, omega arith))
        (λ not_fits. place_items_total cur sel (rem ++ x ∷ []) xs e h)

  -- No rejected item fits beside what is selected.
  abbrev pub Exceeds : ℕ → Item → Type 0
  Exceeds cur x = usable < cur + x.size

  Exceeds-mono :
      (cur later : ℕ) (xs : List Item) → cur ≤ later → All (Exceeds cur) xs → All (Exceeds later) xs
  Exceeds-mono cur later [] h k = tt
  Exceeds-mono cur later (x ∷ xs) h k = (omega (arith, k.0), Exceeds-mono cur later xs h k.1)

  place_items-Exceeds :
      (cur : ℕ) (sel rem xs : List Item)
      → total_size sel ≡ cur
      → cur ≤ usable
      → All (Exceeds cur) rem
      → let (selected, remaining) = place_items usable cur sel rem xs in
        All (Exceeds (total_size selected)) remaining
  unfolding place_items
  place_items-Exceeds cur sel rem [] e h k = rw e k
  place_items-Exceeds cur sel rem (x ∷ xs) e h k =
      by_round (λ r. All (Exceeds (total_size r.0)) r.1) cur sel rem x xs
        (λ fits.
          place_items-Exceeds (cur + x.size) (sel ++ x ∷ []) rem xs
            (omega (arith, total_size-append sel (x ∷ []))) fits
            (Exceeds-mono cur (cur + x.size) rem (omega arith) k))
        (λ not_fits.
          place_items-Exceeds cur sel (rem ++ x ∷ []) xs e h
            (All-append _ rem (x ∷ []) k (not_fits, tt)))

  -- After an item that precedes them, none is larger than what is selected.
  followers_small :
      (x : Item) (later : ℕ) (xs : List Item)
      → x.size ≤ later
      → All (λ y. precedes x y ≡ true) xs
      → All (λ y. y.size ≤ later) xs
  followers_small x later [] h k = tt
  followers_small x later (y ∷ xs) h k =
      (omega (arith, precedes-size x y k.0), followers_small x later xs h k.1)

  -- Items from large to small: one is rejected only when the volume is more than half full.
  place_items_half :
      (cur : ℕ) (sel rem xs : List Item)
      → total_size sel ≡ cur
      → IsSorted xs
      → All (λ x. x.size ≤ usable) xs
      → (cur ≡ 0) ⊎ All (λ x. x.size ≤ cur) xs
      → (rem ≡ []) ⊎ (usable < 2 * cur)
      → let (selected, remaining) = place_items usable cur sel rem xs in
        (remaining ≡ []) ⊎ (usable < 2 * total_size selected)
  unfolding place_items
  place_items_half cur sel rem [] e s small large half = rw e half
  place_items_half cur sel rem (x ∷ xs) e s small large half =
      by_round (λ r. (r.1 ≡ []) ⊎ (usable < 2 * total_size r.0)) cur sel rem x xs
        (λ fits.
          place_items_half (cur + x.size) (sel ++ x ∷ []) rem xs
            (omega (arith, total_size-append sel (x ∷ []))) s.1 small.1
            (inr (followers_small x (cur + x.size) xs (omega arith) s.0))
            (elim half [ inl none ↦ inl none | inr more ↦ inr (omega arith) ]))
        (λ not_fits. elim large [
          | inl zero ↦ absurd (omega (arith, small.0))
          | inr bound ↦
              place_items_half cur sel (rem ++ x ∷ []) xs e s.1 small.1 (inr bound.1)
                (inr (omega (arith, bound.0)))
        ])

with_room :
    (items : List Item) (capacity reserved : ℕ)
    → reserved < capacity
    → first_fit_decreasing items capacity reserved
      ≡ place_items (capacity - reserved) 0 [] [] (sort_items items)
unfolding first_fit_decreasing
with_room items capacity reserved room = ground arith

-- Every item given is either selected or remains, once.
pub first_fit_decreasing_perm :
    (items : List Item) (capacity reserved : ℕ)
    → let (selected, remaining) = first_fit_decreasing items capacity reserved in
      Perm (selected ++ remaining) items
unfolding first_fit_decreasing
first_fit_decreasing_perm items capacity reserved = elim (Bool-cases (capacity - reserved == 0)) [
  | inl none ↦ rw none Perm.rfl
  | inr some ↦ rw some (
      Perm.trans (place_items_perm (capacity - reserved) 0 [] [] (sort_items items))
        (sort_items_perm items))
]

-- What is selected fits in the capacity less the reserve; and when that difference is positive, no
-- item that remains would fit beside what is selected.
pub first_fit_decreasing-Exceeds :
    (items : List Item) (capacity reserved : ℕ)
    → let (selected, remaining) = first_fit_decreasing items capacity reserved in
      (total_size selected ≤ capacity - reserved)
      × (reserved < capacity → All (Exceeds (capacity - reserved) (total_size selected)) remaining)
unfolding first_fit_decreasing
first_fit_decreasing-Exceeds items capacity reserved =
    elim (Bool-cases (capacity - reserved == 0)) [
      | inl none ↦ rw none (omega arith, λ room. absurd (ground arith))
      | inr some ↦ rw some (
        (place_items_total (capacity - reserved) 0 [] [] (sort_items items) refl (omega arith)).0,
        λ room.
            place_items-Exceeds (capacity - reserved) 0 [] [] (sort_items items) refl (omega arith)
              tt,
      )
    ]

-- When the reserve is below the capacity, every item alone fits and some item remains, more than half
-- of the usable capacity is selected.
pub first_fit_decreasing_half :
    (items : List Item) (capacity reserved : ℕ)
    → reserved < capacity
    → All (λ x. x.size ≤ capacity - reserved) items
    → ¬ (first_fit_decreasing items capacity reserved).1 ≡ []
    → capacity - reserved < 2 * total_size (first_fit_decreasing items capacity reserved).0
first_fit_decreasing_half items capacity reserved room small left = elim outcome [
  | inl none ↦ absurd (left none)
  | inr more ↦ more
]
  where
    outcome :
        ((first_fit_decreasing items capacity reserved).1 ≡ [])
        ⊎ (capacity - reserved < 2 * total_size (first_fit_decreasing items capacity reserved).0)
    outcome = rw (with_room items capacity reserved room) (
        place_items_half (capacity - reserved) 0 [] [] (sort_items items) refl
          (sort_items-IsSorted items) (All-sort _ items small) (inl refl) (inl refl))

-- When the reserve is below the capacity, the outcome does not depend on the order in which the items
-- are given.
pub first_fit_decreasing-perm :
    (items others : List Item) (capacity reserved : ℕ)
    → reserved < capacity
    → Perm items others
    → first_fit_decreasing items capacity reserved ≡ first_fit_decreasing others capacity reserved
first_fit_decreasing-perm items others capacity reserved room p =
    rw (with_room items capacity reserved room, with_room others capacity reserved room)
      (ap (place_items (capacity - reserved) 0 [] []) (sort_items-perm p))
