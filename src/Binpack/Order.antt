-- ===== src/Binpack/Order.antt =====
-- `sorted` in src/lcsas/binpack/algorithm.py: the order of the items does not depend on the order
-- in which they were found.
use mathlib.Core.List.Perm
use mathlib.Core.List.{Perm, Permᴰ}
use mathlib.Core.Logic.{∥∥₁_elim}
use mathlib.Core.HLevel.{prop→set}
use Prim.Native.Char.{IsScalar}
use text.Mathlib.TextEquality.{IsScalar-prop}
use lcsas.Prelude.{
  ℕ, ◌≤◌, ◌≡◌, refl, sym, ap, ap₂, ◌∙◌, true, false, List, [], ◌∷◌, arith, All, Bool-cases, inl,
  inr,
}
use lcsas.Prelude.Text.{str_leb_total, str_leb_trans, str_leb_antisymm}
use lcsas.Binpack.{Item, precedes, insert_item, sort_items}

precedes_total : (a b : Item) → precedes a b ≡ false → precedes b a ≡ true
unfolding precedes
precedes_total a b h = ground (arith, str_leb_total a.ident b.ident)

precedes_trans : (a b c : Item) → precedes a b ≡ true → precedes b c ≡ true → precedes a c ≡ true
unfolding precedes
precedes_trans a b c h k = ground (arith, str_leb_trans a.ident b.ident c.ident)

precedes_antisymm : (a b : Item) → precedes a b ≡ true → precedes b a ≡ true → a ≡ b
unfolding precedes
precedes_antisymm a b h k = λ i. record { ident = same_ident i; size = same_size i }
  where
    same_size : a.size ≡ b.size
    same_size = ground arith

    same_ident : a.ident ≡ b.ident
    same_ident = str_leb_antisymm a.ident b.ident (ground arith) (ground arith)

pub precedes-size : (a b : Item) → precedes a b ≡ true → b.size ≤ a.size
unfolding precedes
precedes-size a b h = ground arith

-- Insertions commute, on any list.
insert_item_comm_le :
    (x y : Item) (l : List Item)
    → precedes x y ≡ true
    → insert_item x (insert_item y l) ≡ insert_item y (insert_item x l)
unfolding insert_item
insert_item_comm_le x y [] h = elim (Bool-cases (precedes y x)) [
  | inl back ↦
      ap (λ t. insert_item t (insert_item y [])) (precedes_antisymm x y h back)
      ∙ ap (λ t. insert_item y (insert_item t [])) (sym (precedes_antisymm x y h back))
  | inr strict ↦ rw (h, strict)
]
insert_item_comm_le x y (z ∷ l) h = ground (
  arith,
  precedes_trans x y z,
  precedes_trans y x z,
  precedes_antisymm x y,
  insert_item_comm_le x y l h,
)

insert_item_comm :
    (x y : Item) (l : List Item) → insert_item x (insert_item y l) ≡ insert_item y (insert_item x l)
insert_item_comm x y l = elim (Bool-cases (precedes x y)) [
  | inl le ↦ insert_item_comm_le x y l le
  | inr gt ↦ sym (insert_item_comm_le y x l (precedes_total x y gt))
]

sort_items-permᴰ : {xs ys : List Item} → Permᴰ xs ys → sort_items xs ≡ sort_items ys
unfolding sort_items
sort_items-permᴰ Permᴰ.nil = refl
sort_items-permᴰ (Permᴰ.cons e p) = ap₂ insert_item e (sort_items-permᴰ p)
sort_items-permᴰ (Permᴰ.swap {a} {b} {l = l} e f) =
    insert_item_comm a b (sort_items l)
    ∙ ap₂ (λ s t. insert_item s (insert_item t (sort_items l))) f e
sort_items-permᴰ (Permᴰ.trans p q) = sort_items-permᴰ p ∙ sort_items-permᴰ q

IsScalar-set : (n : ℕ) → IsSet (IsScalar n)
IsScalar-set n = prop→set (IsScalar-prop n)

Item-set : IsSet (List Item)
Item-set = hlevel IsScalar-set

-- The same items in any order are sorted alike.
pub sort_items-perm : {xs ys : List Item} → Perm xs ys → sort_items xs ≡ sort_items ys
sort_items-perm p = ∥∥₁_elim p (Item-set _ _) sort_items-permᴰ

insert_item-perm : (x : Item) (l : List Item) → Perm (insert_item x l) (x ∷ l)
unfolding insert_item
insert_item-perm x [] = Perm.rfl
insert_item-perm x (y ∷ l) = elim (Bool-cases (precedes x y)) [
  | inl le ↦ rw le Perm.rfl
  | inr gt ↦ rw gt (Perm.trans (Perm.cons y (insert_item-perm x l)) (Perm.swap x y l))
]

pub sort_items_perm : (l : List Item) → Perm (sort_items l) l
unfolding sort_items
sort_items_perm [] = Perm.rfl
sort_items_perm (x ∷ l) =
    Perm.trans (insert_item-perm x (sort_items l)) (Perm.cons x (sort_items_perm l))

-- Every item stands before those that it precedes.
abbrev pub IsSorted : List Item → Type 0
IsSorted [] = Unit
IsSorted (x ∷ xs) = All (λ y. precedes x y ≡ true) xs × IsSorted xs

All-insert :
    (P : Item → Type 0) (x : Item) (l : List Item) → P x → All P l → All P (insert_item x l)
unfolding insert_item
All-insert P x [] px h = (px, tt)
All-insert P x (y ∷ l) px h = elim (Bool-cases (precedes x y)) [
  | inl le ↦ rw le (px, h)
  | inr gt ↦ rw gt (h.0, All-insert P x l px h.1)
]

All-precedes :
    (x y : Item) (l : List Item)
    → precedes x y ≡ true
    → All (λ z. precedes y z ≡ true) l
    → All (λ z. precedes x z ≡ true) l
All-precedes x y [] h k = tt
All-precedes x y (z ∷ l) h k = (precedes_trans x y z h k.0, All-precedes x y l h k.1)

insert_item-IsSorted : (x : Item) (l : List Item) → IsSorted l → IsSorted (insert_item x l)
unfolding insert_item
insert_item-IsSorted x [] h = (tt, tt)
insert_item-IsSorted x (y ∷ l) h = elim (Bool-cases (precedes x y)) [
  | inl le ↦ rw le ((le, All-precedes x y l le h.0), h)
  | inr gt ↦ rw gt (All-insert _ x l (precedes_total x y gt) h.0, insert_item-IsSorted x l h.1)
]

pub sort_items-IsSorted : (l : List Item) → IsSorted (sort_items l)
unfolding sort_items
sort_items-IsSorted [] = tt
sort_items-IsSorted (x ∷ l) = insert_item-IsSorted x (sort_items l) (sort_items-IsSorted l)

pub All-sort : (P : Item → Type 0) (l : List Item) → All P l → All P (sort_items l)
unfolding sort_items
All-sort P [] h = tt
All-sort P (x ∷ l) h = All-insert P x (sort_items l) h.0 (All-sort P l h.1)
