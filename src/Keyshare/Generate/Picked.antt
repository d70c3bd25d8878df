-- ===== src/Keyshare/Generate/Picked.antt =====
-- A choice of cards of src/lcsas/keyshare/slip39.py as a choice of members.
use mathlib.Core.List.{Memᴰ}
use lcsas.Prelude.{ℕ, ◌≡◌, ◌≢◌, refl, sym, ap, ap₂, ◌∙◌, List, [], ◌∷◌, map, All, Distinct}
use lcsas.Keyshare.Shamir.{RawShare, x_coordinates}

module _ (card : RawShare → List ℕ) (members : List RawShare) where
  -- The members whose cards these are.
  abbrev pub Picks : List (List ℕ) → Type 0
  Picks chosen = (rs : List RawShare) × (All (λ r. Memᴰ r members) rs × (map card rs ≡ chosen))

  member_of :
      (ms : List RawShare) (m : List ℕ)
      → Memᴰ m (map card ms)
      → (r : RawShare) × (Memᴰ r ms × (card r ≡ m))
  member_of [] m h = elim h [ ]
  member_of (r ∷ ms) m (Memᴰ.head e) = (r, (Memᴰ.head refl, sym e))
  member_of (r ∷ ms) m (Memᴰ.tail h) =
      let (t, (held, same)) = member_of ms m h in (t, (Memᴰ.tail held, same))

  pub picks : (chosen : List (List ℕ)) → All (λ m. Memᴰ m (map card members)) chosen → Picks chosen
  picks [] h = ([], (tt, refl))
  picks (m ∷ chosen) h =
      let (r, (held, same)) = member_of members m h.0 in
      let (rs, (all_held, all_same)) = picks chosen h.1 in
      (r ∷ rs, ((held, all_held), ap₂ (λ t ts. t ∷ ts) same all_same))

  other_index :
      (x : ℕ) (ms : List RawShare) (r : RawShare)
      → Memᴰ r ms
      → All (λ y. y ≢ x) (x_coordinates ms)
      → r.x ≢ x
  other_index x [] r m h = elim m [ ]
  other_index x (t ∷ ms) r (Memᴰ.head e) h = λ d. h.0 (sym (ap (λ (s : RawShare). s.x) e) ∙ d)
  other_index x (t ∷ ms) r (Memᴰ.tail m) h = other_index x ms r m h.1

  -- Members with one index are one member.
  same_member :
      (ms : List RawShare)
      → Distinct (x_coordinates ms)
      → (r t : RawShare) → Memᴰ r ms
      → Memᴰ t ms
      → r.x ≡ t.x
      → r ≡ t
  same_member [] h r t mr mt e = elim mr [ ]
  same_member (s ∷ ms) h r t (Memᴰ.head er) (Memᴰ.head et) e = er ∙ sym et
  same_member (s ∷ ms) h r t (Memᴰ.head er) (Memᴰ.tail mt) e =
      absurd (other_index s.x ms t mt h.0 (sym e ∙ ap (λ (q : RawShare). q.x) er))
  same_member (s ∷ ms) h r t (Memᴰ.tail mr) (Memᴰ.head et) e =
      absurd (other_index s.x ms r mr h.0 (e ∙ ap (λ (q : RawShare). q.x) et))
  same_member (s ∷ ms) h r t (Memᴰ.tail mr) (Memᴰ.tail mt) e = same_member ms h.1 r t mr mt e

  module _ (distinct : Distinct (x_coordinates members)) where
    apart :
        (r : RawShare) (rs : List RawShare)
        → Memᴰ r members
        → All (λ t. Memᴰ t members) rs
        → All (λ m. m ≢ card r) (map card rs)
        → All (λ y. y ≢ r.x) (x_coordinates rs)
    apart r [] m held h = tt
    apart r (t ∷ rs) m held h = (
      (λ e. h.0 (ap card (same_member members distinct t r held.0 m e))),
      apart r rs m held.1 h.1,
    )

    pub picked-Distinct :
        (rs : List RawShare)
        → All (λ r. Memᴰ r members) rs
        → Distinct (map card rs)
        → Distinct (x_coordinates rs)
    picked-Distinct [] held h = tt
    picked-Distinct (r ∷ rs) held h = (apart r rs held.0 held.1 h.0, picked-Distinct rs held.1 h.1)
