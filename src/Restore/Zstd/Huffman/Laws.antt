-- ===== src/Restore/Zstd/Huffman/Laws.antt =====
-- The loop of src/lcsas/restore/_zstd_pure.py over the weights, where its table takes no bits.
use lcsas.Prelude.{
  ℕ, zero, suc, ◌+◌, ◌≡◌, refl, ap, true, false, Bool, ◌∙◌, List, [], ◌∷◌, ◌++◌, arith,
}
use lcsas.Prelude.Result.{ok, err}
use lcsas.Restore.Zstd.{item, endless}
use lcsas.Restore.Zstd.Fse.{FseTable}
use lcsas.Restore.Zstd.Streams.{FseStream, read_stream, overflowed}
use lcsas.Restore.Zstd.Huffman.{step_state, drain}

-- A state that takes no bits and leads to itself.
abbrev pub IsStuck : FseTable → ℕ → ℕ → Type 0
IsStuck table state sym =
    (item table.symbol state ≡ ok sym)
    × (item table.num_bits state ≡ ok 0)
    × (item table.baseline state ≡ ok state)

step_state-IsStuck :
    (table : FseTable) (state sym : ℕ) (br : FseStream)
    → IsStuck table state sym
    → step_state table state br ≡ ok (sym, state, br)
unfolding step_state read_stream
step_state-IsStuck table state sym br (h0, h1, h2) =
    rw (h0, h1, h2) (ap (λ (t : ℕ). ok (sym, t, br)) {x = state + 0} {y = state} (omega arith))

goes_on {ℓ} :
    {A : Type ℓ} (b : Bool) (x y : A)
    → b ≡ false
    → (elim b as (λ t. A) [ true ↦ x | false ↦ y ]) ≡ y
goes_on true x y h = cc
goes_on false x y h = refl

-- When both states take no bits and lead to themselves, as those of a symbol that has the whole
-- table do, and the stream is not used up at the start, no number of rounds ends the loop.
pub drain-IsStuck :
    (fuel : ℕ) (table : FseTable) (state other sym next : ℕ) (br : FseStream) (weights : List ℕ)
    → IsStuck table state sym
    → IsStuck table other next
    → overflowed br ≡ false
    → drain fuel table state other br weights ≡ err endless
unfolding drain
drain-IsStuck zero table state other sym next br weights h k unread = refl
drain-IsStuck (suc fuel) table state other sym next br weights h k unread =
    rw (step_state-IsStuck table state sym br h) (
      goes_on (overflowed br) _ _ unread
      ∙ drain-IsStuck fuel table other state next sym br (weights ++ (sym ∷ [])) k h unread)
