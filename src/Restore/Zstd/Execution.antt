-- ===== src/Restore/Zstd/Execution.antt =====
-- The output of the sequences of src/lcsas/restore/_zstd_pure.py, as RFC 8878 describes it.
use mathlib.Core.List.{append_assoc, append-nil}
use lcsas.Prelude.{
  ℕ, zero, suc, ◌+◌, ◌-◌, ◌<◌, ◌≤◌, ◌≡◌, refl, sym, ap, ◌∙◌, ◌⊎◌, inl, inr, Bool, true, false, List,
  [], ◌∷◌, ◌++◌, length, take, drop, get_or, All, ltb, ◌==◌, Bool-cases, if_elim, ltb→lt, arith,
  length-append,
}
use lcsas.Prelude.Result.{Result, Result-cases, ok, err}
use lcsas.Restore.Zstd.{
  ZstdError, match_before_start, Sequence, copy_match, append_match, execute_sequences, History,
  resolve_offset, resolve_rep0, resolve_rep_code, repeated,
}

get_or-append : (xs ys : List ℕ) (i : ℕ) → i < length xs → get_or (xs ++ ys) i 0 ≡ get_or xs i 0
get_or-append [] ys i h = absurd (omega arith)
get_or-append (x ∷ xs) ys zero h = refl
get_or-append (x ∷ xs) ys (suc i) h = get_or-append xs ys i (omega arith)

-- The bytes that a match appends to `out`: each is the one `offset` places before it.
abbrev pub IsMatch : ℕ → ℕ → List ℕ → List ℕ → Type 0
IsMatch ml start out copied =
    (length copied ≡ ml)
    × ((j : ℕ) → j < ml → get_or copied j 0 ≡ get_or (out ++ copied) (start + j) 0)

copy_match-IsMatch :
    (ml start : ℕ) (out : List ℕ)
    → start < length out
    → (copied : List ℕ) × (copy_match ml start out ≡ ok (out ++ copied))
      × IsMatch ml start out copied
unfolding copy_match
copy_match-IsMatch zero start out h =
    ([], ap ok (sym (append-nil out)), (refl, λ j hj. absurd (omega arith)))
copy_match-IsMatch (suc ml) start out h =
    let x = get_or out start 0 in
    let (copied, returned, matches) =
      copy_match-IsMatch ml (start + 1) (out ++ (x ∷ []))
        (omega (arith, length-append out (x ∷ []))) in
    (
      x ∷ copied,
      rw (within, returned) (ap ok (append_assoc out (x ∷ []) copied)),
      (ap suc matches.0, bytes copied matches.1),
    )
  where
    within : ltb start (length out) ≡ true
    within = ground (arith, h)

    bytes :
        (copied : List ℕ)
        → ((j : ℕ)
            → j < ml
            → get_or copied j 0
              ≡ get_or ((out ++ (get_or out start 0 ∷ [])) ++ copied) (start + 1 + j) 0)
        → (j : ℕ) → j < suc ml
        → get_or (get_or out start 0 ∷ copied) j 0
          ≡ get_or (out ++ (get_or out start 0 ∷ copied)) (start + j) 0
    bytes copied same zero hj =
        sym (get_or-append out (get_or out start 0 ∷ copied) start h)
        ∙ ap (λ (t : ℕ). get_or (out ++ (get_or out start 0 ∷ copied)) t 0) {x = start}
            {y = start + 0} (omega arith)
    bytes copied same (suc j) hj =
        same j (omega arith)
        ∙ ap (λ t. get_or t (start + 1 + j) 0) (append_assoc out (get_or out start 0 ∷ []) copied)
        ∙ ap (λ (t : ℕ). get_or (out ++ (get_or out start 0 ∷ copied)) t 0) {x = start + 1 + j}
            {y = start + suc j} (omega arith)

-- What the sequences mean: from `out` and the literals that are left, each appends its literals, and
-- then a match that reaches back within what is written by then.
abbrev pub Decodes : List Sequence → List ℕ → List ℕ → List ℕ → Type 0
Decodes [] rest out result = result ≡ out ++ rest
Decodes (s ∷ sequences) rest out result =
    let written = out ++ take s.literal_length rest in
    (copied : List ℕ) × (0 < s.match_length → s.match_offset ≤ length written)
    × IsMatch s.match_length (length written - s.match_offset) written copied
    × Decodes sequences (drop s.literal_length rest) (written ++ copied) result

append_match-cases :
    (s : Sequence) (out : List ℕ)
    → 0 < s.match_offset
    → ((copied : List ℕ) × (append_match s out ≡ ok (out ++ copied))
        × (0 < s.match_length → s.match_offset ≤ length out)
        × IsMatch s.match_length (length out - s.match_offset) out copied)
      ⊎ (append_match s out ≡ err match_before_start)
unfolding append_match
append_match-cases s out positive = elim (Bool-cases (s.match_length == 0)) [
  | inl none ↦ inl (
    [],
    rw none (ap ok (sym (append-nil out))),
    (λ some. absurd (ground (arith, none))),
    (ground (arith, none), (λ j hj. absurd (ground (arith, none)))),
  )
  | inr some ↦ elim (Bool-cases (ltb (length out) s.match_offset)) [
    | inl beyond ↦ inr (rw (some, beyond) refl)
    | inr within ↦
        let (copied, returned, matches) =
          copy_match-IsMatch s.match_length (length out - s.match_offset) out
            (ground (arith, within)) in
        inl (copied, rw (some, within) returned, (λ h. ground (arith, within)), matches)
  ]
]

-- Executing sequences, none of which has the offset 0, never indexes outside the output: it fails
-- only for a match that reaches before its start, and else returns what the sequences mean.
pub execute_sequences-Decodes :
    (sequences : List Sequence) (rest out : List ℕ)
    → All (λ s. 0 < s.match_offset) sequences
    → ((result : List ℕ) × (execute_sequences sequences rest out ≡ ok result)
        × Decodes sequences rest out result)
      ⊎ (execute_sequences sequences rest out ≡ err match_before_start)
unfolding execute_sequences
execute_sequences-Decodes [] rest out positive = inl (out ++ rest, refl, refl)
execute_sequences-Decodes (s ∷ sequences) rest out positive =
    elim (append_match-cases s (out ++ take s.literal_length rest) positive.0) [
      | inr before ↦ inr (rw before refl)
      | inl (copied, appended, reaches, matches) ↦
          elim (execute_sequences-Decodes sequences (drop s.literal_length rest)
            ((out ++ take s.literal_length rest) ++ copied) positive.1) [
              | inr before ↦ inr (rw appended before)
              | inl (result, returned, means) ↦
                  inl (result, rw appended returned, (copied, reaches, matches, means))
            ]
    ]

abbrev pub IsPositive : History → Type 0
IsPositive rep = (0 < rep.rep0) × (0 < rep.rep1) × (0 < rep.rep2)

-- The offset that is resolved and the history after it are positive, where there is no error.
abbrev pub Resolves : Result ZstdError (ℕ × History) → Type 0
Resolves (ok resolved) = (0 < resolved.0) × IsPositive resolved.1
Resolves (err e) = Unit

resolve_rep0-IsPositive :
    (rep : History) (ll0 : Bool)
    → IsPositive rep
    → (0 < (resolve_rep0 rep ll0).0) × IsPositive (resolve_rep0 rep ll0).1
unfolding resolve_rep0
resolve_rep0-IsPositive rep false (h0, h1, h2) = (h0, (h0, h1, h2))
resolve_rep0-IsPositive rep true (h0, h1, h2) = (h1, (h1, h0, h2))

resolve_rep_code-Resolves :
    (rep : History) (code : ℕ) → IsPositive rep → Resolves (resolve_rep_code rep code)
unfolding resolve_rep_code
resolve_rep_code-Resolves rep code (h0, h1, h2) = elim (Result-cases (repeated rep code)) [
  | inr (e, failed) ↦ rw failed tt
  | inl (temp, found) ↦ rw found (
      if_elim Resolves (temp == 0) (λ zeroed. tt)
        (λ nonzero. (
          ground (arith, nonzero),
          (
            ground (arith, nonzero),
            h0,
            if_elim (λ t. 0 < t) (code == 1) (λ same. h2) (λ other. h1),
          ),
        )))
]

pub resolve_offset-Resolves :
    (of_bits of_base ll_base bits : ℕ) (rep : History)
    → (1 < of_bits → 0 < of_base)
    → IsPositive rep
    → Resolves (resolve_offset of_bits of_base ll_base bits rep)
unfolding resolve_offset
resolve_offset-Resolves of_bits of_base ll_base bits rep base (h0, h1, h2) =
    if_elim Resolves (ltb 1 of_bits)
      (λ many.
        let some = base (ltb→lt 1 of_bits many) in
        (omega (arith, some), (omega (arith, some), h0, h1)))
      (λ few.
        if_elim Resolves (of_bits == 0)
          (λ none. resolve_rep0-IsPositive rep (ll_base == 0) (h0, h1, h2))
          (λ one. resolve_rep_code-Resolves rep _ (h0, h1, h2)))
