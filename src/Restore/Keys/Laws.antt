-- ===== src/Restore/Keys/Laws.antt =====
-- What the loop over the key files of src/lcsas/restore/restic_fallback.py returns.
use mathlib.Core.List.{append_assoc, append-nil}
use lcsas.Prelude.{
  Bool, true, false, ◌&&◌, ◌≡◌, ◌≢◌, refl, sym, ap, ap₂, ◌∙◌, ◌⊎◌, inl, inr, List, [], ◌∷◌, ◌++◌,
  All, select, Bool-cases,
}
use lcsas.Prelude.Result.{Result, ok, err}
use lcsas.Restore.Keys.{
  MasterKey, KeyError, file_corrupt, password_rejected, uncaught, no_key_unlocked, try_each,
  try_keys,
}

-- The key file did not give up the master key, for a reason that the loop goes on after.
abbrev pub IsLocked : Result KeyError MasterKey → Type 0
IsLocked m = (m ≡ err file_corrupt) ⊎ (m ≡ err password_rejected)

abbrev pub is_rejected : Result KeyError MasterKey → Bool
is_rejected (err password_rejected) = true
is_rejected (err file_corrupt) = false
is_rejected (err (uncaught e)) = false
is_rejected (ok master) = false

abbrev pub is_corrupt : Result KeyError MasterKey → Bool
is_corrupt (err file_corrupt) = true
is_corrupt (err password_rejected) = false
is_corrupt (err (uncaught e)) = false
is_corrupt (ok master) = false

module _ {P : Type 0} (is_file : P → Bool) (load : P → Result KeyError MasterKey) where
  abbrev pub rejected_files : List P → List P
  rejected_files = select (λ kf. is_file kf && is_rejected (load kf))

  abbrev pub corrupt_files : List P → List P
  corrupt_files = select (λ kf. is_file kf && is_corrupt (load kf))

  -- The loop over a part where no file unlocks anything.
  try_each-locked :
      (files rest rejected corrupt : List P)
      → All (λ kf. is_file kf ≡ true → IsLocked (load kf)) files
      → try_each is_file load (files ++ rest) rejected corrupt
        ≡ try_each is_file load rest
            (rejected ++ rejected_files files)
            (corrupt ++ corrupt_files files)
  unfolding try_each
  try_each-locked [] rest rejected corrupt h =
      ap₂ (λ r c. try_each is_file load rest r c) (sym (append-nil rejected))
        (sym (append-nil corrupt))
  try_each-locked (kf ∷ files) rest rejected corrupt h = elim (Bool-cases (is_file kf)) [
    | inr other ↦ rw other (try_each-locked files rest rejected corrupt h.1)
    | inl file ↦ elim (h.0 file) [
      | inl damaged ↦
          rw (file, damaged)
            (try_each-locked files rest rejected (corrupt ++ (kf ∷ [])) h.1
              ∙ ap (try_each is_file load rest (rejected ++ rejected_files files))
                  (append_assoc corrupt (kf ∷ []) (corrupt_files files)))
      | inr refused ↦
          rw (file, refused)
            (try_each-locked files rest (rejected ++ (kf ∷ [])) corrupt h.1
              ∙ ap (λ r. try_each is_file load rest r (corrupt ++ corrupt_files files))
                  (append_assoc rejected (kf ∷ []) (rejected_files files)))
    ]
  ]

  try_keys-each :
      (key_files : List P)
      → key_files ≢ []
      → try_keys is_file load key_files ≡ try_each is_file load key_files [] []
  unfolding try_keys
  try_keys-each [] h = absurd (h refl)
  try_keys-each (kf ∷ files) h = refl

  -- When no file unlocks, and none has another error than these, the error lists exactly the files
  -- that rejected the password and exactly those that are damaged, in the order of the directory.
  pub try_keys-locked :
      (key_files : List P)
      → key_files ≢ []
      → All (λ f. is_file f ≡ true → IsLocked (load f)) key_files
      → try_keys is_file load key_files
        ≡ err (no_key_unlocked (rejected_files key_files) (corrupt_files key_files))
  unfolding try_each
  try_keys-locked key_files some locked =
      try_keys-each key_files some
      ∙ ap (λ t. try_each is_file load t [] []) (sym (append-nil key_files))
      ∙ try_each-locked key_files [] [] [] locked
