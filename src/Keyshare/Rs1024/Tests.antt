-- ===== src/Keyshare/Rs1024/Tests.antt =====
-- The checksum of a real share's words.
use lcsas.Prelude.{ℕ, ◌≡◌, ◌↔◌, refl, List, [], ◌∷◌, ◌++◌, true, arith}
use lcsas.Keyshare.Rs1024.{
  rs1024_feed, rs1024_step, rs1024_from, rs1024_polymod, rs1024_create_checksum,
  rs1024_verify_checksum,
}
use lcsas.Keyshare.Rs1024.Laws.{verify-append_iff}

abbrev customization : List ℕ
customization = 115 ∷ 104 ∷ 97 ∷ 109 ∷ 105 ∷ 114 ∷ []

abbrev front : List ℕ
front = 248 ∷ 288 ∷ 0 ∷ 33 ∷ 187 ∷ 338 ∷ []

abbrev back : List ℕ
back = 309 ∷ 212 ∷ 851 ∷ 333 ∷ 309 ∷ 212 ∷ 851 ∷ 333 ∷ []

abbrev check : List ℕ
check = 706 ∷ 557 ∷ 723 ∷ []

abbrev window : List ℕ
window = 684 ∷ 275 ∷ 333 ∷ []

verifies : rs1024_verify_checksum (front ++ (window ++ (back ++ check))) customization ≡ true
unfolding rs1024_verify_checksum rs1024_polymod rs1024_from rs1024_step rs1024_feed
verifies = refl

verify-append_iff_example :
    (rs1024_verify_checksum ((front ++ (window ++ back)) ++ check) customization ≡ true)
    ↔ (check ≡ rs1024_create_checksum (front ++ (window ++ back)) customization)
verify-append_iff_example =
    verify-append_iff (front ++ (window ++ back)) customization check (omega arith) (omega arith)
      (omega arith) refl
