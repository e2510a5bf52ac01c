-- ===== src/Tests/Util.antt =====
-- Runs of src/util.c.
use shclaw.Base.{
  ℕ, ◌-◌, ◌≤◌, ◌≡◌, ◌↔◌, refl, false, [], ◌∷◌, ◌++◌, arith, Bytes, codes, length, take,
}
use shclaw.Util.Buf.{append_all, concat, append_all-eq-take}
use shclaw.Util.Utf8.{byte, is_cont, utf8_prefix, utf8_scrub}
use shclaw.Util.Utf8.Valid.{IsUtf8, done, one, two}
use shclaw.Util.Utf8.Prefix.{utf8_prefix_lem}
use shclaw.Util.Utf8.Scrub.{utf8_scrub-IsUtf8, utf8_scrub-eq_self_iff}

-- "aé" in UTF-8
abbrev accented : Bytes
accented = b'a' ∷ 0xC3 ∷ 0xA9 ∷ []

accented-IsUtf8 : IsUtf8 accented
accented-IsUtf8 = one b'a' (omega arith) (two 0xC3 0xA9 (omega arith) (omega arith) done)

accented_cut : utf8_prefix accented 2 ≡ 1
unfolding utf8_prefix
accented_cut = refl

-- a lead byte with nothing behind it, and an overlong form
broken_repaired : utf8_scrub (0xC3 ∷ b'x' ∷ 0xC0 ∷ 0x80 ∷ []) ≡ codes "?x??"
unfolding utf8_scrub
broken_repaired = refl

append_all-eq-take_example :
    append_all 6 (codes "ab") (codes "cd" ∷ codes "ef" ∷ [])
    ≡ take (6 - 1) (codes "ab" ++ concat (codes "cd" ∷ codes "ef" ∷ []))
append_all-eq-take_example =
    append_all-eq-take 6 (codes "ab") (codes "cd" ∷ codes "ef" ∷ []) (omega arith)

utf8_prefix_lem_example :
    IsUtf8 (take (utf8_prefix accented 2) accented)
    × (utf8_prefix accented 2 ≤ 2)
    × ((j : ℕ)
        → j ≤ 2
        → j ≤ length accented
        → is_cont (byte accented j) ≡ false
        → j ≤ utf8_prefix accented 2)
utf8_prefix_lem_example = utf8_prefix_lem 2 accented-IsUtf8

utf8_scrub-IsUtf8_example :
    IsUtf8 (utf8_scrub (0xC3 ∷ b'x' ∷ [])) × (length (utf8_scrub (0xC3 ∷ b'x' ∷ [])) ≡ 2)
utf8_scrub-IsUtf8_example = utf8_scrub-IsUtf8 (0xC3 ∷ b'x' ∷ []) (omega arith)

utf8_scrub-eq_self_iff_example : (utf8_scrub accented ≡ accented) ↔ IsUtf8 accented
utf8_scrub-eq_self_iff_example = utf8_scrub-eq_self_iff accented (omega arith)
