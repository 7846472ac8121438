-- ===== src/Dfl/Walk.antt =====
-- pcie.c, `parse_feature_list`: which headers the loop visits.
use opae_intel_fpga_driver.Base.{
  ℕ, zero, suc, ◌+◌, ◌-◌, ◌≤◌, ◌<◌, ◌≡◌, refl, true, false, List, [], ◌∷◌, arith, inl, inr, ◌⊎◌,
  ◌/◌, ◌%◌, ltb, leb, unless, Status, ok, err, einval, and_then, and_then-and_then, Bool-cases,
}
use opae_intel_fpga_driver.Csr.{get_field, eol, next_header_offset}
use opae_intel_fpga_driver.Dfl.{BuildInfo, Platform}
use opae_intel_fpga_driver.Dfl.Parse.{
  header_at, is_last, parse_feature, list_from, parse_feature_list,
}

module _ (pf : Platform) where
  -- The bits of the 64-bit header at an address: bit 40 marks the end of the list, and bits 16 to 39
  -- are the distance to the next header.
  abbrev pub end_bit : ℕ → ℕ
  end_bit start = pf.readq start / 0x100_0000_0000 % 2

  abbrev pub distance : ℕ → ℕ
  distance start = pf.readq start / 0x1_0000 % 0x100_0000

  -- The headers from an address on, and how the list ends: well, or with a rest too small for one.
  pub data Chain (end : ℕ) : ℕ → List ℕ → Status → Type 0 where
    past : (start : ℕ) → end ≤ start → Chain end start [] ok
    short : (start : ℕ) → start < end → end - start < 8 → Chain end start [] (err einval)
    last :
        (start : ℕ)
        → start + 8 ≤ end
        → (end_bit start ≡ 1) ⊎ (distance start ≡ 0)
        → Chain end start (start ∷ []) ok
    more :
        (start : ℕ) (hdrs : List ℕ) (s : Status)
        → start + 8 ≤ end
        → end_bit start ≡ 0
        → 0 < distance start
        → Chain end (start + distance start) hdrs s
        → Chain end start (start ∷ hdrs) s

  -- The headers are parsed in turn until one fails.
  abbrev pub parse_all : List ℕ → BuildInfo → Status × BuildInfo
  parse_all [] b = (ok, b)
  parse_all (hdr ∷ hdrs) b = and_then (parse_feature pf hdr b) (parse_all hdrs)

  -- The loop parses the headers of the chain.
  abbrev Follows : ℕ → ℕ → (BuildInfo → Status × BuildInfo) → Type 0
  Follows end start loop =
      (hdrs : List ℕ) × (s : Status) × Chain end start hdrs s
      × ((b : BuildInfo) → loop b ≡ and_then (parse_all hdrs b) (λ b. (s, b)))

  distance_lem : (start : ℕ) → get_field next_header_offset (header_at pf start) ≡ distance start
  unfolding get_field
  distance_lem start = refl

  end_bit_lem : (start : ℕ) → get_field eol (header_at pf start) ≡ end_bit start
  unfolding get_field
  end_bit_lem start = refl

  is_last-true : (start : ℕ) → is_last pf start ≡ true → (end_bit start ≡ 1) ⊎ (distance start ≡ 0)
  is_last-true start e = ground (arith, e, distance_lem start, end_bit_lem start)

  is_last-false :
      (start : ℕ) → is_last pf start ≡ false → (end_bit start ≡ 0) × (0 < distance start)
  is_last-false start e = ground (arith, e, distance_lem start, end_bit_lem start)

  list_from-Chain :
      (fuel end start : ℕ) → end - start < fuel → Follows end start (list_from pf fuel end start)
  unfolding list_from get_field
  list_from-Chain zero end start h = absurd (omega (arith, h))
  list_from-Chain (suc fuel) end start h = elim (Bool-cases (leb end start)) [
    | inl e ↦ ([], ok, past start (ground (arith, e)), λ b. rw e refl)
    | inr e ↦ elim (Bool-cases (ltb (end - start) 8)) [
      | inl f ↦
          ([], err einval, short start (ground (arith, e)) (ground (arith, f)), λ b. rw (e, f) refl)
      | inr f ↦ elim (Bool-cases (is_last pf start)) [
        | inl g ↦ (
          start ∷ [],
          ok,
          last start (ground (arith, e, f)) (is_last-true start g),
          λ b.
              rw (e, f)
                (and_then-and_then (parse_feature pf start b)
                  (λ b'.
                    unless (is_last pf start) (ok, b')
                      (λ _. list_from pf fuel end (start + distance start) b'))
                  (λ b. (ok, b)) (λ b. (ok, b)) (λ b. rw g refl)),
        )
        | inr g ↦
            let (unmarked, on) = is_last-false start g in
            let rest =
              list_from-Chain fuel end (start + distance start) (ground (arith, e, f, on)) in
            (
              start ∷ rest.0,
              rest.1,
              more start rest.0 rest.1 (ground (arith, e, f)) unmarked on rest.2,
              λ b.
                  rw (e, f)
                    (and_then-and_then (parse_feature pf start b)
                      (λ b'.
                        unless (is_last pf start) (ok, b')
                          (λ _. list_from pf fuel end (start + distance start) b'))
                      (parse_all rest.0) (λ b. (rest.1, b)) (λ b. rw g (rest.3 b))),
            )
      ]
    ]
  ]

  -- With the end of the window as it is, the loop over a feature list parses exactly the headers of
  -- the chain from its start, each once and in order, until one fails. The chain goes on from a header
  -- whose bit 40 is clear by its bits 16 to 39, if these are not zero, and stops after another header
  -- or at the end of the window; the loop ends with an error when what is left is too small for a
  -- header.
  pub parse_feature_list-Chain :
      (start : ℕ) (b : BuildInfo)
      → (hdrs : List ℕ) × (s : Status) × Chain b.ioend start hdrs s
        × (parse_feature_list pf start b ≡ and_then (parse_all hdrs b) (λ b. (s, b)))
  unfolding parse_feature_list
  parse_feature_list-Chain start b =
      let r = list_from-Chain (suc (b.ioend - start)) b.ioend start (omega arith) in
      (r.0, r.1, r.2, r.3 b)
