-- ===== src/Pci/Mcfg/Windows.antt =====
-- Where the regions of configuration space are mapped.
use locos.Prelude.{
  ℕ, zero, suc, ◌+◌, ◌*◌, ◌/◌, ◌≤◌, ◌<◌, ◌≡◌, ◌≢◌, ◌⊎◌, ◌∙◌, sym, inl, inr, refl, ap, arith, some,
  Option, ltb, ◌==◌, >>=-eq-some, some_injective, add64, ◌||◌, Bool-cases, Result, ok, err, List,
  [], ◌∷◌, All, get_elem?, steps,
}
use native.Mathlib.Decide.{dec_lt}
use locos.Memory.Mapper.{Mapper}
use locos.Pci.{PciError}
use locos.Pci.Mcfg.{
  EcamRegion, McfgEntry, mapping_size, saturating_add, validate_ecam_region, register_address,
  virt_addr, phys_addr, parse_entries, Mapping, place_region, map_ecam_region, map_ecam_pages,
  AllMapped, add_region, then_map, map_regions,
}
use locos.Pci.Mcfg.Registers.{IsWidth, register_address-window}

-- The windows stand one behind another, from the address `next` on, each of the size of its region.
abbrev pub IsLaid : ℕ → List EcamRegion → List EcamRegion → Type 0
IsLaid next [] [] = Unit
IsLaid next [] (q ∷ qs) = ⊥
IsLaid next (r ∷ rs) [] = ⊥
IsLaid next (r ∷ rs) (q ∷ qs) =
    (q ≡ record r { virtual_address = next }) × IsLaid (next + mapping_size r) rs qs

mapping_size-pages :
    (r : EcamRegion)
    → (mapping_size r + 4095) / 4096 ≤ 1024 * 1024
    → (mapping_size r + 4095) / 4096 * 4096 ≡ mapping_size r
unfolding mapping_size
mapping_size-pages r h = ground (arith, h)

module _ (m : Mapper) where
  open m use {State, page_of, frame_of}

  place_region-lem :
      (n : ℕ) (w w' : Mapping m) (u : Unit {0})
      → place_region m n w ≡ some (ok u, w')
      → (w'.next_ecam_virt ≡ w.next_ecam_virt + n * 4096)
        × (w'.region ≡ record w.region { virtual_address = w.next_ecam_virt })
  unfolding place_region
  place_region-lem n w w' u h =
      let (next, a₁, h₁) = >>=-eq-some (add64 w.next_ecam_virt (n * 4096)) _ h in
      let (base, a₂, h₂) = >>=-eq-some (virt_addr m w.next_ecam_virt) _ h₁ in
      let (page, a₃, h₃) = >>=-eq-some (page_of w.next_ecam_virt) _ a₂ in
      let (r, a₄, h₄) =
        >>=-eq-some (map_ecam_pages m base w.region.base_address (steps n 0 1) w.tables) _ h₂ in
      let same : w.next_ecam_virt ≡ base = some_injective _ _ h₃ in
      let done = some_injective _ _ h₄ in
      let e₁ = ap (λ (x : Result PciError (Unit {0}) × Mapping m). x.1.next_ecam_virt) done in
      let e₂ = ap (λ (x : Result PciError (Unit {0}) × Mapping m). x.1.region) done in
      let sum : next ≡ w.next_ecam_virt + n * 4096 = ground arith in
      (
        omega (arith, e₁, sum),
        sym e₂ ∙ ap (λ (a : ℕ). record w.region { virtual_address = a }) (sym same),
      )

  map_ecam_region-placed :
      (w w' : Mapping m) (u : Unit {0})
      → map_ecam_region m w ≡ some (ok u, w')
      → ((mapping_size w.region + 4095) / 4096 ≤ 1024 * 1024)
        × (place_region m ((mapping_size w.region + 4095) / 4096) w ≡ some (ok u, w'))
  unfolding map_ecam_region
  map_ecam_region-placed w w' u h =
      let n : ℕ = (mapping_size w.region + 4095) / 4096 in
      elim (Bool-cases (mapping_size w.region == 0)) [
        | inl empty ↦ let bad = rw empty at h in absurd cc
        | inr sized ↦ elim (Bool-cases (ltb (1024 * 1024) n)) [
          | inl large ↦ let bad = rw (sized, large) at h in absurd cc
          | inr small ↦
              elim (Bool-cases
                (ltb (saturating_add w.next_ecam_virt (n * 4096)) w.next_ecam_virt)) [
                  | inl wraps ↦ let bad = rw (sized, small, wraps) at h in absurd cc
                  | inr fits ↦ (ground (arith, small), rw (sized, small, fits) at h)
                ]
        ]
      ]

  map_ecam_region-lem :
      (w w' : Mapping m) (u : Unit {0})
      → map_ecam_region m w ≡ some (ok u, w')
      → (w'.next_ecam_virt ≡ w.next_ecam_virt + mapping_size w.region)
        × (w'.region ≡ record w.region { virtual_address = w.next_ecam_virt })
  map_ecam_region-lem w w' u h =
      let n : ℕ = (mapping_size w.region + 4095) / 4096 in
      let (few, placed) = map_ecam_region-placed w w' u h in
      let (next, at) = place_region-lem n w w' u placed in
      (omega (arith, next, mapping_size-pages w.region few), at)

  add_region-ok :
      (r : EcamRegion) (x : AllMapped m) (qs : List EcamRegion) (next : ℕ) (st : State)
      → add_region m r x ≡ (ok qs, next, st)
      → (rest : List EcamRegion) × (x ≡ (ok rest, next, st)) × (qs ≡ r ∷ rest)
  unfolding add_region
  add_region-ok r (err e, n, s) qs next st h = absurd cc
  add_region-ok r (ok rs, n, s) qs next st h = (rs, cc, cc)

  then_map-ok :
      (more : ℕ → State → Option (AllMapped m)) (one : Result PciError (Unit {0}) × Mapping m)
      → (qs : List EcamRegion) (next : ℕ) (st : State)
      → then_map m more one ≡ some (ok qs, next, st)
      → (u : Unit {0}) × (rest : List EcamRegion) × (one.0 ≡ ok u)
        × (more one.1.next_ecam_virt one.1.tables ≡ some (ok rest, next, st))
        × (qs ≡ one.1.region ∷ rest)
  unfolding then_map add_region
  then_map-ok more (err e, w) qs next st h = absurd cc
  then_map-ok more (ok u, w) qs next st h =
      let (x, again, done) = >>=-eq-some (more w.next_ecam_virt w.tables) _ h in
      let (rest, same, listed) = add_region-ok w.region x qs next st (some_injective _ _ done) in
      (u, rest, refl, again ∙ ap some same, listed)

  -- Regions that were mapped are the given ones, in their order, in windows that stand one behind
  -- another from the next free address on.
  pub map_regions-IsLaid :
      (rs qs : List EcamRegion) (next next' : ℕ) (st st' : State)
      → map_regions m rs next st ≡ some (ok qs, next', st')
      → IsLaid next rs qs
  unfolding map_regions
  map_regions-IsLaid [] [] next next' st st' h = tt
  map_regions-IsLaid [] (q ∷ qs) next next' st st' h = absurd cc
  map_regions-IsLaid (r ∷ rs) qs next next' st st' h =
      let w : Mapping m = record { next_ecam_virt = next; region = r; tables = st } in
      let (x, a, b) = >>=-eq-some (map_ecam_region m w) _ h in
      let (u, rest, good, more, listed) = then_map-ok (map_regions m rs) x qs next' st' b in
      let mapped : map_ecam_region m w ≡ some (ok u, x.1) =
        a ∙ ap (λ (g : Result PciError (Unit {0})). some (g, x.1)) good in
      let (at, placed) = map_ecam_region-lem w x.1 u mapped in
      let others = map_regions-IsLaid rs rest x.1.next_ecam_virt next' x.1.tables st' more in
      rw listed (placed, rw at at others)

IsLaid-after :
    (next : ℕ) (rs qs : List EcamRegion) (j : ℕ) (q : EcamRegion)
    → IsLaid next rs qs
    → get_elem? qs j ≡ some q
    → next ≤ q.virtual_address
IsLaid-after next [] [] j q l e = absurd cc
IsLaid-after next [] (p ∷ qs) j q l e = absurd l
IsLaid-after next (r ∷ rs) [] j q l e = absurd l
IsLaid-after next (r ∷ rs) (p ∷ qs) zero q (at, l) e =
    let same : p ≡ q = some_injective _ _ e in
    omega (arith, ap (λ (x : EcamRegion). x.virtual_address) (sym same ∙ at))
IsLaid-after next (r ∷ rs) (p ∷ qs) (suc j) q (at, l) e =
    omega (arith, IsLaid-after (next + mapping_size r) rs qs j q l e)

mapping_size-moved :
    (r : EcamRegion) (a : ℕ) → mapping_size (record r { virtual_address = a }) ≡ mapping_size r
unfolding mapping_size
mapping_size-moved r a = refl

IsLaid-ordered :
    (next : ℕ) (rs qs : List EcamRegion) (i j : ℕ) (p q : EcamRegion)
    → IsLaid next rs qs
    → i < j
    → get_elem? qs i ≡ some p
    → get_elem? qs j ≡ some q
    → p.virtual_address + mapping_size p ≤ q.virtual_address
IsLaid-ordered next [] [] i j p q l lt e f = absurd cc
IsLaid-ordered next [] (x ∷ qs) i j p q l lt e f = absurd l
IsLaid-ordered next (r ∷ rs) [] i j p q l lt e f = absurd l
IsLaid-ordered next (r ∷ rs) (x ∷ qs) i zero p q l lt e f = absurd (omega (arith, lt))
IsLaid-ordered next (r ∷ rs) (x ∷ qs) zero (suc j) p q (at, l) lt e f =
    let same : p ≡ record r { virtual_address = next } = sym (some_injective x p e) ∙ at in
    omega (
      arith,
      IsLaid-after (next + mapping_size r) rs qs j q l f,
      ap (λ (y : EcamRegion). y.virtual_address) same,
      ap mapping_size same,
      mapping_size-moved r next,
    )
IsLaid-ordered next (r ∷ rs) (x ∷ qs) (suc i) (suc j) p q (at, l) lt e f =
    IsLaid-ordered (next + mapping_size r) rs qs i j p q l (omega (arith, lt)) e f

module _ (m : Mapper) where
  open m use {State}

  -- After the regions were mapped, accesses of one, two or four bytes that do not panic, to registers
  -- of different regions, touch no common byte, even if the regions have the same bus numbers.
  pub map_regions-apart :
      (rs qs : List EcamRegion) (next next' : ℕ) (st st' : State)
      → map_regions m rs next st ≡ some (ok qs, next', st')
      → (i j : ℕ) (p q : EcamRegion) → get_elem? qs i ≡ some p
      → get_elem? qs j ≡ some q
      → i ≢ j
      → p.end_bus < 256
      → q.end_bus < 256
      → (width width' bus bus' device device' function function' offset offset' a b : ℕ)
      → IsWidth width
      → IsWidth width'
      → register_address m width p bus device function offset ≡ some a
      → register_address m width' q bus' device' function' offset' ≡ some b
      → (a + width ≤ b) ⊎ (b + width' ≤ a)
  map_regions-apart rs qs next next' st st' h i j p q e f ne few few' width width' bus bus' device
        device' function function' offset offset' a b ww ww' at at' =
      let l = map_regions-IsLaid m rs qs next next' st st' h in
      let wa = register_address-window m width p bus device function offset a ww few at in
      let wb = register_address-window m width' q bus' device' function' offset' b ww' few' at' in
      elim (dec_lt i j) [
        | yes lt ↦ inl (omega (arith, wa, wb, IsLaid-ordered next rs qs i j p q l lt e f))
        | no ge ↦
            let gt : j < i = omega (arith, ge, ne) in
            inr (omega (arith, wa, wb, IsLaid-ordered next rs qs j i q p l gt f e))
      ]

  -- A region as the table lists it and `parse_mcfg_table` accepts it.
  abbrev IsParsed : EcamRegion → Type 0
  IsParsed r = (r.start_bus ≤ r.end_bus) × (0 < r.base_address) × (r.end_bus < 256)

  parse_entries-IsParsed :
      (es : List McfgEntry) (rs : List EcamRegion)
      → All (λ e. e.bus_number_end < 256) es
      → parse_entries m es ≡ some rs
      → All IsParsed rs
  unfolding parse_entries
  parse_entries-IsParsed [] rs few h = rw (← some_injective _ _ h) tt
  parse_entries-IsParsed (e ∷ es) rs few h =
      elim (Bool-cases (ltb e.bus_number_end e.bus_number_start || e.base_address == 0)) [
        | inl skip ↦ parse_entries-IsParsed es rs few.1 (rw skip at h)
        | inr keep ↦
            let h₀ = rw keep at h in
            let (base, a, h₁) = >>=-eq-some (phys_addr m e.base_address) _ h₀ in
            let (frame, b, h₂) = >>=-eq-some (m.frame_of e.base_address) _ a in
            let (unset, c, h₃) = >>=-eq-some (virt_addr m 0) _ h₁ in
            let (rest, d, h₄) = >>=-eq-some (parse_entries m es) _ h₃ in
            let same : e.base_address ≡ base = some_injective _ _ h₂ in
            rw (← some_injective _ _ h₄) (
              (ground (arith, keep), ground (arith, keep, same), few.0),
              parse_entries-IsParsed es rest few.1 d,
            )
      ]

  IsLaid-valid :
      (next : ℕ) (rs qs : List EcamRegion)
      → 0 < next
      → All IsParsed rs
      → IsLaid next rs qs
      → All (λ q. validate_ecam_region q ≡ ok tt) qs
  unfolding validate_ecam_region
  IsLaid-valid next [] [] pos h l = tt
  IsLaid-valid next [] (q ∷ qs) pos h l = absurd l
  IsLaid-valid next (r ∷ rs) [] pos h l = absurd l
  IsLaid-valid next (r ∷ rs) (q ∷ qs) pos (g, h) (at, l) = (
    rw at (ground (arith, g, pos)),
    IsLaid-valid (next + mapping_size r) rs qs (omega (arith, pos)) h l,
  )

  -- The regions that come out of the table and out of their mapping all pass `validate_ecam_region`,
  -- for a table whose bus numbers are bytes and windows that do not start at address 0.
  pub validate_ecam_region-map_regions :
      (es : List McfgEntry) (rs qs : List EcamRegion) (next next' : ℕ) (st st' : State)
      → All (λ e. e.bus_number_end < 256) es
      → 0 < next
      → parse_entries m es ≡ some rs
      → map_regions m rs next st ≡ some (ok qs, next', st')
      → All (λ q. validate_ecam_region q ≡ ok tt) qs
  validate_ecam_region-map_regions es rs qs next next' st st' few pos parsed mapped =
      IsLaid-valid next rs qs pos (parse_entries-IsParsed es rs few parsed)
        (map_regions-IsLaid m rs qs next next' st st' mapped)
