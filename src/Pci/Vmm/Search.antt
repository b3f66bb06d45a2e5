-- ===== src/Pci/Vmm/Search.antt =====
-- The search for a range of free pages: it misses none, wherever it starts.
use locos.Prelude.{
  ℕ, zero, suc, ◌+◌, ◌-◌, ◌≤◌, ◌<◌, ◌≡◌, ◌∙◌, sym, refl, arith, Bool-cases, Option-cases, inl, inr,
  true, false, ◌||◌, Option, none, some, some_injective, ltb, leb, if◌then◌else◌,
}
use native.Mathlib.Decide.{dec_lt, dec_le}
use locos.Pci.Vmm.{
  PcieVmm, pcie_vmm_pages, is_page_allocated, is_range_free, first_free, wrap_around,
  find_free_pages,
}

-- A range of free pages of the region.
abbrev pub IsFree : PcieVmm → ℕ → ℕ → Type 0
IsFree v start n =
    (i : ℕ) → start ≤ i → i < start + n → (i < pcie_vmm_pages) × (is_page_allocated v i ≡ false)

pub is_range_free-IsFree :
    (v : PcieVmm) (start n : ℕ) → is_range_free v start n ≡ true → IsFree v start n
unfolding is_range_free
is_range_free-IsFree v start zero h i low high = absurd (omega arith)
is_range_free-IsFree v start (suc n) h i low high =
    elim (Bool-cases (leb pcie_vmm_pages start || is_page_allocated v start)) [
      | inl taken ↦ let bad = rw (taken, is_range_free) at h in absurd (ground arith)
      | inr vacant ↦
          let rest = is_range_free-IsFree v (start + 1) n (rw (vacant, is_range_free) at h) in
          elim (dec_lt start i) [
            | yes later ↦ rest i (omega arith) (omega arith)
            | no first ↦
                let same : i ≡ start = omega (arith, low, first) in rw same (ground (arith, vacant))
          ]
    ]

-- Every free range of the region passes the test.
IsFree-is_range_free :
    (v : PcieVmm) (start n : ℕ) → IsFree v start n → is_range_free v start n ≡ true
unfolding is_range_free
IsFree-is_range_free v start zero h = refl
IsFree-is_range_free v start (suc n) h =
    let (inside, vacant) = h start (omega arith) (omega arith) in
    let now : (leb pcie_vmm_pages start || is_page_allocated v start) ≡ false =
      ground (arith, inside, vacant) in
    rw (now, is_range_free)
      (IsFree-is_range_free v (start + 1) n (λ i low high. h i (omega arith) (omega arith)))

-- Of the starts that the loop tries: the one that it finds is free, and if it finds none then none is.
pub first_free-some :
    (v : PcieVmm) (n k start s : ℕ) → first_free v n k start ≡ some s → is_range_free v s n ≡ true
unfolding first_free
first_free-some v n zero start s h = cc
first_free-some v n (suc k) start s h = elim (Bool-cases (is_range_free v start n)) [
  | inl free ↦ rw (← some_injective start s (rw (free, first_free) at h)) free
  | inr not_free ↦ first_free-some v n k (start + 1) s (rw (not_free, first_free) at h)
]

pub first_free-none :
    (v : PcieVmm) (n k start : ℕ)
    → first_free v n k start ≡ none
    → (s : ℕ) → start ≤ s
    → s < start + k
    → is_range_free v s n ≡ false
unfolding first_free
first_free-none v n zero start h s low high = absurd (omega arith)
first_free-none v n (suc k) start h s low high = elim (Bool-cases (is_range_free v start n)) [
  | inl free ↦ let bad = rw (free, first_free) at h in absurd (ground arith)
  | inr not_free ↦ elim (dec_lt start s) [
    | yes later ↦
        first_free-none v n k (start + 1) (rw (not_free, first_free) at h) s (omega arith)
          (omega arith)
    | no first ↦ let same : s ≡ start = omega (arith, low, first) in rw same not_free
  ]
]

wrap_around-some :
    (v : PcieVmm) (n s k start : ℕ) (o : Option ℕ)
    → first_free v n k start ≡ o
    → wrap_around v n o ≡ some s
    → is_range_free v s n ≡ true
unfolding wrap_around
wrap_around-some v n s k start (some t) e h =
    rw (← some_injective t s h) (first_free-some v n k start t e)
wrap_around-some v n s k start none e h = first_free-some v n _ 0 s h

-- The range that the search finds is one of free pages of the region.
pub find_free_pages-some :
    (v : PcieVmm) (n start : ℕ) → find_free_pages v n ≡ some start → IsFree v start n
unfolding find_free_pages
find_free_pages-some v n start h = elim (Bool-cases (ltb pcie_vmm_pages n)) [
  | inl large ↦ let bad = rw large at h in absurd (ground arith)
  | inr fits ↦ is_range_free-IsFree v start n (
      wrap_around-some v n start (pcie_vmm_pages - n + 1 - v.next_search_start) v.next_search_start
        _ refl (rw fits at h))
]

-- If the search finds nothing then every range inside the region fails the test.
find_free_pages_tests :
    (v : PcieVmm) (n start : ℕ)
    → find_free_pages v n ≡ none
    → start + n ≤ pcie_vmm_pages
    → is_range_free v start n ≡ false
unfolding find_free_pages wrap_around
find_free_pages_tests v n start h inside =
    let fits : ltb pcie_vmm_pages n ≡ false = ground arith in
    let hint = v.next_search_start in
    let starts = pcie_vmm_pages - n + 1 in
    elim (Option-cases (first_free v n (starts - hint) hint)) [
      | inr (s, found) ↦ let bad = rw (fits, found) at h in absurd (ground arith)
      | inl nothing ↦
          let again : first_free v n (if leb hint starts then hint else starts) 0 ≡ none =
            rw (fits, nothing) at h in
          elim (dec_le hint start) [
            | yes from_hint ↦
                first_free-none v n (starts - hint) hint nothing start from_hint (omega arith)
            | no below ↦
                let room : start < (if leb hint starts then hint else starts) = ground arith in
                first_free-none v n _ 0 again start (omega arith) (omega (arith, room))
          ]
    ]

-- If the search finds nothing then, wherever in the region one starts and wherever the search was told
-- to start, the range of that many pages there is not free: some page of it is allocated.
pub find_free_pages-none :
    (v : PcieVmm) (n start : ℕ)
    → find_free_pages v n ≡ none
    → start + n ≤ pcie_vmm_pages
    → ¬ IsFree v start n
find_free_pages-none v n start h inside free =
    let passes = IsFree-is_range_free v start n free in
    let fails = find_free_pages_tests v n start h inside in
    let bad : true ≡ false = sym passes ∙ fails in absurd (ground (arith, bad))
