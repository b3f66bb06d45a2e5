-- ===== src/Pci/Vmm/Bitmap.antt =====
-- What the bitmap says of a page after a range was allocated or freed.
use locos.Prelude.{
  ℕ, zero, suc, ◌+◌, ◌-◌, ◌/◌, ◌%◌, ◌^◌, ◌≤◌, ◌<◌, ◌≡◌, ◌≢◌, ◌∙◌, sym, refl, ap, arith, ◌&&◌,
  bit_and, bit_or, Bool, Bool-cases, inl, inr, true, false, ◌==◌, ltb, leb, if◌then◌else◌, List, [],
  ◌∷◌, length, get_or, set, length-set,
}
use locos.Prelude.Bits.{bit, bit-le-one}
use locos.Prelude.BitSet.{set_self, set_other, clear_self, clear_other, test_bit}
use native.Mathlib.Decide.{ℕ_discrete}
use native.Mathlib.Nat.{mod-lt}
use locos.Pci.Vmm.{
  PcieVmm, pcie_vmm_pages, bitmap_words, word_of, is_page_allocated, set_page_allocated,
  set_page_free, allocate_range, free_range,
}

-- The array has its fixed number of words.
abbrev pub IsSized : PcieVmm → Type 0
IsSized v = length v.page_bitmap ≡ bitmap_words

get_or-set_self : (xs : List ℕ) (i v d : ℕ) → i < length xs → get_or (set xs i v) i d ≡ v
get_or-set_self [] i v d h = absurd (omega arith)
get_or-set_self (x ∷ xs) zero v d h = refl
get_or-set_self (x ∷ xs) (suc i) v d h = get_or-set_self xs i v d (omega arith)

get_or-set_ne : (xs : List ℕ) (i j v d : ℕ) → i ≢ j → get_or (set xs i v) j d ≡ get_or xs j d
get_or-set_ne [] i j v d h = refl
get_or-set_ne (x ∷ xs) zero zero v d h = absurd (h refl)
get_or-set_ne (x ∷ xs) zero (suc j) v d h = refl
get_or-set_ne (x ∷ xs) (suc i) zero v d h = refl
get_or-set_ne (x ∷ xs) (suc i) (suc j) v d h = get_or-set_ne xs i j v d (λ e. h (ap suc e))

-- The bit of a page.
abbrev pub page_bit : PcieVmm → ℕ → ℕ
page_bit v page = bit (page % 128) (word_of v page)

is_page_allocated-page_bit :
    (v : PcieVmm) (page : ℕ)
    → page < pcie_vmm_pages
    → is_page_allocated v page ≡ (page_bit v page == 1)
unfolding is_page_allocated
is_page_allocated-page_bit v page h =
    let inside : leb pcie_vmm_pages page ≡ false = ground arith in
    let (one, none_left) = test_bit (page % 128) (word_of v page) in
    elim (ℕ_discrete (page_bit v page) 1) [
      | yes e ↦ rw (inside, one e, e) refl
      | no n ↦
          let clear : page_bit v page ≡ 0 =
            omega (arith, n, bit-le-one (page % 128) (word_of v page)) in
          rw (inside, none_left clear, clear) refl
    ]

-- A page's word written over: its own bit is that of the new word, and if the new word has the other
-- bits of the old one then every other page keeps its bit.
page_bit-set_self :
    (v : PcieVmm) (page w : ℕ)
    → IsSized v
    → page < pcie_vmm_pages
    → page_bit (record v { page_bitmap = set v.page_bitmap (page / 128) w }) page
      ≡ bit (page % 128) w
page_bit-set_self v page w sized h =
    ap (bit (page % 128)) (get_or-set_self v.page_bitmap (page / 128) w 0 (omega (arith, sized, h)))

page_bit-set_other :
    (v : PcieVmm) (page other w : ℕ)
    → page ≢ other
    → IsSized v
    → page < pcie_vmm_pages
    → ((j : ℕ) → j < 128 → page % 128 ≢ j → bit j w ≡ bit j (word_of v page))
    → page_bit (record v { page_bitmap = set v.page_bitmap (page / 128) w }) other
      ≡ page_bit v other
page_bit-set_other v page other w ne sized h keeps = elim (ℕ_discrete (page / 128) (other / 128)) [
  | no apart ↦
      ap (bit (other % 128)) (get_or-set_ne v.page_bitmap (page / 128) (other / 128) w 0 apart)
  | yes same ↦
      let in_word : page % 128 ≢ other % 128 = λ e. ne (omega (arith, e, same)) in
      rw (← same) (
        ap (bit (other % 128))
          (get_or-set_self v.page_bitmap (page / 128) w 0 (omega (arith, sized, h)))
        ∙ keeps (other % 128) (omega arith) in_word)
]

-- The array keeps its size, and the pages that are allocated are as before, but for those that the
-- test holds of, which are all allocated or all free.
abbrev pub Marked : Bool → (ℕ → Bool) → PcieVmm → PcieVmm → Type 0
Marked b here v v' =
    IsSized v'
    × (v'.base_address ≡ v.base_address)
    × ((q : ℕ)
        → q < pcie_vmm_pages
        → is_page_allocated v' q ≡ (if here q then b else is_page_allocated v q))

-- One word written over marks one page.
written-Marked :
    (b : Bool) (v : PcieVmm) (page w : ℕ)
    → IsSized v
    → page < pcie_vmm_pages
    → (bit (page % 128) w == 1) ≡ b
    → ((j : ℕ) → j < 128 → page % 128 ≢ j → bit j w ≡ bit j (word_of v page))
    → Marked b (λ q. page == q) v (record v { page_bitmap = set v.page_bitmap (page / 128) w })
written-Marked b v page w sized h own others =
    let v' : PcieVmm = record v { page_bitmap = set v.page_bitmap (page / 128) w } in
    (
      length-set v.page_bitmap (page / 128) w ∙ sized,
      refl,
      λ q inside. elim (Bool-cases (page == q)) [
        | inl same ↦
            let at : page ≡ q = ground arith in
            rw same (
              is_page_allocated-page_bit v' q inside
              ∙ rw (← at) (ap (λ (k : ℕ). k == 1) (page_bit-set_self v page w sized h) ∙ own))
        | inr other ↦ rw other (
            is_page_allocated-page_bit v' q inside
            ∙ ap (λ (k : ℕ). k == 1)
                (page_bit-set_other v page q w (λ e. ground arith) sized h others)
            ∙ sym (is_page_allocated-page_bit v q inside))
      ],
    )

set_page_allocated-Marked :
    (v : PcieVmm) (page : ℕ)
    → IsSized v
    → page < pcie_vmm_pages
    → Marked true (λ q. page == q) v (set_page_allocated v page)
unfolding set_page_allocated
set_page_allocated-Marked v page sized h =
    let inside : ltb page pcie_vmm_pages ≡ true = ground arith in
    rw inside (
      written-Marked true v page (bit_or (word_of v page) (2 ^ (page % 128))) sized h
        (rw (set_self (page % 128) (word_of v page)) refl)
        (λ j small ne. set_other (page % 128) j (word_of v page) ne))

set_page_free-Marked :
    (v : PcieVmm) (page : ℕ)
    → IsSized v
    → page < pcie_vmm_pages
    → Marked false (λ q. page == q) v (set_page_free v page)
unfolding set_page_free
set_page_free-Marked v page sized h =
    let inside : ltb page pcie_vmm_pages ≡ true = ground arith in
    rw inside (
      written-Marked false v page (bit_and (word_of v page) (2 ^ 128 - 1 - 2 ^ (page % 128))) sized
        h (rw (clear_self 128 (page % 128) (word_of v page) (mod-lt page (omega arith))) refl)
        (λ j small ne.
          clear_other 128 (page % 128) j (word_of v page) (mod-lt page (omega arith)) small ne))

abbrev pub in_range : ℕ → ℕ → ℕ → Bool
in_range start n q = leb start q && ltb q (start + n)

-- A page and the range behind it are a range that is one page longer.
Marked-suc :
    (b : Bool) (u v w : PcieVmm) (start n : ℕ)
    → Marked b (λ q. start == q) u v
    → Marked b (in_range (start + 1) n) v w
    → Marked b (in_range start (suc n)) u w
Marked-suc b u v w start n (_, at, one) (sized, at', rest) =
    (sized, at' ∙ at, λ q inside. ground (arith, one q inside, rest q inside))

Marked-zero : (b : Bool) (v : PcieVmm) (start : ℕ) → IsSized v → Marked b (in_range start 0) v v
Marked-zero b v start sized = (sized, refl, λ q inside. ground arith)

pub allocate_range-Marked :
    (v : PcieVmm) (start n : ℕ)
    → IsSized v
    → start + n ≤ pcie_vmm_pages
    → Marked true (in_range start n) v (allocate_range v start n)
unfolding allocate_range
allocate_range-Marked v start zero sized h = Marked-zero true v start sized
allocate_range-Marked v start (suc n) sized h =
    let one = set_page_allocated-Marked v start sized (omega arith) in
    Marked-suc true v (set_page_allocated v start) _ start n one
      (allocate_range-Marked (set_page_allocated v start) (start + 1) n one.0 (omega arith))

pub free_range-Marked :
    (v : PcieVmm) (start n : ℕ)
    → IsSized v
    → start + n ≤ pcie_vmm_pages
    → Marked false (in_range start n) v (free_range v start n)
unfolding free_range
free_range-Marked v start zero sized h = Marked-zero false v start sized
free_range-Marked v start (suc n) sized h =
    let one = set_page_free-Marked v start sized (omega arith) in
    Marked-suc false v (set_page_free v start) _ start n one
      (free_range-Marked (set_page_free v start) (start + 1) n one.0 (omega arith))
