-- ===== src/Pci/Mcfg/Registers.antt =====
-- The addresses of the registers of PCIe functions in the window of a region.
use locos.Prelude.{
  ℕ, ◌+◌, ◌-◌, ◌*◌, ◌%◌, ◌^◌, ◌≤◌, ◌<◌, ◌≡◌, ◌⊎◌, inl, inr, arith, some, ltb, ◌==◌, >>=-eq-some,
  some_injective, assert, add64, Bool, true,
}
use locos.Memory.Mapper.{Mapper}
use locos.Pci.Mcfg.{EcamRegion, mapping_size, has_bus, get_device_address, register_address}

-- A register of a function on a bus of the region.
pub record IsRegister (r : EcamRegion) (width bus device function offset : ℕ) : Type 0 where
  pub from : r.start_bus ≤ bus
  pub to : bus ≤ r.end_bus
  pub few_devices : device < 32
  pub few_functions : function < 8
  pub few_bytes : offset < 4096
  pub aligned : offset % width ≡ 0

-- The offset of a register in the window of its region.
abbrev pub place : EcamRegion → ℕ → ℕ → ℕ → ℕ → ℕ
place r bus device function offset =
    (bus - r.start_bus) * 2 ^ 20 + device * 2 ^ 15 + function * 2 ^ 12 + offset

-- The widths of the accesses, in bytes.
abbrev pub IsWidth : ℕ → Type 0
IsWidth width = (width ≡ 1) ⊎ ((width ≡ 2) ⊎ (width ≡ 4))

fits :
    (width offset : ℕ) → IsWidth width → offset < 4096 → offset % width ≡ 0 → offset + width ≤ 4096
fits width offset (inl e) few h = omega (arith, e, few)
fits width offset (inr (inl e)) few h =
    let g : offset % 2 ≡ 0 = rw e at h in omega (arith, e, g, few)
fits width offset (inr (inr e)) few h =
    let g : offset % 4 ≡ 0 = rw e at h in omega (arith, e, g, few)

whole :
    (r : EcamRegion) (bus : ℕ)
    → r.end_bus < 256
    → r.start_bus ≤ bus
    → bus ≤ r.end_bus
    → mapping_size r ≡ (r.end_bus - r.start_bus + 1) * 2 ^ 20
unfolding mapping_size
whole r bus few from to = ground (arith, few, from, to)

module _ (m : Mapper) where
  open m use {page_of}

  assert-true : (b : Bool) → (u : Unit {0}) → assert b ≡ some u → b ≡ true
  assert-true b u h = ground arith

  -- What an access that did not panic has found.
  pub register_address-IsRegister :
      (width : ℕ) (r : EcamRegion) (bus device function offset a : ℕ)
      → register_address m width r bus device function offset ≡ some a
      → IsRegister r width bus device function offset
        × (a ≡ r.virtual_address + place r bus device function offset)
  unfolding register_address get_device_address
  register_address-IsRegister width r bus device function offset a h =
      let (u₁, a₁, h₁) = >>=-eq-some (assert (offset % width == 0)) _ h in
      let (u₂, a₂, h₂) = >>=-eq-some (assert (ltb offset 4096)) _ h₁ in
      let (d, a₃, h₃) = >>=-eq-some (get_device_address m r bus device function) _ h₂ in
      let (u₄, a₄, h₄) = >>=-eq-some (assert (has_bus bus r)) _ a₃ in
      let (u₅, a₅, h₅) = >>=-eq-some (assert (ltb device 32)) _ h₄ in
      let (u₆, a₆, h₆) = >>=-eq-some (assert (ltb function 8)) _ h₅ in
      let off : ℕ = (bus - r.start_bus) * 2 ^ 20 + device * 2 ^ 15 + function * 2 ^ 12 in
      let (x, a₇, h₇) = >>=-eq-some (add64 r.virtual_address off) _ h₆ in
      let (p, a₈, h₈) = >>=-eq-some (page_of x) _ h₇ in
      let same : x ≡ d = some_injective _ _ h₈ in
      let t₁ = assert-true (offset % width == 0) u₁ a₁ in
      let t₂ = assert-true (ltb offset 4096) u₂ a₂ in
      let t₄ = assert-true (has_bus bus r) u₄ a₄ in
      let t₅ = assert-true (ltb device 32) u₅ a₅ in
      let t₆ = assert-true (ltb function 8) u₆ a₆ in
      let x_at : x ≡ r.virtual_address + off = ground arith in
      let a_at : a ≡ d + offset = ground arith in
      (
        record {
          from = ground (arith, t₄);
          to = ground (arith, t₄);
          few_devices = ground (arith, t₅);
          few_functions = ground (arith, t₆);
          few_bytes = ground (arith, t₂);
          aligned = ground (arith, t₁);
        },
        omega (arith, x_at, a_at, same),
      )

  -- An access to a register of one, two or four bytes that does not panic lies in the window of the
  -- region, for a region whose buses have numbers below 256.
  pub register_address-window :
      (width : ℕ) (r : EcamRegion) (bus device function offset a : ℕ)
      → IsWidth width
      → r.end_bus < 256
      → register_address m width r bus device function offset ≡ some a
      → (r.virtual_address ≤ a) × (a + width ≤ r.virtual_address + mapping_size r)
  unfolding mapping_size
  register_address-window width r bus device function offset a sizes few h =
      let (i, at) = register_address-IsRegister width r bus device function offset a h in
      let room : offset + width ≤ 4096 = fits width offset sizes i.few_bytes i.aligned in
      let size : mapping_size r ≡ (r.end_bus - r.start_bus + 1) * 2 ^ 20 =
        whole r bus few i.from i.to in
      (
        omega (arith, at),
        omega (arith, at, size, room, i.from, i.to, i.few_devices, i.few_functions),
      )

  -- Accesses that do not panic, to two registers of one region, go to the same address only if they are
  -- to the same register of the same function of the same device on the same bus.
  pub register_address-injective :
      (width width' : ℕ) (r : EcamRegion) (bus bus' device device' function function' : ℕ)
      → (offset offset' a : ℕ) → register_address m width r bus device function offset ≡ some a
      → register_address m width' r bus' device' function' offset' ≡ some a
      → (bus ≡ bus') × (device ≡ device') × (function ≡ function') × (offset ≡ offset')
  register_address-injective width width' r bus bus' device device' function function' offset
        offset' a h h' =
      let (i, at) = register_address-IsRegister width r bus device function offset a h in
      let (j, at') = register_address-IsRegister width' r bus' device' function' offset' a h' in
      omega (
        arith, at, at', i.from, j.from, i.few_devices, j.few_devices, i.few_functions,
        j.few_functions, i.few_bytes, j.few_bytes,
      )
