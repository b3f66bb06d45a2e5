-- ===== src/Memory/Mapper/Simple.antt =====
-- Test data: page tables as the list of the mapped pages, with frames that never run out.
use locos.Prelude.{
  ℕ, ◌-◌, ◌%◌, ◌≡◌, refl, arith, ◌==◌, Bool, Bool-cases, inl, inr, true, false, ◌||◌, some, none,
  List, [], ◌∷◌, Result, ok, err, if◌then◌else◌,
}
use locos.Memory.Mapper.{Mapper}
use locos.Memory.Mapper.Laws.{KeepsMapped, IsOccupied}

abbrev pub has : ℕ → List ℕ → Bool
has p [] = false
has p (x ∷ xs) = x == p || has p xs

abbrev pub without : ℕ → List ℕ → List ℕ
without p [] = []
without p (x ∷ xs) = if x == p then xs else x ∷ without p xs

abbrev pub try_map : ℕ → List ℕ → Result (Unit {0}) (Unit {0}) × List ℕ
try_map p st = if has p st then (err tt, st) else (ok tt, p ∷ st)

abbrev pub simple : Mapper
simple = record {
  State = List ℕ;
  MapError = Unit;
  UnmapError = Unit;
  frame_allocation_failed = tt;
  Flags = Unit;
  present = tt;
  writable = tt;
  user_accessible = tt;
  no_cache = tt;
  no_execute = tt;
  join = λ f g. tt;
  page_of = λ a. some (a - a % 4096);
  frame_of = λ a. some (a - a % 4096);
  allocate_frame = λ st. (some 0x5000, st);
  deallocate_frame = λ frame st. some st;
  map_to = λ page frame flags st. try_map page st;
  unmap = λ page st. if has page st then (ok 0x5000, without page st) else (err tt, st);
  map_user = λ table page frame flags st. try_map page st;
  present_entry = λ table i st. some none;
}

IsOccupied-has : (p : ℕ) (st : List ℕ) → has p st ≡ true → IsOccupied simple p st
IsOccupied-has p st h frame flags = (tt, rw h refl)

has-IsOccupied : (p : ℕ) (st : List ℕ) → IsOccupied simple p st → has p st ≡ true
has-IsOccupied p st h = elim (Bool-cases (has p st)) [
  | inl found ↦ found
  | inr missing ↦
      let (e, failed) = h 0 tt in let bad = rw missing at failed in absurd (ground arith)
]

has_self : (p : ℕ) (st : List ℕ) → (p == p || has p st) ≡ true
has_self p st = ground arith

try_map-maps : (p : ℕ) (st : List ℕ) → has p (try_map p st).1 ≡ true
try_map-maps p st = elim (Bool-cases (has p st)) [
  | inl found ↦ rw found found
  | inr missing ↦ rw missing (has_self p st)
]

try_map-stays : (p q : ℕ) (st : List ℕ) → has p st ≡ true → has p (try_map q st).1 ≡ true
try_map-stays p q st h = elim (Bool-cases (has q st)) [
  | inl found ↦ rw found h
  | inr missing ↦ rw missing (ground (arith, h))
]

pub simple-KeepsMapped : KeepsMapped simple
simple-KeepsMapped = record {
  maps = λ page frame flags st good. IsOccupied-has page _ (try_map-maps page st);
  stays = λ page other frame flags st h.
      IsOccupied-has page _ (try_map-stays page other st (has-IsOccupied page st h));
  frames = λ page st h. h;
}
