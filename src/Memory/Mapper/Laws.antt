-- ===== src/Memory/Mapper/Laws.antt =====
-- What the page tables are documented to do, and what follows for a loop that maps fresh frames.
use locos.Prelude.{
  ℕ, ◌≡◌, ◌≢◌, refl, arith, Option, none, some, >>=-eq-some, some_injective, Result, ok, err, List,
  [], ◌∷◌,
}
use locos.Memory.Mapper.{Mapper, Mapped, refused, refuse, map_frame, map_page, and_then, map_loop}

module _ (m : Mapper) where
  open m use {State, MapError, Flags, page_of, allocate_frame, map_to}

  -- `map_to` fails at the page, whatever the frame and the flags.
  abbrev pub IsOccupied : ℕ → State → Type 0
  IsOccupied page st =
      (frame : ℕ) (flags : Flags) → (e : MapError) × ((map_to page frame flags st).0 ≡ err e)

  -- The documented behaviour of `map_to`: a page that is mapped cannot be mapped again, and stays
  -- mapped until it is unmapped; taking a frame leaves the page tables alone.
  pub record KeepsMapped : Type 0 where
    pub maps :
        (page frame : ℕ) (flags : Flags) (st : State)
        → (map_to page frame flags st).0 ≡ ok tt
        → IsOccupied page (map_to page frame flags st).1
    pub stays :
        (page other frame : ℕ) (flags : Flags) (st : State)
        → IsOccupied page st
        → IsOccupied page (map_to other frame flags st).1
    pub frames :
        (page : ℕ) (st : State) → IsOccupied page st → IsOccupied page (allocate_frame st).1

  refuse-state : (r : Result MapError (Unit {0}) × State) → (refuse m r).1 ≡ r.1
  unfolding refuse
  refuse-state (ok u, st) = refl
  refuse-state (err e, st) = refl

  refuse-ok : (r : Result MapError (Unit {0}) × State) → (refuse m r).0 ≡ ok tt → r.0 ≡ ok tt
  unfolding refuse
  refuse-ok (ok u, st) h = refl
  refuse-ok (err e, st) h = cc

  refuse-err :
      (r : Result MapError (Unit {0}) × State) (e : MapError)
      → r.0 ≡ err e
      → (refuse m r).0 ≡ err (refused e)
  unfolding refuse
  refuse-err (ok u, st) e h = cc
  refuse-err (err f, st) e h = cc

  and_then-ok :
      (more : State → Option (Mapped m × State)) (one r : Mapped m × State)
      → and_then m more one ≡ some r
      → r.0 ≡ ok tt
      → (one.0 ≡ ok tt) × (more one.1 ≡ some r)
  and_then-ok more (ok u, s) r h good = (refl, h)
  and_then-ok more (err f, s) r h good = ground arith

  module _ (k : KeepsMapped) where
    map_frame-occupies :
        (flags : Flags) (addr : ℕ) (got : Option ℕ × State) (r : Mapped m × State)
        → map_frame m flags addr got ≡ some r
        → r.0 ≡ ok tt
        → (page : ℕ) × (page_of addr ≡ some page) × IsOccupied page r.1
    unfolding map_frame
    map_frame-occupies flags addr (none, st) r h good = ground arith
    map_frame-occupies flags addr (some frame, st) r h good =
        let (page, at, done) = >>=-eq-some (page_of addr) _ h in
        let same = some_injective _ _ done in
        let worked : (map_to page frame flags st).0 ≡ ok tt =
          refuse-ok (map_to page frame flags st) (rw same good) in
        (
          page,
          at,
          rw (← same)
              (rw (refuse-state (map_to page frame flags st)) (k.maps page frame flags st worked)),
        )

    map_frame-stays :
        (page : ℕ) (flags : Flags) (addr : ℕ) (got : Option ℕ × State) (r : Mapped m × State)
        → map_frame m flags addr got ≡ some r
        → IsOccupied page got.1
        → IsOccupied page r.1
    unfolding map_frame
    map_frame-stays page flags addr (none, st) r h o = rw (← some_injective _ _ h) o
    map_frame-stays page flags addr (some frame, st) r h o =
        let (other, at, done) = >>=-eq-some (page_of addr) _ h in
        rw (← some_injective _ _ done)
          (rw (refuse-state (map_to other frame flags st)) (k.stays page other frame flags st o))

    map_page-stays :
        (page : ℕ) (flags : Flags) (addr : ℕ) (st : State) (r : Mapped m × State)
        → map_page m flags addr st ≡ some r
        → IsOccupied page st
        → IsOccupied page r.1
    unfolding map_page
    map_page-stays page flags addr st r h o =
        map_frame-stays page flags addr (allocate_frame st) r h (k.frames page st o)

    map_loop-stays :
        (page : ℕ) (flags : Flags) (addrs : List ℕ) (st : State) (r : Mapped m × State)
        → map_loop m flags addrs st ≡ some r
        → IsOccupied page st
        → IsOccupied page r.1
    unfolding map_loop
    map_loop-stays page flags [] st r h o = rw (← some_injective _ _ h) o
    map_loop-stays page flags (a ∷ rest) st r h o =
        let (one, first, next) = >>=-eq-some (map_page m flags a st) _ h in
        go one next (map_page-stays page flags a st one first o) (map_loop-stays page flags rest)
      where
        go :
            (one : Mapped m × State)
            → and_then m (map_loop m flags rest) one ≡ some r
            → IsOccupied page one.1
            → ((s : State) (q : Mapped m × State)
                → map_loop m flags rest s ≡ some q
                → IsOccupied page s
                → IsOccupied page q.1)
            → IsOccupied page r.1
        go (ok u, s) e p ih = ih s r e p
        go (err f, s) e p ih = rw (← some_injective _ _ e) p

    map_frame_occupied :
        (page : ℕ) (flags : Flags) (addr : ℕ) (got : Option ℕ × State) (r : Mapped m × State)
        → page_of addr ≡ some page
        → IsOccupied page got.1
        → map_frame m flags addr got ≡ some r
        → r.0 ≢ ok tt
    unfolding map_frame
    map_frame_occupied page flags addr (none, st) r at o h good = ground arith
    map_frame_occupied page flags addr (some frame, st) r at o h good =
        let same = some_injective _ _ (rw at at h) in
        let (e, fails) = o frame flags in
        let refusal = refuse-err (map_to page frame flags st) e fails in ground arith

    opened :
        (flags : Flags) (addr : ℕ) (st : State) (r : Mapped m × State)
        → map_page m flags addr st ≡ some r
        → map_frame m flags addr (allocate_frame st) ≡ some r
    unfolding map_page
    opened flags addr st r h = h

    -- A loop that ended well has mapped its first page, which is then occupied.
    pub map_loop-occupies :
        (flags : Flags) (a : ℕ) (rest : List ℕ) (st : State) (r : Mapped m × State)
        → map_loop m flags (a ∷ rest) st ≡ some r
        → r.0 ≡ ok tt
        → (page : ℕ) × (page_of a ≡ some page) × IsOccupied page r.1
    unfolding map_loop
    map_loop-occupies flags a rest st r h good =
        let (one, first, next) = >>=-eq-some (map_page m flags a st) _ h in
        let (worked, more) = and_then-ok (map_loop m flags rest) one r next good in
        let (page, at, o) =
          map_frame-occupies flags a (allocate_frame st) one (opened flags a st one first) worked in
        (page, at, map_loop-stays page flags rest one.1 r more o)

    -- A loop whose first page is occupied does not end well.
    pub map_loop_occupied :
        (page : ℕ) (flags : Flags) (a : ℕ) (rest : List ℕ) (st : State) (r : Mapped m × State)
        → page_of a ≡ some page
        → IsOccupied page st
        → map_loop m flags (a ∷ rest) st ≡ some r
        → r.0 ≢ ok tt
    unfolding map_loop
    map_loop_occupied page flags a rest st r at o h good =
        let (one, first, next) = >>=-eq-some (map_page m flags a st) _ h in
        let (worked, more) = and_then-ok (map_loop m flags rest) one r next good in
        map_frame_occupied page flags a (allocate_frame st) one at (k.frames page st o)
          (opened flags a st one first) worked
