-- ===== src/Ps2/Keyboard/Buffer.antt =====
-- kernel/src/ps2/keyboard.rs: the bound and the order of the input buffer, and the modifier keys.
use locos.Prelude.{
  ℕ, suc, ◌≤◌, ◌<◌, ◌==◌, ltb, bit_and, Bool, Bool-cases, inl, inr, true, false, ◌≡◌, ◌∙◌, ap, sym,
  refl, arith, Option, none, some, List, [], ◌∷◌, ◌++◌, length, length-append, length-take, zero,
  take, if◌then◌else◌,
}
use mathlib.Core.List.{append_assoc, append-nil}
use locos.Ps2.Keyboard.{
  KeyEvent, key_down, key_up, unknown, KeyboardState, update, KeyboardDriver, push_event,
  process_decoded, process_scancode, handle_interrupt,
}
use locos.Ps2.Keyboard.Decode.{scancode_to_enum}
use locos.Ps2.Keyboard.ScanCodes.{ScanCode}

-- The event of a byte other than the prefix, from its key.
unfoldable pub event_from : ℕ → Option ScanCode → KeyEvent
event_from b none = unknown b
event_from b (some s) = if bit_and b 0x80 == 0 then key_down s else key_up s

-- The same, behind the prefix or not.
abbrev pub event_of : Bool → ℕ → KeyEvent
event_of ext b = event_from b (scancode_to_enum (bit_and b 0x7F) ext)

-- The events of a sequence of bytes.
unfoldable pub events : Bool → List ℕ → List KeyEvent
events ext [] = []
events ext (b ∷ bytes) =
    let extended = events true bytes in
    let later = events false bytes in if b == 0xE0 then extended else event_of ext b ∷ later

-- The modifier keys after a sequence of events.
unfoldable pub updates : KeyboardState → List KeyEvent → KeyboardState
updates k [] = k
updates k (e ∷ es) = updates (update k e) es

abbrev pub pushes : List KeyEvent → List KeyEvent → List KeyEvent
pushes buffer [] = buffer
pushes buffer (e ∷ es) = pushes (push_event buffer e) es

take-all : (xs : List KeyEvent) (n : ℕ) → length xs ≤ n → take n xs ≡ xs
take-all [] zero h = refl
take-all [] (suc n) h = refl
take-all (x ∷ xs) zero h = absurd (omega (arith, h))
take-all (x ∷ xs) (suc n) h =
    ap {B = List KeyEvent} (λ ys. x ∷ ys) (take-all xs n (omega (arith, h)))

take-append_full : (xs ys : List KeyEvent) → take (length xs) (xs ++ ys) ≡ xs
take-append_full [] [] = refl
take-append_full [] (y ∷ ys) = refl
take-append_full (x ∷ xs) ys = ap {B = List KeyEvent} (λ zs. x ∷ zs) (take-append_full xs ys)

-- Events that find the buffer full are dropped.
pushes-take :
    (buffer es : List KeyEvent) → length buffer ≤ 256 → pushes buffer es ≡ take 256 (buffer ++ es)
pushes-take buffer [] h = sym (rw (append-nil buffer) (take-all buffer 256 h))
pushes-take buffer (e ∷ es) h = elim (Bool-cases (ltb (length buffer) 256)) [
  | inl room ↦
      let fits : length (buffer ++ e ∷ []) ≤ 256 =
        let low : length buffer < 256 = ground arith in
        omega (arith, length-append buffer (e ∷ []), low) in
      rw room
        (pushes-take (buffer ++ e ∷ []) es fits ∙ ap (take 256) (append_assoc buffer (e ∷ []) es))
  | inr full ↦
      let same : length buffer ≡ 256 = ground arith in
      rw full (
        pushes-take buffer es h
        ∙ rw (← same) (take-append_full buffer es ∙ sym (take-append_full buffer (e ∷ es))))
]

process_decoded-event :
    (d : KeyboardDriver) (b : ℕ) (o : Option ScanCode)
    → process_decoded d b o ≡ record {
      input_buffer = push_event d.input_buffer (event_from b o);
      state = update d.state (event_from b o);
      extended_scancode = false;
    }
unfolding process_decoded event_from update
process_decoded-event d b none = refl
process_decoded-event d b (some s) = refl

-- The driver after the bytes of an interrupt.
abbrev pub Handled : KeyboardDriver → List KeyEvent → Option KeyboardDriver → Type 0
Handled d es o =
    (d' : KeyboardDriver) × (o ≡ some d')
    × (d'.input_buffer ≡ pushes d.input_buffer es)
    × (d'.state ≡ updates d.state es)

pub handle_interrupt-pushes :
    (d : KeyboardDriver) (bytes : List ℕ)
    → Handled d (events d.extended_scancode bytes) (handle_interrupt (some d) bytes)
unfolding handle_interrupt process_scancode events updates
handle_interrupt-pushes d [] = (d, refl, refl, refl)
handle_interrupt-pushes d (b ∷ bytes) = elim (Bool-cases (b == 0xE0)) [
  | inl prefix ↦ rw prefix (handle_interrupt-pushes (record d { extended_scancode = true }) bytes)
  | inr other ↦
      rw (other, process_decoded-event d b (scancode_to_enum (bit_and b 0x7F) d.extended_scancode))
        (handle_interrupt-pushes _ bytes)
]

-- The bytes of an interrupt put their events, in order, behind those that wait, and drop the events
-- that would make more than 256 wait; the modifier keys follow all the events, dropped or not. The
-- driver must hold at most 256 events before, and then it does so after.
pub handle_interrupt-events :
    (d : KeyboardDriver) (bytes : List ℕ)
    → length d.input_buffer ≤ 256
    → (d' : KeyboardDriver) × (handle_interrupt (some d) bytes ≡ some d')
      × (d'.input_buffer ≡ take 256 (d.input_buffer ++ events d.extended_scancode bytes))
      × (length d'.input_buffer ≤ 256)
      × (d'.state ≡ updates d.state (events d.extended_scancode bytes))
handle_interrupt-events d bytes h =
    let (d', done, buffer, state) = handle_interrupt-pushes d bytes in
    let es = events d.extended_scancode bytes in
    let kept : d'.input_buffer ≡ take 256 (d.input_buffer ++ es) =
      buffer ∙ pushes-take d.input_buffer es h in
    (d', done, kept, rw kept (omega (arith, length-take 256 (d.input_buffer ++ es))), state)
