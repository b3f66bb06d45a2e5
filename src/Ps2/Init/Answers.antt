-- ===== src/Ps2/Init/Answers.antt =====
-- What the initialization of the keyboard makes of the answers.
use Prim.Native.String.{String}
use locos.Prelude.{
  ℕ, ◌==◌, ◌≡◌, refl, arith, Bool-cases, inl, inr, Option, some, ◌>>=◌, >>=-eq-some, some_injective,
  Result, ok, err, [], ◌∷◌, if◌then◌else◌,
}
use locos.Ps2.Controller.{
  Ports, read_data, write_data, wait_output_buffer_full, wait_input_buffer_empty,
}
use locos.Ps2.Controller.Dialog.{dialog}
use locos.Ps2.Init.{Outcome, expect, write_then, keyboard_init, ack, self_test_passed}
use locos.Ps2.Keyboard.{KeyboardDriver, new}

module _ (ports : Ports) (fuel : ℕ) where
  open ports use {State}

  -- The keyboard driver after an initialization: a new one after success, else the one before.
  abbrev pub Installed : Option KeyboardDriver → Outcome ports fuel → Type 0
  Installed kb (ok u, kb', st) = kb' ≡ some new
  Installed kb (err e, kb', st) = kb' ≡ kb

  expect-Installed :
      (expected : ℕ) (message : String) (kb : Option KeyboardDriver)
      (more : State → Option (Outcome ports fuel)) (st : State) (o : Outcome ports fuel)
      → ((s : State) (o : Outcome ports fuel) → more s ≡ some o → Installed kb o)
      → expect ports fuel expected message kb more st ≡ some o
      → Installed kb o
  unfolding expect
  expect-Installed expected message kb more st o rest h =
      let (r, got, h₁) = >>=-eq-some (read_data ports fuel st) _ h in
      elim (Bool-cases (r.0 == expected)) [
        | inl good ↦ rest r.1 o (rw good at h₁)
        | inr bad ↦ let e = some_injective _ _ (rw bad at h₁) in rw (← e) refl
      ]

  write_then-Installed :
      (b : ℕ) (kb : Option KeyboardDriver) (more : State → Option (Outcome ports fuel)) (st : State)
      (o : Outcome ports fuel)
      → ((s : State) (o : Outcome ports fuel) → more s ≡ some o → Installed kb o)
      → write_then ports fuel b more st ≡ some o
      → Installed kb o
  unfolding write_then
  write_then-Installed b kb more st o rest h =
      let (s, wrote, h₁) = >>=-eq-some (write_data ports fuel b st) more h in rest s o h₁

  finished-Installed :
      (kb : Option KeyboardDriver) (o : Outcome ports fuel) (st : State)
      → some (ok tt, some new, st) ≡ some o
      → Installed kb o
  finished-Installed kb o st e = rw (← some_injective (ok tt, some new, st) o e) refl

  -- Whatever the controller does, and whenever `keyboard::init` returns: after success the keyboard
  -- has a new driver, and after an error it has the driver that it had before.
  pub keyboard_init-Installed :
      (kb : Option KeyboardDriver) (st : State) (o : Outcome ports fuel)
      → keyboard_init ports fuel kb st ≡ some o
      → Installed kb o
  unfolding keyboard_init
  keyboard_init-Installed kb st o h =
      write_then-Installed 0xFF kb _ st o
        (λ s₁ o₁. expect-Installed ack "Keyboard reset failed" kb _ s₁ o₁ (λ s₂ o₂.
          expect-Installed self_test_passed "Keyboard self-test failed" kb _ s₂ o₂ (λ s₃ o₃.
            write_then-Installed 0xF0 kb _ s₃ o₃ (λ s₄ o₄.
              expect-Installed ack "Scancode set command failed" kb _ s₄ o₄ (λ s₅ o₅.
                write_then-Installed 0x01 kb _ s₅ o₅ (λ s₆ o₆.
                  expect-Installed ack "Scancode set selection failed" kb _ s₆ o₆ (λ s₇ o₇.
                    write_then-Installed 0xF4 kb _ s₇ o₇ (λ s₈ o₈.
                      expect-Installed ack "Enable scanning failed" kb _ s₈ o₈
                        (λ s₉ o₉ e. finished-Installed kb o₉ s₉ e)))))))))
        h

-- The verdict on the five answers, in the order of the source's checks.
pub verdict : ℕ → ℕ → ℕ → ℕ → ℕ → Result String (Unit {0})
verdict a b c d e =
    if a == ack
    then if b == self_test_passed
      then if c == ack
        then if d == ack
          then if e == ack then ok tt else err "Enable scanning failed"
          else err "Scancode set selection failed"
        else err "Scancode set command failed"
      else err "Keyboard self-test failed"
    else err "Keyboard reset failed"

-- From a controller that answers with five bytes, `keyboard::init` needs one poll for each access and
-- returns the verdict on them; it succeeds just if all five are as expected.
pub keyboard_init-verdict :
    (a b c d e : ℕ) (kb : Option KeyboardDriver)
    → (keyboard_init dialog 1 kb (record { answers = a ∷ b ∷ c ∷ d ∷ e ∷ []; sent = [] }) >>= λ o.
        some o.0)
      ≡ some (verdict a b c d e)
unfolding keyboard_init expect write_then verdict read_data write_data wait_output_buffer_full
    wait_input_buffer_empty
keyboard_init-verdict a b c d e kb = ground arith
