-- ===== src/Ps2/Init.antt =====
-- kernel/src/ps2.rs `init`, and kernel/src/ps2/keyboard.rs `init`: the commands to the controller and
-- to the keyboard, and the checks of their answers.
pub mod Answers
mod Tests
use Prim.Native.String.{String}
use locos.Prelude.{
  ℕ, zero, suc, ◌==◌, Bool, true, false, bit_and, bit_or, Option, none, some, ◌>>=◌, Result, ok,
  err, if◌then◌else◌,
}
use locos.Ps2.Controller.{
  Ports, read_data, write_data, send_command, send_command_with_response, output_buffer_full,
}
use locos.Ps2.Keyboard.{KeyboardDriver, new}

-- `responses::ACK`
abbrev pub ack : ℕ
ack = 0xFA

-- `responses::SELF_TEST_PASSED`
abbrev pub self_test_passed : ℕ
self_test_passed = 0xAA

module _ (ports : Ports) (fuel : ℕ) where
  open ports use {State}

  -- What an initialization returns, with `KEYBOARD` and the ports after it.
  abbrev pub Outcome : Type 0
  Outcome = Result String (Unit {0}) × Option KeyboardDriver × State

  -- `let r = controller.read_data(); if r != expected { return Err(message) }`
  pub expect :
      ℕ → String → Option KeyboardDriver → (State → Option Outcome) → State → Option Outcome
  expect expected message kb more st = do
    r ← read_data ports fuel st
    elim (r.0 == expected) [ true ↦ more r.1 | false ↦ some (err message, kb, r.1) ]

  -- `controller.write_data(b)`, then the rest.
  pub write_then : ℕ → (State → Option Outcome) → State → Option Outcome
  write_then b more st = write_data ports fuel b st >>= more

  -- `keyboard::init`
  pub keyboard_init : Option KeyboardDriver → State → Option Outcome
  unfolding expect write_then
  keyboard_init kb st =
      write_then 0xFF
        (λ s₁.
          expect ack "Keyboard reset failed" kb
            (λ s₂.
              expect self_test_passed "Keyboard self-test failed" kb
                (λ s₃.
                  write_then 0xF0
                    (λ s₄.
                      expect ack "Scancode set command failed" kb
                        (λ s₅.
                          write_then 0x01
                            (λ s₆.
                              expect ack "Scancode set selection failed" kb
                                (λ s₇.
                                  write_then 0xF4
                                    (λ s₈.
                                      expect ack "Enable scanning failed" kb
                                        (λ s₉. some (ok tt, some new, s₉)) s₈)
                                    s₇)
                                s₆)
                            s₅)
                        s₄)
                    s₃)
                s₂)
            s₁)
        st

  -- `while controller.output_buffer_full() { let _ = controller.read_data(); }`
  pub drain : ℕ → State → Option State
  drain zero st = none
  drain (suc k) st =
      let s = output_buffer_full ports st in
      elim s.0 [ true ↦ do r ← read_data ports fuel s.1; drain k r.1 | false ↦ some s.1 ]

  -- The end of `init`, from the outcome of `keyboard::init`.
  pub enable_interrupts : Outcome → Option Outcome
  enable_interrupts (err e, kb, st) = some (err e, kb, st)
  enable_interrupts (ok u, kb, st) = do
    config ← send_command_with_response ports fuel 0x20 st
    st₁ ← send_command ports fuel 0x60 config.1
    st₂ ← write_data ports fuel (bit_or config.0 0x01) st₁
    final_config ← send_command_with_response ports fuel 0x20 st₂
    some (ok tt, kb, final_config.1)

  -- `init` from the answer of the keyboard port's test on.
  pub after_tests : Option KeyboardDriver → ℕ × State → Option Outcome
  unfolding enable_interrupts keyboard_init
  after_tests kb (port_test, st) = elim (port_test == 0) [
    | false ↦ some (err "PS/2 keyboard port test failed", kb, st)
    | true ↦ do
      st₁ ← send_command ports fuel 0xAE st
      done ← keyboard_init kb st₁
      enable_interrupts done
  ]

  -- `init` from the answer of the controller's self-test on.
  pub after_self_test : Option KeyboardDriver → ℕ × State → Option Outcome
  unfolding after_tests
  after_self_test kb (test_result, st) = elim (test_result == 0x55) [
    | false ↦ some (err "PS/2 controller self-test failed", kb, st)
    | true ↦ do port_test ← send_command_with_response ports fuel 0xAB st; after_tests kb port_test
  ]

  -- `init`; the configuration loses the two interrupt bits and the translation bit.
  pub init : Option KeyboardDriver → State → Option Outcome
  unfolding drain after_self_test
  init kb st = do
    st₁ ← send_command ports fuel 0xAD st
    st₂ ← send_command ports fuel 0xA7 st₁
    st₃ ← drain fuel st₂
    config ← send_command_with_response ports fuel 0x20 st₃
    st₄ ← send_command ports fuel 0x60 config.1
    st₅ ← write_data ports fuel (bit_and config.0 0xBC) st₄
    test_result ← send_command_with_response ports fuel 0xAA st₅
    after_self_test kb test_result
