-- ===== src/Ps2/Controller.antt =====
-- kernel/src/ps2.rs, `Ps2Controller`: polling the status port before each access of the data port.
-- The ports of the crate `x86_64` are a parameter. The polling loops of the source have no bound; here
-- they have fuel, and `none` says that it has run out.
pub mod Dialog
use locos.Prelude.{ℕ, zero, suc, bit_and, ◌==◌, Bool, true, false, not, Option, none, some, ◌>>=◌}

-- `status_bits::OUTPUT_BUFFER_FULL`
abbrev pub output_full : ℕ
output_full = 0x01

-- `status_bits::INPUT_BUFFER_FULL`
abbrev pub input_full : ℕ
input_full = 0x02

-- `Port::read` and `Port::write` of the two ports, 0x60 and 0x64.
pub record Ports : Type 1 where
  pub State : Type 0
  pub read_command_port : State → ℕ × State
  pub read_data_port : State → ℕ × State
  pub write_command_port : ℕ → State → State
  pub write_data_port : ℕ → State → State

module _ (ports : Ports) where
  open ports use {State, read_command_port, read_data_port, write_command_port, write_data_port}

  -- `Ps2Controller::output_buffer_full`
  abbrev pub output_buffer_full : State → Bool × State
  output_buffer_full st = let s = read_command_port st in (not (bit_and s.0 output_full == 0), s.1)

  -- `Ps2Controller::input_buffer_full`
  abbrev pub input_buffer_full : State → Bool × State
  input_buffer_full st = let s = read_command_port st in (not (bit_and s.0 input_full == 0), s.1)

  -- `Ps2Controller::wait_input_buffer_empty`
  unfoldable pub wait_input_buffer_empty : ℕ → State → Option State
  wait_input_buffer_empty zero st = none
  wait_input_buffer_empty (suc fuel) st =
      let s = input_buffer_full st in
      elim s.0 [ true ↦ wait_input_buffer_empty fuel s.1 | false ↦ some s.1 ]

  -- `Ps2Controller::wait_output_buffer_full`
  unfoldable pub wait_output_buffer_full : ℕ → State → Option State
  wait_output_buffer_full zero st = none
  wait_output_buffer_full (suc fuel) st =
      let s = output_buffer_full st in
      elim s.0 [ true ↦ some s.1 | false ↦ wait_output_buffer_full fuel s.1 ]

  -- `Ps2Controller::read_data`
  unfoldable pub read_data : ℕ → State → Option (ℕ × State)
  unfolding wait_output_buffer_full
  read_data fuel st = do st₁ ← wait_output_buffer_full fuel st; some (read_data_port st₁)

  -- `Ps2Controller::write_data`
  unfoldable pub write_data : ℕ → ℕ → State → Option State
  unfolding wait_input_buffer_empty
  write_data fuel data_byte st = do
    st₁ ← wait_input_buffer_empty fuel st
    some (write_data_port data_byte st₁)

  -- `Ps2Controller::send_command`
  unfoldable pub send_command : ℕ → ℕ → State → Option State
  unfolding wait_input_buffer_empty
  send_command fuel command st = do
    st₁ ← wait_input_buffer_empty fuel st
    some (write_command_port command st₁)

  -- `Ps2Controller::send_command_with_response`
  unfoldable pub send_command_with_response : ℕ → ℕ → State → Option (ℕ × State)
  unfolding send_command read_data
  send_command_with_response fuel command st = do
    st₁ ← send_command fuel command st
    read_data fuel st₁
