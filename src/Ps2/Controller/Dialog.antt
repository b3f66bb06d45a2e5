-- ===== src/Ps2/Controller/Dialog.antt =====
-- A controller that answers from a list of bytes and is always ready for one, with the bytes that it
-- was sent, the last first.
use locos.Prelude.{ℕ, ◌≡◌, refl, some, List, [], ◌∷◌}
use locos.Ps2.Controller.{
  Ports, wait_input_buffer_empty, wait_output_buffer_full, read_data, write_data,
}

pub record Dialog : Type 0 where
  pub answers : List ℕ
  pub sent : List ℕ

abbrev next_answer : List ℕ → List ℕ → ℕ × Dialog
next_answer [] sent = (0, record { answers = []; sent = sent })
next_answer (b ∷ rest) sent = (b, record { answers = rest; sent = sent })

abbrev answer_status : List ℕ → ℕ
answer_status [] = 0
answer_status (b ∷ rest) = 1

abbrev pub dialog : Ports
dialog = record {
  State = Dialog;
  read_command_port = λ st. (answer_status st.answers, st);
  read_data_port = λ st. next_answer st.answers st.sent;
  write_command_port = λ b st. record st { sent = b ∷ st.sent };
  write_data_port = λ b st. record st { sent = b ∷ st.sent };
}

-- With one poll, an answer is read and a byte is sent.
pub read_data-dialog :
    (b : ℕ) (rest sent : List ℕ)
    → read_data dialog 1 (record { answers = b ∷ rest; sent = sent })
      ≡ some (b, record { answers = rest; sent = sent })
unfolding read_data wait_output_buffer_full
read_data-dialog b rest sent = refl

pub write_data-dialog :
    (b c : ℕ) (rest sent : List ℕ)
    → write_data dialog 1 b (record { answers = c ∷ rest; sent = sent })
      ≡ some (record { answers = c ∷ rest; sent = b ∷ sent })
unfolding write_data wait_input_buffer_empty
write_data-dialog b c rest sent = refl
