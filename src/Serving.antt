-- ===== src/Serving.antt =====
-- The emulator firmware (src/emu/main.cpp): a frame served byte by byte, the serial line reader, and
-- a round of the loop. The port of src/hal/device_port.h drives hardware: it is a parameter, with
-- the clock and the serial port that the loop also reads. A loop that waits for the hardware takes
-- fuel, and gives `none` when that runs out.
pub mod Calls
pub mod Runs
pub mod Line
pub mod Rounds
use pico_sg2hid.Common.{
  ℕ, zero, suc, ◌+◌, Bool, true, false, not, ◌&&◌, Option, none, some, List, ltb, ◌==◌,
  if◌then◌else◌, u32_sub, length, set, take, replicate,
}
use pico_sg2hid.Command.{newline, drop_return}
use pico_sg2hid.Emulator.{SgModel, ByteAnswer, reset, step, max_line_len}
use pico_sg2hid.Emulator.Commands.{Refusal, Parsed, parsed, refused, apply}

pub record DevicePort (S : Type 0) : Type 0 where
  pub restart : S → S
  pub take_byte : S → Option ℕ × S
  pub answer : ℕ → Bool → S → S
  pub att_is_high : S → Bool × S
  pub time_us : S → ℕ × S
  pub get_char : S → Option ℕ × S

abbrev pub line_buffer_size : ℕ
line_buffer_size = max_line_len + 2

pub record LineReader : Type 0 where
  pub text : List ℕ
  pub len : ℕ

-- `LineReader reader{}`.
abbrev pub new_reader : LineReader
new_reader = record { text = replicate line_buffer_size 0; len = 0 }

-- The line that is printed behind a command: `ok:` with the line, or `error:` with the reason.
pub data Reply : Type 0 where
  ok : List ℕ → Reply
  error : Refusal → Reply

-- The model that a finished line leaves, and the reply.
unfoldable pub finish_line : SgModel → List ℕ → SgModel × Reply
finish_line model line = elim (apply model line) [
  | parsed model' ↦ (model', ok (drop_return line))
  | refused reason ↦ (model, error reason)
]

-- One character of the serial port.
unfoldable pub take_char : ℕ → LineReader → SgModel → LineReader × SgModel × Option Reply
take_char c reader model =
    if not (c == newline)
    then (if ltb reader.len line_buffer_size
        then (record { text = set reader.text reader.len c; len = reader.len + 1 }, model, none)
        else (reader, model, none))
    else (let (model', reply) = finish_line model (take reader.len reader.text) in
        (record reader { len = 0 }, model', some reply))

module _ {S : Type 0} (port : DevicePort S) where
  unfoldable pub poll_command : LineReader → SgModel → S → LineReader × SgModel × Option Reply × S
  poll_command reader model s =
      let (c, s') = port.get_char s in
      elim c [
        | none ↦ (reader, model, none, s')
        | some c ↦
            let (reader', model', reply) = take_char c reader model in (reader', model', reply, s')
      ]

  -- The `while` loop of `wait_unless_deselected`: whether the time passed before ATT rose.
  unfoldable pub wait_loop : ℕ → ℕ → ℕ → S → Option (Bool × S)
  wait_loop zero start delay_us s = none
  wait_loop (suc fuel) start delay_us s =
      let (now, s') = port.time_us s in
      elim (ltb (u32_sub now start) delay_us) [
        | false ↦ some (true, s')
        | true ↦
            (let (is_high, s'') = port.att_is_high s' in
              elim is_high [ true ↦ some (false, s'') | false ↦ wait_loop fuel start delay_us s'' ])
      ]

  unfoldable pub wait_unless_deselected : ℕ → ℕ → S → Option (Bool × S)
  wait_unless_deselected fuel delay_us s =
      let (start, s') = port.time_us s in wait_loop fuel start delay_us s'

  -- `should_ack && !wait_unless_deselected( … )`, negated: whether the answer is handed over.
  unfoldable pub may_answer : ℕ → ByteAnswer → S → Option (Bool × S)
  may_answer fuel answer s = elim answer.should_ack [
    | false ↦ some (true, s)
    | true ↦ wait_unless_deselected fuel answer.ack_delay_us s
  ]

  -- The `while` loop of `serve_frame`.
  unfoldable pub serve_loop : ℕ → SgModel → S → Option (SgModel × S)
  serve_loop zero model s = none
  serve_loop (suc fuel) model s =
      let (is_high, s₁) = port.att_is_high s in
      elim is_high [
        | true ↦ some (model, s₁)
        | false ↦
            (let (received, s₂) = port.take_byte s₁ in
              elim received [
                | none ↦ serve_loop fuel model s₂
                | some byte ↦
                    (let (answer, model') = step model byte in
                      elim (may_answer fuel answer s₂) [
                        | none ↦ none
                        | some (false, s₃) ↦ some (model', s₃)
                        | some (true, s₃) ↦
                            serve_loop fuel model' (port.answer answer.next answer.should_ack s₃)
                      ])
              ])
      ]

  unfoldable pub serve_frame : ℕ → SgModel → S → Option (SgModel × S)
  serve_frame fuel model s = serve_loop fuel (reset model) s

  -- The variables of `main`, with the hardware.
  pub record Device : Type 0 where
    pub reader : LineReader
    pub model : SgModel
    pub port_state : S

  -- A byte that completed while ATT is high is dropped and the state machine re-armed.
  unfoldable pub drop_stray : S → S
  drop_stray s =
      let (received, s') = port.take_byte s in
      elim received [ none ↦ s' | some byte ↦ port.restart s' ]

  -- The inner `while` loop of `main`: commands while ATT is high.
  unfoldable pub idle_loop : ℕ → Device → Option Device
  idle_loop zero device = none
  idle_loop (suc fuel) device =
      let (is_high, s₁) = port.att_is_high device.port_state in
      elim is_high [
        | false ↦ some (record device { port_state = s₁ })
        | true ↦
            (let (reader, model, reply, s₂) = poll_command device.reader device.model s₁ in
              idle_loop fuel
                (record { reader = reader; model = model; port_state = drop_stray s₂ }))
      ]

  -- One round of the outer loop.
  unfoldable pub round : ℕ → Device → Option Device
  round fuel device =
      elim (idle_loop fuel (record device { port_state = port.restart device.port_state })) [
        | none ↦ none
        | some selected ↦ elim (serve_frame fuel selected.model selected.port_state) [
          | none ↦ none
          | some (model, s) ↦ some (record selected { model = model; port_state = s })
        ]
      ]
