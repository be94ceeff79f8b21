-- ===== src/MasterPort.antt =====
-- The master's side of the bus on a PIO state machine (src/hal/pio_port.cpp). The Pico SDK's calls
-- are a parameter: a record of operations on the hardware's state `S`. The state machine and the
-- program's offset, which `bus_init` chooses once, are left out of their arguments. A loop that waits
-- for the hardware takes fuel, and gives `none` when that runs out.
pub mod Clock
pub mod Calls
pub mod Byte
pub mod Ends
pub mod Levels
pub mod Edges
pub mod Probe
pub mod Frames
pub mod Deadline
pub mod Setup
pub mod Idle
pub mod Quiet
use Prim.Native.Nat.{bit_or}
use pico_sg2hid.Common.{
  ℕ, zero, suc, ◌+◌, ◌-◌, ◌*◌, ◌/◌, ◌%◌, ◌^◌, Bool, true, false, not, ◌&&◌, Option, none, some,
  List, [], ◌∷◌, ◌++◌, ltb, ◌==◌, if◌then◌else◌, u8, u32_sub,
}
use pico_sg2hid.Protocol.{wire_bits_per_byte, bus_clock_hz, ack_timeout_us}
use pico_sg2hid.Pins.{Signal, att, clk, cmd, master_pins, gpio_of}
use pico_sg2hid.Bus.{ByteExchange}

-- The two values the clock divider takes: the one of the bus, and `kSlowestDivInt`.
pub data Divider : Type 0 where
  bus_div slowest : Divider

pub record MasterSdk (S : Type 0) : Type 0 where
  pub time_us : S → ℕ × S
  pub disable_interrupts : S → ℕ × S
  pub restore_interrupts : ℕ → S → S
  pub rx_is_empty : S → Bool × S
  pub sm_get : S → ℕ × S
  pub sm_put : ℕ → S → S
  pub sm_set_enabled : Bool → S → S
  pub sm_clear_fifos : S → S
  pub sm_restart : S → S
  pub sm_jump_to_start : S → S
  pub set_clkdiv : Divider → S → S
  pub clkdiv_restart : S → S
  pub gpio_get : ℕ → S → Bool × S
  pub gpio_put : ℕ → Bool → S → S
  pub busy_wait_us : ℕ → S → S

abbrev pub us_per_second : ℕ
us_per_second = 1000000

abbrev pub shift_bits : ℕ
shift_bits = 32

abbrev pub rx_byte_shift : ℕ
rx_byte_shift = shift_bits - wire_bits_per_byte

abbrev pub wait_ack_flag : ℕ
wait_ack_flag = 2 ^ wire_bits_per_byte

abbrev pub probe_budget_us : ℕ
probe_budget_us = us_per_second

abbrev pub byte_budget_us : ℕ
byte_budget_us = wire_bits_per_byte * us_per_second / bus_clock_hz + ack_timeout_us

-- `gpio_of( signal )`; the build fails where the table lacks the signal.
abbrev pub master_gpio : Signal → ℕ
master_gpio signal = elim (gpio_of signal master_pins) [ none ↦ 0 | some gpio ↦ gpio ]

-- The word for a byte: the byte, and whether it waits for ACK.
abbrev pub tx_word : ℕ → Bool → ℕ
tx_word out should_wait_ack = bit_or out (if should_wait_ack then wait_ack_flag else 0)

module _ {S : Type 0} (sdk : MasterSdk S) where
  unfoldable pub rx_within : ℕ → ℕ → ℕ → S → Option (Bool × S)
  rx_within zero start budget_us s = none
  rx_within (suc fuel) start budget_us s =
      let (is_empty, s₁) = sdk.rx_is_empty s in
      elim is_empty [
        | false ↦ some (true, s₁)
        | true ↦
            (let (now, s₂) = sdk.time_us s₁ in
              elim (ltb budget_us (u32_sub now start)) [
                | true ↦ some (false, s₂)
                | false ↦ rx_within fuel start budget_us s₂
              ])
      ]

  unfoldable pub recover : S → S
  recover s =
      sdk.sm_set_enabled true
        (sdk.sm_jump_to_start (sdk.sm_restart (sdk.sm_clear_fifos (sdk.sm_set_enabled false s))))

  unfoldable pub clk_reaches : ℕ → Bool → ℕ → S → Option (Bool × S)
  clk_reaches zero is_high start s = none
  clk_reaches (suc fuel) is_high start s =
      let (level, s₁) = sdk.gpio_get (master_gpio clk) s in
      elim (if is_high then level else not level) [
        | true ↦ some (true, s₁)
        | false ↦
            (let (now, s₂) = sdk.time_us s₁ in
              elim (ltb probe_budget_us (u32_sub now start)) [
                | true ↦ some (false, s₂)
                | false ↦ clk_reaches fuel is_high start s₂
              ])
      ]

  unfoldable pub set_divider : Divider → S → S
  set_divider div s = sdk.clkdiv_restart (sdk.set_clkdiv div s)

  unfoldable pub att_assert : S → S
  att_assert s = sdk.gpio_put (master_gpio att) false s

  unfoldable pub att_release : S → S
  att_release s = sdk.gpio_put (master_gpio att) true s

  unfoldable pub bus_wait_us : ℕ → S → S
  bus_wait_us us s = sdk.busy_wait_us us s

  -- `exchange_byte` behind the wait for the RX FIFO.
  unfoldable pub finish_byte : ℕ → ℕ → Bool → S → ByteExchange × S
  finish_byte irq_state start is_complete s =
      let (now, s₁) = sdk.time_us s in
      let elapsed_us = u32_sub now start in
      let s₂ = sdk.restore_interrupts irq_state s₁ in
      elim is_complete [
        | false ↦ (record { in_byte = none; elapsed_us = elapsed_us }, recover s₂)
        | true ↦
            (let (word, s₃) = sdk.sm_get s₂ in
              (
                record { in_byte = some (u8 (word / 2 ^ rx_byte_shift)); elapsed_us = elapsed_us },
                s₃,
              ))
      ]

  unfoldable pub exchange_byte : ℕ → ℕ → Bool → S → Option (ByteExchange × S)
  exchange_byte fuel out should_wait_ack s =
      let (irq_state, s₁) = sdk.disable_interrupts s in
      let (start, s₂) = sdk.time_us s₁ in
      elim (rx_within fuel start byte_budget_us (sdk.sm_put (tx_word out should_wait_ack) s₂)) [
        | none ↦ none
        | some (is_complete, s₃) ↦ some (finish_byte irq_state start is_complete s₃)
      ]

  -- A round of the probe's loop: whether both edges came, and the level of CMD behind them.
  unfoldable pub probe_bit : ℕ → ℕ → S → Option (Option ℕ × S)
  probe_bit fuel start s = elim (clk_reaches fuel false start s) [
    | none ↦ none
    | some (false, s₁) ↦ some (none, s₁)
    | some (true, s₁) ↦ elim (clk_reaches fuel true start s₁) [
      | none ↦ none
      | some (false, s₂) ↦ some (none, s₂)
      | some (true, s₂) ↦
          (let (level, s₃) = sdk.gpio_get (master_gpio cmd) s₂ in
            some (some (if level then 1 else 0), s₃))
    ]
  ]

  -- The loop over the bits, by the bits left: the bits, or nothing where an edge did not come.
  unfoldable pub probe_bits : ℕ → ℕ → ℕ → S → Option (Option (List ℕ) × S)
  probe_bits fuel zero start s = some (some [], s)
  probe_bits fuel (suc n) start s = elim (probe_bit fuel start s) [
    | none ↦ none
    | some (none, s₁) ↦ some (none, s₁)
    | some (some bit, s₁) ↦ elim (probe_bits fuel n start s₁) [
      | none ↦ none
      | some (none, s₂) ↦ some (none, s₂)
      | some (some bits, s₂) ↦ some (some (bit ∷ bits), s₂)
    ]
  ]

  -- The probe behind its loop: the divider is put back on every way.
  unfoldable pub finish_probe : ℕ → ℕ → Option (List ℕ) → S → Option (Option (List ℕ) × S)
  finish_probe fuel start none s = some (none, set_divider bus_div (recover s))
  finish_probe fuel start (some bits) s = elim (rx_within fuel start probe_budget_us s) [
    | none ↦ none
    | some (false, s₁) ↦ some (none, set_divider bus_div (recover s₁))
    | some (true, s₁) ↦ some (some bits, set_divider bus_div (sdk.sm_get s₁).1)
  ]

  unfoldable pub probe_wire_bits : ℕ → ℕ → S → Option (Option (List ℕ) × S)
  probe_wire_bits fuel byte s =
      let (start, s₁) = sdk.time_us (set_divider slowest s) in
      elim (probe_bits fuel wire_bits_per_byte start (sdk.sm_put byte s₁)) [
        | none ↦ none
        | some (bits, s₂) ↦ finish_probe fuel start bits s₂
      ]
