-- ===== src/MasterPort/Ends.antt =====
-- The exchange of one byte (src/hal/pio_port.cpp) gets through its wait.
use pico_sg2hid.Common.{ℕ, ◌+◌, ◌*◌, ◌<◌, ◌≡◌, refl, ap, ◌∙◌, Bool, some, arith}
use pico_sg2hid.Bus.{ByteExchange}
use pico_sg2hid.MasterPort.{
  MasterSdk, exchange_byte, finish_byte, rx_within, tx_word, byte_budget_us,
}
use pico_sg2hid.MasterPort.Clock.{Clock, Within, rx_within-Ended}

module _ {S : Type 0} (sdk : MasterSdk S) (now_ns : S → ℕ) (clock : Clock sdk now_ns) where
  -- The exchange gets through its wait; what is behind it is `finish_byte`.
  pub exchange_byte-finish_byte :
      (fuel out : ℕ) (should_wait_ack : Bool) (s : S)
      → 133000 < fuel
      → let (irq, s₁) = sdk.disable_interrupts s in
        let (start, s₂) = sdk.time_us s₁ in
        (is_complete : Bool) × (s' : S) × (exchange_byte sdk fuel out should_wait_ack s
          ≡ some (finish_byte sdk irq start is_complete s'))
        × Within (133000 + (3 * clock.lag)) (now_ns s₂) (now_ns s')
  unfolding exchange_byte
  exchange_byte-finish_byte fuel out should_wait_ack s f =
      let s₁ = (sdk.disable_interrupts s).1 in
      let s₂ = (sdk.time_us s₁).1 in
      let begin = now_ns s₂ in
      let s₃ = sdk.sm_put (tx_word out should_wait_ack) s₂ in
      let (p, p') = clock.sm_put (tx_word out should_wait_ack) s₂ in
      let l = clock.lag_bound in
      let (d, s₄, o, _, n, u, _) =
        rx_within-Ended sdk now_ns clock begin (begin + 133000 + clock.lag) fuel s₃ byte_budget_us
          (omega arith) (omega arith) (omega arith) (omega arith) (omega arith) (omega arith) in
      let o' = ap (λ now. rx_within sdk fuel now byte_budget_us s₃) (clock.reported s₁) ∙ o in
      (d, s₄, rw (o', exchange_byte) refl, omega arith)

  pub exchange_byte-ends :
      (fuel out : ℕ) (should_wait_ack : Bool) (s : S)
      → 133000 < fuel
      → (exchange : ByteExchange) × (s' : S) × (exchange_byte sdk fuel out should_wait_ack s
          ≡ some (exchange, s'))
  exchange_byte-ends fuel out should_wait_ack s f =
      let (d, s', o, _) = exchange_byte-finish_byte fuel out should_wait_ack s f in
      let (exchange, s'') = finish_byte sdk _ _ d s' in (exchange, s'', o)
