-- ===== src/MasterPort/Edges.antt =====
-- The waits of the bit-order probe for the edges of the clock (src/hal/pio_port.cpp): they end, and
-- their calls of the SDK.
use mathlib.Core.List.{append_assoc, append-nil}
use pico_sg2hid.Common.{
  ℕ, zero, suc, ◌+◌, ◌*◌, ◌/◌, ◌%◌, ◌≤◌, ◌<◌, ◌≡◌, subst, refl, sym, ap, ◌∙◌, inl, inr, Bool, true,
  false, Bool-cases, Option-cases, Option, none, some, List, [], ◌∷◌, ◌++◌, arith, u32_mod,
  if◌then◌else◌,
}
use pico_sg2hid.Pins.{cmd}
use pico_sg2hid.MasterPort.{
  MasterSdk, probe_bit, probe_bits, clk_reaches, rx_within, probe_budget_us, master_gpio,
}
use pico_sg2hid.MasterPort.Clock.{
  Clock, has_level, has_received, rx_within-Ended, clk_reaches-Ended,
}
use pico_sg2hid.MasterPort.Calls.{
  Call, level, recording, recorded_clock, Polls, rx_asked, Asked-Polls,
}
use pico_sg2hid.MasterPort.Byte.{rx_asked-noted}
use pico_sg2hid.MasterPort.Levels.{
  clk_asked, clk_asked-noted, Bit, no_low, no_high, bit_read, Bits, all_read, stopped,
  stopped_later, one_more,
}

module _ {S : Type 0} (sdk : MasterSdk S) (now_ns : S → ℕ) (clock : Clock sdk now_ns)
    (begin fuel : ℕ) where
  abbrev pub start : ℕ
  start = begin / 1000 % u32_mod

  -- The time and the fuel of a wait of the probe that began at `begin`, which may take this long.
  pub record Timely (top : ℕ) (s : S) : Type 0 where
    pub after_budget : begin + (1000001 * 1000) ≤ top
    pub few : top < begin + 900000000000
    pub begun : begin ≤ now_ns s
    pub early : now_ns s ≤ top
    pub enough : begin + (1000001 * 1000) < now_ns s + fuel
    pub some_fuel : 0 < fuel

  pub Timely-later :
      {top later : ℕ} {s s' : S}
      → Timely top s
      → now_ns s ≤ now_ns s'
      → now_ns s' ≤ later
      → top ≤ later
      → later < begin + 900000000000
      → Timely later s'
  Timely-later t a b c d = record {
    after_budget = omega (arith, t.after_budget);
    few = d;
    begun = omega (arith, t.begun);
    early = b;
    enough = omega (arith, t.enough);
    some_fuel = t.some_fuel;
  }

  -- A part of the probe ends with its calls behind the log, not before it began and not after `top`.
  abbrev pub Settles :
      {A : Type 0}
      → ℕ
      → S
      → List Call
      → Option (A × (S × List Call))
      → (List Call → A → Type 0)
      → Type 0
  Settles {A = A} top s log outcome P =
      (a : A) × (s' : S) × (more : List Call) × (outcome ≡ some (a, (s', log ++ more)))
      × (now_ns s ≤ now_ns s')
      × (now_ns s' ≤ top)
      × P more a

  module _ (top : ℕ) (s : S) (log : List Call) (t : Timely top s) where
    clk_reaches-Settles :
        (is_high : Bool)
        → Settles
            (top + 2000000000)
            s
            log
            (clk_reaches (recording sdk) fuel is_high start (s, log))
            (Polls (clk_asked is_high) start probe_budget_us)
    clk_reaches-Settles is_high =
        let l = clock.lag_bound in
        let (d, (s', log'), o, a, n, u, w) =
          clk_reaches-Ended (recording sdk) (λ (s, log). now_ns s) (recorded_clock sdk now_ns clock)
            begin top fuel (s, log) is_high t.after_budget (omega (arith, t.few)) t.begun t.early
            t.enough t.some_fuel in
        let (more, is_log, p) =
          Asked-Polls sdk (has_level (recording sdk) is_high) (clk_asked is_high)
            (clk_asked-noted sdk is_high) start probe_budget_us a in
        (d, s', more, o ∙ ap (λ l. some (d, (s', l))) is_log, n, omega arith, p)

    pub rx_within-Settles :
        Settles
          (top + 2000000000)
          s
          log
          (rx_within (recording sdk) fuel start probe_budget_us (s, log))
          (Polls rx_asked start probe_budget_us)
    rx_within-Settles =
        let l = clock.lag_bound in
        let (d, (s', log'), o, a, n, u, w) =
          rx_within-Ended (recording sdk) (λ (s, log). now_ns s) (recorded_clock sdk now_ns clock)
            begin top fuel (s, log) probe_budget_us t.after_budget (omega (arith, t.few)) t.begun
            t.early t.enough t.some_fuel in
        let (more, is_log, p) =
          Asked-Polls sdk (has_received (recording sdk)) rx_asked (rx_asked-noted sdk) start
            probe_budget_us a in
        (d, s', more, o ∙ ap (λ l. some (d, (s', l))) is_log, n, omega arith, p)

  module _ (top : ℕ) (s : S) (log : List Call) (t : Timely top s) where
    probe_bit-Settles :
        top + 5000000000 < begin + 900000000000
        → Settles
            (top + 5000000000)
            s
            log
            (probe_bit (recording sdk) fuel start (s, log))
            (Bit start)
    unfolding probe_bit
    probe_bit-Settles few =
        let l = clock.lag_bound in
        let (low, s₁, calls₁, o₁, n₁, u₁, p₁) = clk_reaches-Settles top s log t false in
        let reached = λ (is_high : Bool) (calls : List Call).
          Polls (clk_asked is_high) start probe_budget_us calls in
        elim (Bool-cases low) [
          | inr is_no ↦ (
            none,
            s₁,
            calls₁,
            rw (o₁, is_no, probe_bit) refl,
            n₁,
            omega arith,
            no_low (subst (reached false calls₁) is_no p₁),
          )
          | inl yes₁ ↦
              let t₁ = Timely-later t n₁ u₁ (omega arith) (omega arith) in
              let (high, s₂, calls₂, o₂, n₂, u₂, p₂) =
                clk_reaches-Settles (top + 2000000000) s₁ (log ++ calls₁) t₁ true in
              let q₁ = subst (reached false calls₁) yes₁ p₁ in
              elim (Bool-cases high) [
                | inr is_no ↦ (
                  none,
                  s₂,
                  calls₁ ++ calls₂,
                  rw (o₁, yes₁, o₂, is_no, probe_bit)
                      (ap (λ l. some (none, (s₂, l))) (append_assoc log calls₁ calls₂)),
                  omega arith,
                  omega arith,
                  no_high q₁ (subst (reached true calls₂) is_no p₂),
                )
                | inl yes₂ ↦
                    let (is_set, s₃) = sdk.gpio_get (master_gpio cmd) s₂ in
                    let (p, p') = clock.gpio_get (master_gpio cmd) s₂ in
                    let read = level (master_gpio cmd) is_set ∷ [] in
                    (
                      some (if is_set then 1 else 0),
                      s₃,
                      calls₁ ++ (calls₂ ++ read),
                      rw (o₁, yes₁, o₂, yes₂, probe_bit)
                          (ap (λ l. some (some (if is_set then 1 else 0), (s₃, l)))
                            (append_assoc (log ++ calls₁) calls₂ read
                              ∙ append_assoc log calls₁ (calls₂ ++ read))),
                      omega arith,
                      omega arith,
                      bit_read is_set q₁ (subst (reached true calls₂) yes₂ p₂),
                    )
              ]
        ]

  pub probe_bits-Settles :
      (n top : ℕ) (s : S) (log : List Call)
      → Timely top s
      → top + (n * 5000000000) < begin + 900000000000
      → Settles
          (top + (n * 5000000000))
          s
          log
          (probe_bits (recording sdk) fuel n start (s, log))
          (Bits start n)
  unfolding probe_bits
  probe_bits-Settles zero top s log t few = (
    some [],
    s,
    [],
    ap (λ l. some (some [], (s, l))) (sym (append-nil log)),
    omega arith,
    omega (arith, t.early),
    all_read,
  )
  probe_bits-Settles (suc n) top s log t few =
      let (bit, s₁, calls₁, o₁, n₁, u₁, p₁) = probe_bit-Settles top s log t (omega arith) in
      elim (Option-cases bit) [
        | inl is_none ↦ (
          none,
          s₁,
          calls₁,
          rw (o₁, is_none, probe_bits) refl,
          n₁,
          omega arith,
          stopped (subst (Bit start calls₁) is_none p₁),
        )
        | inr (read, is_read) ↦
            let t₁ = Timely-later t n₁ u₁ (omega arith) (omega arith) in
            let (bits, s₂, calls₂, o₂, n₂, u₂, p₂) =
              probe_bits-Settles n (top + 5000000000) s₁ (log ++ calls₁) t₁ (omega arith) in
            let first = subst (Bit start calls₁) is_read p₁ in
            let joins = append_assoc log calls₁ calls₂ in
            elim (Option-cases bits) [
              | inl is_none ↦ (
                none,
                s₂,
                calls₁ ++ calls₂,
                rw (o₁, is_read, o₂, is_none, probe_bits) (ap (λ l. some (none, (s₂, l))) joins),
                omega arith,
                omega arith,
                stopped_later first (subst (Bits start n calls₂) is_none p₂),
              )
              | inr (rest, is_rest) ↦ (
                some (read ∷ rest),
                s₂,
                calls₁ ++ calls₂,
                rw (o₁, is_read, o₂, is_rest, probe_bits)
                    (ap (λ l. some (some (read ∷ rest), (s₂, l))) joins),
                omega arith,
                omega arith,
                one_more first (subst (Bits start n calls₂) is_rest p₂),
              )
            ]
      ]
