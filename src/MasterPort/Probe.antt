-- ===== src/MasterPort/Probe.antt =====
-- The bit-order probe of the master's bus (src/hal/pio_port.cpp): it ends, and its calls of the SDK.
use mathlib.Core.List.{append_assoc}
use pico_sg2hid.Common.{
  ℕ, ◌+◌, ◌/◌, ◌%◌, ◌<◌, ◌≡◌, ◌⊎◌, refl, subst, ap, ◌∙◌, inl, inr, Bool, true, false, Bool-cases,
  Option, Option-cases, none, some, List, [], ◌∷◌, ◌++◌, arith, length, u32_mod,
}
use pico_sg2hid.MasterPort.{
  MasterSdk, bus_div, slowest, probe_budget_us, probe_bits, finish_probe, probe_wire_bits, recover,
  set_divider,
}
use pico_sg2hid.MasterPort.Clock.{Clock}
use pico_sg2hid.MasterPort.Calls.{
  Call, timed, put, got, divided, clkdiv_restarted, gave_up, recording, recover-log, Polls,
  rx_asked,
}
use pico_sg2hid.MasterPort.Levels.{Bits, Bits-length}
use pico_sg2hid.MasterPort.Edges.{Timely, Timely-later, rx_within-Settles, probe_bits-Settles}

-- The calls behind the levels, and what the probe gives: nothing without the levels; with them a word
-- is waited for, and the levels are given if it came.
abbrev pub Finishes : ℕ → Option (List ℕ) → List Call → Option (List ℕ) → Type 0
Finishes start levels ending bits =
    ((levels ≡ none) × (bits ≡ none) × (ending ≡ gave_up))
    ⊎ ((read : List ℕ) × (wait : List Call) × (is_complete : Bool) × (levels ≡ some read)
        × (length read ≡ 8)
        × Polls rx_asked start probe_budget_us wait is_complete
        × (((is_complete ≡ true)
              × (bits ≡ some read)
              × (received : ℕ) × (ending ≡ wait ++ got received ∷ []))
            ⊎ ((is_complete ≡ false) × (bits ≡ none) × (ending ≡ wait ++ gave_up))))

-- The divider of the bus is set again.
abbrev pub set_again : List Call
set_again = divided bus_div ∷ clkdiv_restarted ∷ []

module _ {S : Type 0} (sdk : MasterSdk S) (now_ns : S → ℕ) (clock : Clock sdk now_ns)
    (fuel byte : ℕ) where
  -- The levels and the calls of a probe.
  abbrev pub ProbeOutcome : Option (Option (List ℕ) × (S × List Call)) → Type 0
  ProbeOutcome outcome =
      (bits : Option (List ℕ)) × (s' : S) × (start : ℕ) × (levels : Option (List ℕ)) × (calls : List
        Call)
      × (ending : List Call) × (outcome
          ≡ some (
            bits,
            (
              s',
              divided slowest
                  ∷ clkdiv_restarted
                  ∷ timed start
                  ∷ put byte
                  ∷ (calls ++ (ending ++ set_again)),
            ),
          ))
      × Bits start 8 calls levels
      × Finishes start levels ending bits

  -- The divider behind some calls.
  divider-log :
      (s : S) (log ending : List Call)
      → set_divider (recording sdk) bus_div (s, log ++ ending)
        ≡ (set_divider sdk bus_div s, log ++ (ending ++ set_again))
  unfolding set_divider
  divider-log s log ending =
      ap (λ l. (set_divider sdk bus_div s, l))
        (append_assoc (log ++ ending) (divided bus_div ∷ []) (clkdiv_restarted ∷ [])
          ∙ append_assoc log ending set_again)

  -- What the probe gives behind its bits.
  Finished : ℕ → Option (List ℕ) → List Call → Option (Option (List ℕ) × (S × List Call)) → Type 0
  Finished start levels log outcome =
      (bits : Option (List ℕ)) × (s' : S) × (ending : List Call) × (outcome
        ≡ some (bits, (s', log ++ (ending ++ set_again))))
      × Finishes start levels ending bits

  -- On every way the divider of the bus is set again.
  finish_probe-Finished :
      (begin : ℕ) (levels : Option (List ℕ)) (s : S) (log : List Call)
      → Timely sdk now_ns clock begin fuel (begin + 42000001000) s
      → (levels ≡ none) ⊎ ((read : List ℕ) × (levels ≡ some read) × (length read ≡ 8))
      → Finished
          (begin / 1000 % u32_mod)
          levels
          log
          (finish_probe (recording sdk) fuel (begin / 1000 % u32_mod) levels (s, log))
  unfolding finish_probe Finished
  finish_probe-Finished begin levels s log t (inl is_none) = (
    none,
    set_divider sdk bus_div (recover sdk s),
    gave_up,
    rw (is_none, finish_probe)
        (ap (λ after. some (none, set_divider (recording sdk) bus_div after))
            (recover-log sdk s log)
          ∙ ap (λ after. some (none, after)) (divider-log (recover sdk s) log gave_up)),
    inl (is_none, refl, refl),
  )
  finish_probe-Finished begin levels s log t (inr (read, is_read, e)) =
      let (d, s₁, wait, r, _, _, p) =
        rx_within-Settles sdk now_ns clock begin fuel (begin + 42000001000) s log t in
      let log₁ = log ++ wait in
      elim (Bool-cases d) [
        | inr is_no ↦ (
          none,
          set_divider sdk bus_div (recover sdk s₁),
          wait ++ gave_up,
          rw (is_read, r, is_no, finish_probe)
              (ap (λ after. some (none, set_divider (recording sdk) bus_div after))
                  (recover-log sdk s₁ log₁
                    ∙ ap (λ l. (recover sdk s₁, l)) (append_assoc log wait gave_up))
                ∙ ap (λ after. some (none, after))
                    (divider-log (recover sdk s₁) log (wait ++ gave_up))),
          inr (read, wait, d, is_read, e, p, inr (is_no, refl, refl)),
        )
        | inl is_yes ↦
            let (word, s₂) = sdk.sm_get s₁ in
            (
              some read,
              set_divider sdk bus_div s₂,
              wait ++ got word ∷ [],
              rw (is_read, r, is_yes, finish_probe)
                  (ap (λ l. some (some read, set_divider (recording sdk) bus_div (s₂, l)))
                      (append_assoc log wait (got word ∷ []))
                    ∙ ap (λ after. some (some read, after))
                        (divider-log s₂ log (wait ++ got word ∷ []))),
              inr (read, wait, d, is_read, e, p, inl (is_yes, refl, word, refl)),
            )
      ]

  -- The hardware is a parameter, with a clock that goes on. With more fuel than the nanoseconds of
  -- a second and a microsecond, the probe returns. With every call of the SDK noted with what it
  -- gave, its calls are these and no other: it sets the slowest divider, reads the clock and puts the
  -- byte; for each of eight bits it asks for CLK, with the clock behind each no, until it is low and
  -- then until it is high, and reads CMD, whose levels are the bits; then it asks for a word in the
  -- same way. Where the word comes it takes it and gives the levels; where a wait goes beyond a
  -- second since the first reading, it stops, empties, restarts and starts the state machine and
  -- gives nothing; and in both cases it ends by setting the divider of the bus again.
  pub probe_wire_bits-calls :
      (s : S) → 1000001000 < fuel → ProbeOutcome (probe_wire_bits (recording sdk) fuel byte (s, []))
  unfolding probe_wire_bits set_divider Finished
  probe_wire_bits-calls s f =
      let s₁ = (sdk.time_us (set_divider sdk slowest s)).1 in
      let begin = now_ns s₁ in
      let start = begin / 1000 % u32_mod in
      let s₂ = sdk.sm_put byte s₁ in
      let (p, p') = clock.sm_put byte s₁ in
      let l = clock.lag_bound in
      let t : Timely sdk now_ns clock begin fuel (begin + 2000001000) s₂ = record {
        after_budget = omega arith;
        few = omega arith;
        begun = p;
        early = omega arith;
        enough = omega arith;
        some_fuel = omega arith;
      } in
      let sent = λ (first : ℕ). divided slowest ∷ clkdiv_restarted ∷ timed first ∷ put byte ∷ [] in
      let (levels, s₃, calls, o, n, u, q) =
        probe_bits-Settles sdk now_ns clock begin fuel 8 (begin + 2000001000) s₂ (sent start) t
          (omega arith) in
      let later =
        Timely-later sdk now_ns clock begin fuel t n (omega arith) (omega arith) (omega arith) in
      let counted : (levels ≡ none) ⊎ ((read : List ℕ) × (levels ≡ some read) × (length read ≡ 8)) =
        elim (Option-cases levels) [
          | inl e ↦ inl e
          | inr (read, e) ↦ inr (read, e, Bits-length (subst (Bits start 8 calls) e q))
        ] in
      let (bits, s₄, ending, o', fin) =
        finish_probe-Finished begin levels s₃ (sent start ++ calls) later counted in
      let reported : (sdk.time_us (set_divider sdk slowest s)).0 ≡ start =
        clock.reported (set_divider sdk slowest s) in
      let ended : probe_wire_bits (recording sdk) fuel byte (s, [])
          ≡ some (bits, (s₄, (sent start ++ calls) ++ (ending ++ set_again))) =
        rw
          (
            ap (λ now. probe_bits (recording sdk) fuel 8 now (s₂, sent now)) reported ∙ o,
            probe_wire_bits,
          )
          (rw reported o') in
      (bits, s₄, start, levels, calls, ending, ended, q, fin)
