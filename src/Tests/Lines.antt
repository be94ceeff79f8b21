-- ===== src/Tests/Lines.antt =====
-- Concrete lines that the firmwares print, as a host reads them (src/app/console.cpp,
-- src/app/loopback.cpp).
use pico_sg2hid.Common.{
  ℕ, zero, suc, ◌≤◌, ◌<◌, ◌≡◌, some, List, [], ◌∷◌, map, arith, length, get_or, u32_max,
}
use pico_sg2hid.Trace.{WireByte, zero_wire}
use pico_sg2hid.Console.{print_trace}
use pico_sg2hid.Console.Reader.{read_trace}
use pico_sg2hid.Console.Items.{first}
use pico_sg2hid.Console.Read.{read_trace-print_trace}
use pico_sg2hid.Loopback.Lines.{print_probe}
use pico_sg2hid.Loopback.Probe.{read_probe, read_probe-print_probe}

-- The second byte was not answered.
abbrev aborted : List WireByte
aborted =
    record { out = 0x01; in_byte = 0xFF; elapsed_us = 45 }
    ∷ record { out = 0x42; in_byte = 0; elapsed_us = 133 }
    ∷ record zero_wire { out = 0xA5 }
    ∷ []

module _ (value : WireByte → ℕ) (bound : ℕ) (none_yet : value zero_wire < bound) where
  below_three :
      (a b c : WireByte)
      → value a < bound
      → value b < bound
      → value c < bound
      → (i : ℕ) → value (get_or (a ∷ b ∷ c ∷ []) i zero_wire) < bound
  below_three a b c p q r zero = p
  below_three a b c p q r (suc zero) = q
  below_three a b c p q r (suc (suc zero)) = r
  below_three a b c p q r (suc (suc (suc i))) = none_yet

aborted-elapsed : (i : ℕ) → (get_or aborted i zero_wire).elapsed_us ≤ u32_max
aborted-elapsed zero = omega arith
aborted-elapsed (suc zero) = omega arith
aborted-elapsed (suc (suc zero)) = omega arith
aborted-elapsed (suc (suc (suc i))) = omega arith

read_trace-print_trace_example :
    read_trace (print_trace aborted 1)
    ≡ some (record {
      size = length aborted;
      completed = 1;
      sent_bytes = map (λ byte. some byte.out) aborted;
      received_bytes = first (λ byte. byte.in_byte) 1 aborted;
      times_us = first (λ byte. byte.elapsed_us) 2 aborted;
    })
read_trace-print_trace_example =
    read_trace-print_trace aborted 1
      (below_three (λ byte. byte.out) 256 (omega arith) _ _ _ (omega arith) (omega arith)
        (omega arith))
      (below_three (λ byte. byte.in_byte) 256 (omega arith) _ _ _ (omega arith) (omega arith)
        (omega arith))
      aborted-elapsed (omega arith) (omega arith) (omega arith)

read_probe-print_probe_example :
    read_probe (print_probe (some (1 ∷ 0 ∷ 0 ∷ 0 ∷ 0 ∷ 0 ∷ 0 ∷ 0 ∷ [])))
    ≡ some (map (λ bit. some bit) (1 ∷ 0 ∷ 0 ∷ 0 ∷ 0 ∷ 0 ∷ 0 ∷ 0 ∷ []))
read_probe-print_probe_example =
    read_probe-print_probe (some (1 ∷ 0 ∷ 0 ∷ 0 ∷ 0 ∷ 0 ∷ 0 ∷ 0 ∷ [])) (omega arith)
