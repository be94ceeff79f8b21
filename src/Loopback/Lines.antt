-- ===== src/Loopback/Lines.antt =====
-- What the loopback firmware prints (src/app/loopback.cpp): the probe of the bit order, the line of a
-- frame with its trace, and a round of `main`. The probe is a value of MasterPort/Probe.
use pico_sg2hid.Common.{ℕ, ◌+◌, Option, none, some, List, [], ◌∷◌, ◌++◌, ◌==◌, if◌then◌else◌}
use pico_sg2hid.Trace.{dec}
use pico_sg2hid.Trace.Writer.{hex}
use pico_sg2hid.Console.{newline_text, too_long_text}
use pico_sg2hid.Firmware.Summary.{level_text}
use pico_sg2hid.Bus.{BusPort}
use pico_sg2hid.Loopback.{LoopbackLine, LoopReadings, probe_byte, print_loopbacks, sequences}

abbrev pub probe_timeout_text : List ℕ
probe_timeout_text =
    b'p' ∷ b'r' ∷ b'o' ∷ b'b' ∷ b'e' ∷ b':' ∷ 32 ∷ b't' ∷ b'i' ∷ b'm' ∷ b'e' ∷ b'o' ∷ b'u' ∷ b't'
    ∷ []

abbrev pub probe_text : List ℕ
probe_text = b'p' ∷ b'r' ∷ b'o' ∷ b'b' ∷ b'e' ∷ b':' ∷ 32 ∷ b'0' ∷ b'x' ∷ []

abbrev pub on_the_wire_text : List ℕ
on_the_wire_text =
    32 ∷ b'o' ∷ b'n' ∷ 32 ∷ b't' ∷ b'h' ∷ b'e' ∷ 32 ∷ b'w' ∷ b'i' ∷ b'r' ∷ b'e' ∷ b':' ∷ 32 ∷ []

-- `i == 0 ? "%d" : ",%d"` for each bit, from the bit `i` on.
unfoldable pub bits_text : ℕ → List ℕ → List ℕ
bits_text i [] = []
bits_text i (bit ∷ bits) = (if i == 0 then dec bit else b',' ∷ dec bit) ++ bits_text (i + 1) bits

-- `print_probe`, by what `probe_wire_bits` returned.
unfoldable pub print_probe : Option (List ℕ) → List ℕ
print_probe none = probe_timeout_text ++ newline_text
print_probe (some bits) =
    probe_text ++ (hex probe_byte ++ (on_the_wire_text ++ (bits_text 0 bits ++ newline_text)))

abbrev pub seq_text : List ℕ
seq_text =
    b'l' ∷ b'o' ∷ b'o' ∷ b'p' ∷ b'b' ∷ b'a' ∷ b'c' ∷ b'k' ∷ b':' ∷ 32 ∷ b's' ∷ b'e' ∷ b'q' ∷ b'='
    ∷ []

abbrev pub bytes_text : List ℕ
bytes_text = 32 ∷ b'b' ∷ b'y' ∷ b't' ∷ b'e' ∷ b's' ∷ b'=' ∷ []

abbrev pub match_text : List ℕ
match_text = 32 ∷ b'm' ∷ b'a' ∷ b't' ∷ b'c' ∷ b'h' ∷ b'=' ∷ []

abbrev pub att_level_text : List ℕ
att_level_text = 32 ∷ b'a' ∷ b't' ∷ b't' ∷ b'=' ∷ []

abbrev pub took_text : List ℕ
took_text = 32 ∷ b'u' ∷ b's' ∷ b'=' ∷ []

abbrev pub yes_text : List ℕ
yes_text = b'y' ∷ b'e' ∷ b's' ∷ []

abbrev pub no_text : List ℕ
no_text = b'n' ∷ b'o' ∷ []

-- The trace of a frame, or that it is too long.
abbrev pub trace_text : Option (List ℕ) → List ℕ
trace_text none = too_long_text ++ newline_text
trace_text (some line) = line ++ newline_text

unfoldable pub loopback_text : LoopbackLine → List ℕ
loopback_text line =
    seq_text
    ++ (dec line.index
        ++ (bytes_text
            ++ (dec line.count
                ++ (b'/'
                    ∷ (dec line.size
                        ++ (match_text
                            ++ ((if line.is_match then yes_text else no_text)
                                ++ (att_level_text
                                    ++ (level_text line.is_att_high
                                        ++ (took_text
                                            ++ (dec line.took
                                                ++ (newline_text
                                                    ++ trace_text line.trace))))))))))))

unfoldable pub loopback_texts : List LoopbackLine → List ℕ
loopback_texts [] = []
loopback_texts (line ∷ lines) = loopback_text line ++ loopback_texts lines

-- What a round of the `for ( ;; )` loop prints: the probe, and the three sequences.
module _ {S : Type 0} (port : BusPort S) where
  unfoldable pub print_round : Option (List ℕ) → (ℕ → LoopReadings) → S → List ℕ × S
  print_round bits readings s =
      let (lines, s') = print_loopbacks port 0 sequences readings s in
      (print_probe bits ++ loopback_texts lines, s')
