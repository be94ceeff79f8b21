-- ===== src/MasterPort/Levels.antt =====
-- The calls of the Pico SDK with which the bit-order probe (src/hal/pio_port.cpp) reads its levels.
use pico_sg2hid.Common.{
  ℕ, suc, ◌≡◌, refl, ap, inl, inr, Bool, true, false, not, Bool-cases, Option, none, some, List, [],
  ◌∷◌, ◌++◌, length, if◌then◌else◌,
}
use pico_sg2hid.Pins.{cmd, clk}
use pico_sg2hid.MasterPort.{MasterSdk, probe_budget_us, master_gpio}
use pico_sg2hid.MasterPort.Clock.{has_level}
use pico_sg2hid.MasterPort.Calls.{Call, level, recording, Polls}

-- The question whether CLK has a level.
abbrev pub clk_asked : Bool → Bool → Call
clk_asked is_high is_reached =
    level (master_gpio clk) (if is_high then is_reached else not is_reached)

pub clk_asked-noted :
    {S : Type 0} (sdk : MasterSdk S) (is_high : Bool) (s : S × List Call)
    → (has_level (recording sdk) is_high s).1.1
      ≡ s.1 ++ clk_asked is_high (has_level (recording sdk) is_high s).0 ∷ []
clk_asked-noted sdk true (s, log) = refl
clk_asked-noted sdk false (s, log) = elim (Bool-cases (sdk.gpio_get (master_gpio clk) s).0) [
  | inl e ↦ rw e refl
  | inr e ↦ rw e refl
]

-- The calls for a bit: CLK is asked for until it is low, then until it is high, and then CMD is read;
-- there is no bit where one of the waits, which began at the reading `start`, ran out.
pub data Bit (start : ℕ) : List Call → Option ℕ → Type 0 where
  no_low :
      {low : List Call}
      → Polls (clk_asked false) start probe_budget_us low false
      → Bit start low none
  no_high :
      {low high : List Call}
      → Polls (clk_asked false) start probe_budget_us low true
      → Polls (clk_asked true) start probe_budget_us high false
      → Bit start (low ++ high) none
  bit_read :
      {low high : List Call} (is_set : Bool)
      → Polls (clk_asked false) start probe_budget_us low true
      → Polls (clk_asked true) start probe_budget_us high true
      → Bit start
          (low ++ (high ++ level (master_gpio cmd) is_set ∷ []))
          (some (if is_set then 1 else 0))

-- The calls for so many bits, in turn, up to the first that is not there.
pub data Bits (start : ℕ) : ℕ → List Call → Option (List ℕ) → Type 0 where
  all_read : Bits start 0 [] (some [])
  stopped : {n : ℕ} {log : List Call} → Bit start log none → Bits start (suc n) log none
  stopped_later :
      {n bit : ℕ} {log more : List Call}
      → Bit start log (some bit)
      → Bits start n more none
      → Bits start (suc n) (log ++ more) none
  one_more :
      {n bit : ℕ} {log more : List Call} {bits : List ℕ}
      → Bit start log (some bit)
      → Bits start n more (some bits)
      → Bits start (suc n) (log ++ more) (some (bit ∷ bits))

pub Bits-length :
    {start n : ℕ} {log : List Call} {bits : List ℕ} → Bits start n log (some bits) → length bits ≡ n
Bits-length all_read = refl
Bits-length (one_more b bs) = ap suc (Bits-length bs)
