-- ===== src/Serving/Calls.antt =====
-- The calls of its port that the emulator firmware (src/emu/main.cpp) makes, as a log with what each
-- of them gave, and the logs of a frame.
use mathlib.Core.List.{append-nil}
use pico_sg2hid.Common.{
  ℕ, ◌≤◌, ◌<◌, ◌≡◌, ◌∙◌, refl, Bool, true, false, Option, none, some, List, [], ◌∷◌, ◌++◌, u32_sub,
  ap, sym,
}
use pico_sg2hid.Emulator.{SgModel, ByteAnswer, step}
use pico_sg2hid.Emulator.Frames.{serve}
use pico_sg2hid.Serving.{DevicePort, LineReader, take_char}

pub data Event : Type 0 where
  rearmed : Event
  took : Option ℕ → Event
  answered : ℕ → Bool → Event
  looked : Bool → Event
  timed : ℕ → Event
  heard : Option ℕ → Event

-- A port that also notes every call, the latest last.
abbrev pub recording : {S : Type 0} → DevicePort S → DevicePort (S × List Event)
recording port = record {
  restart = λ (s, log). (port.restart s, log ++ rearmed ∷ []);
  take_byte = λ (s, log). let (byte, s') = port.take_byte s in (byte, (s', log ++ took byte ∷ []));
  answer = λ next should_ack (s, log).
      (port.answer next should_ack s, log ++ answered next should_ack ∷ []);
  att_is_high = λ (s, log).
      let (is_high, s') = port.att_is_high s in (is_high, (s', log ++ looked is_high ∷ []));
  time_us = λ (s, log). let (now, s') = port.time_us s in (now, (s', log ++ timed now ∷ []));
  get_char = λ (s, log). let (c, s') = port.get_char s in (c, (s', log ++ heard c ∷ []));
}

-- The bytes that were taken, in order.
abbrev pub taken : List Event → List ℕ
taken [] = []
taken (took (some byte) ∷ log) = byte ∷ taken log
taken (_ ∷ log) = taken log

-- The calls of a wait since the reading `start`, and whether the delay passed before ATT was high.
pub data Waits (delay_us start : ℕ) : List Event → Bool → Type 0 where
  over : {now : ℕ} → delay_us ≤ u32_sub now start → Waits delay_us start (timed now ∷ []) true
  gave_up :
      {now : ℕ}
      → u32_sub now start < delay_us
      → Waits delay_us start (timed now ∷ looked true ∷ []) false
  again :
      {now : ℕ} {log : List Event} {in_time : Bool}
      → u32_sub now start < delay_us
      → Waits delay_us start log in_time
      → Waits delay_us start (timed now ∷ looked false ∷ log) in_time

-- The calls between a byte and its answer, and whether it is answered.
pub data Answers (answer : ByteAnswer) : List Event → Bool → Type 0 where
  at_once : answer.should_ack ≡ false → Answers answer [] true
  waited :
      {start : ℕ} {log : List Event} {in_time : Bool}
      → answer.should_ack ≡ true
      → Waits answer.ack_delay_us start log in_time
      → Answers answer (timed start ∷ log) in_time

-- The calls of a frame that the model serves, and the model that it leaves.
pub data Serves : SgModel → List Event → SgModel → Type 0 where
  deselected : {m : SgModel} → Serves m (looked true ∷ []) m
  nothing :
      {m after : SgModel} {log : List Event}
      → Serves m log after
      → Serves m (looked false ∷ took none ∷ log) after
  replied :
      {m after : SgModel} {byte : ℕ} {wait log : List Event}
      → Answers (step m byte).0 wait true
      → Serves (step m byte).1 log after
      → Serves m
          (looked false
            ∷ took (some byte)
            ∷ (wait ++ answered (step m byte).0.next (step m byte).0.should_ack ∷ log))
          after
  dropped :
      {m : SgModel} {byte : ℕ} {wait : List Event}
      → Answers (step m byte).0 wait false
      → Serves m (looked false ∷ took (some byte) ∷ wait) (step m byte).1

-- What the serial port gave, applied to the reader and the model.
abbrev pub after_char : Option ℕ → LineReader → SgModel → LineReader × SgModel
after_char none reader m = (reader, m)
after_char (some c) reader m = let (reader', m', _) = take_char c reader m in (reader', m')

-- The calls while ATT is high, from a reader and a model to those that they leave: ATT, the serial
-- port, and whether a byte completed, upon which the state machine is re-armed.
pub data Idles : LineReader → SgModel → List Event → LineReader → SgModel → Type 0 where
  selected : {reader : LineReader} {m : SgModel} → Idles reader m (looked false ∷ []) reader m
  quiet :
      {reader after : LineReader} {m m' : SgModel} {c : Option ℕ} {log : List Event}
      → Idles (after_char c reader m).0 (after_char c reader m).1 log after m'
      → Idles reader m (looked true ∷ heard c ∷ took none ∷ log) after m'
  stray :
      {reader after : LineReader} {m m' : SgModel} {c : Option ℕ} {byte : ℕ} {log : List Event}
      → Idles (after_char c reader m).0 (after_char c reader m).1 log after m'
      → Idles reader m (looked true ∷ heard c ∷ took (some byte) ∷ rearmed ∷ log) after m'

-- The characters that were read, in order.
abbrev pub typed_chars : List Event → List ℕ
typed_chars [] = []
typed_chars (heard (some c) ∷ log) = c ∷ typed_chars log
typed_chars (_ ∷ log) = typed_chars log

Waits-taken :
    {delay_us start : ℕ} {wait : List Event} {in_time : Bool}
    → Waits delay_us start wait in_time
    → (log : List Event) → taken (wait ++ log) ≡ taken log
Waits-taken (over h) log = refl
Waits-taken (gave_up h) log = refl
Waits-taken (again h w) log = Waits-taken w log

Answers-taken :
    {answer : ByteAnswer} {wait : List Event} {in_time : Bool}
    → Answers answer wait in_time
    → (log : List Event) → taken (wait ++ log) ≡ taken log
Answers-taken (at_once h) log = refl
Answers-taken (waited h w) log = Waits-taken w log

-- The model depends on the bytes that were taken, and on nothing else.
pub Serves-taken :
    {m after : SgModel} {log : List Event} → Serves m log after → after ≡ (serve m (taken log)).1
unfolding serve
Serves-taken deselected = refl
Serves-taken (nothing sv) = Serves-taken sv
Serves-taken (replied {wait = wait} {log = log} a sv) =
    rw (Answers-taken a (answered _ _ ∷ log)) (Serves-taken sv)
Serves-taken (dropped {wait = wait} a) =
    rw (ap taken (sym (append-nil wait)) ∙ Answers-taken a []) refl
