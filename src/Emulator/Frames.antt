-- ===== src/Emulator/Frames.antt =====
-- Whole frames served by the emulated guitar (src/emu/sg_model.cpp): the bytes between two falls of
-- ATT, as `serve_frame` of src/emu/main.cpp hands them to the model.
use pico_sg2hid.Common.{ℕ, ◌≡◌, refl, ◌≢◌, ap, ◌∙◌, true, false, List, [], ◌∷◌, arith, ==_iff}
use pico_sg2hid.Protocol.{frame_start}
use pico_sg2hid.Emulator.{
  SgModel, ByteAnswer, decline, idle_byte, apply_command, reset, receive, step,
}

-- The answers to the bytes of a frame, and the model that they leave.
unfoldable pub serve : SgModel → List ℕ → List ByteAnswer × SgModel
serve m [] = ([], m)
serve m (byte ∷ bytes) =
    let (answer, m') = step m byte in
    let (answers, after) = serve m' bytes in (answer ∷ answers, after)

-- DATA stays released and no ACK is sent.
abbrev pub Silent : List ByteAnswer → Type 0
Silent [] = Unit {0}
Silent (a ∷ rest) = (a.next ≡ idle_byte) × (a.should_ack ≡ false) × Silent rest

-- What the frames behind this one depend on.
record SameMode (a b : SgModel) : Type 0 where
  analog_is : a.is_analog ≡ b.is_analog
  config_is : a.is_config ≡ b.is_config
  argument_is : a.has_argument ≡ b.has_argument

SameMode-trans : {a b c : SgModel} → SameMode a b → SameMode b c → SameMode a c
SameMode-trans x y = record {
  analog_is = x.analog_is ∙ y.analog_is;
  config_is = x.config_is ∙ y.config_is;
  argument_is = x.argument_is ∙ y.argument_is;
}

step-broken :
    (m : SgModel) (byte : ℕ)
    → m.is_broken ≡ true
    → let (answer, after) = step m byte in
      (answer.next ≡ idle_byte)
      × (answer.should_ack ≡ false)
      × (after.is_broken ≡ true)
      × SameMode after m
unfolding step receive
step-broken m byte h = ground arith

serve-broken :
    (m : SgModel) (bytes : List ℕ)
    → m.is_broken ≡ true
    → Silent (serve m bytes).0 × SameMode (serve m bytes).1 m
unfolding serve
serve-broken m [] h = (tt, record { analog_is = refl; config_is = refl; argument_is = refl })
serve-broken m (byte ∷ bytes) h =
    let (released, unacked, broken, same) = step-broken m byte h in
    let (silent, kept) = serve-broken (step m byte).1 bytes broken in
    ((released, unacked, silent), SameMode-trans kept same)

-- One byte leaves the mode and the fault as they are: a command takes effect only when the next
-- frame starts.
step-keeps :
    (m : SgModel) (byte : ℕ)
    → let after = (step m byte).1 in
      (after.is_analog ≡ m.is_analog) × (after.is_config ≡ m.is_config) × (after.fault ≡ m.fault)
unfolding step receive
step-keeps m byte = (refl, refl, refl)

step-other_address :
    (m : SgModel) (byte : ℕ)
    → byte ≢ frame_start
    → let (answer, after) = step (reset m) byte in
      (answer.next ≡ idle_byte)
      × (answer.should_ack ≡ false)
      × (after.is_broken ≡ true)
      × SameMode after (reset m)
unfolding step receive reset
step-other_address m byte h = ground (arith, ==_iff byte frame_start)

reset-SameMode :
    (a m : SgModel)
    → SameMode a (reset m)
    → ((reset a).is_analog ≡ (reset m).is_analog) × ((reset a).is_config ≡ (reset m).is_config)
unfolding reset
reset-SameMode a m h = ground (arith, h.analog_is, h.config_is, h.argument_is)

-- A frame for another device on the bus, that is, under another first byte, draws no answer: DATA
-- stays released and no byte of it is acknowledged, however many there are. Behind it the guitar is
-- in the mode that it would be in without the frame.
pub serve-other_address :
    (m : SgModel) (byte : ℕ) (bytes : List ℕ)
    → byte ≢ frame_start
    → let (answers, after) = serve (reset m) (byte ∷ bytes) in
      Silent answers
      × ((reset after).is_analog ≡ (reset m).is_analog)
      × ((reset after).is_config ≡ (reset m).is_config)
unfolding serve
serve-other_address m byte bytes h =
    let (released, unacked, broken, same) = step-other_address m byte h in
    let (silent, kept) = serve-broken (step (reset m) byte).1 bytes broken in
    let (an, cf) = reset-SameMode _ m (SameMode-trans kept same) in
    ((released, unacked, silent), an, cf)

-- The model behind whole frames.
unfoldable pub serve_all : SgModel → List (List ℕ) → SgModel
serve_all m [] = m
serve_all m (frame ∷ frames) = serve_all (serve (reset m) frame).1 frames

-- A guitar that declines analog, and is not in it.
abbrev pub Declines : SgModel → Type 0
Declines m = (m.is_analog ≡ false) × (m.fault.kind ≡ decline)

pub reset-Declines : (m : SgModel) → Declines m → Declines (reset m)
unfolding reset apply_command
reset-Declines m h = ground arith

pub step-Declines : (m : SgModel) (byte : ℕ) → Declines m → Declines (step m byte).1
step-Declines m byte h =
    let (an, cf, fault_is) = step-keeps m byte in (an ∙ h.0, ap (λ f. f.kind) fault_is ∙ h.1)

serve-Declines : (m : SgModel) (bytes : List ℕ) → Declines m → Declines (serve m bytes).1
unfolding serve
serve-Declines m [] h = h
serve-Declines m (byte ∷ bytes) h = serve-Declines (step m byte).1 bytes (step-Declines m byte h)

-- A guitar with the fault `decline` that is not in analog mode keeps the fault and never enters that
-- mode, whatever frames a
-- master sends.
pub serve_all-Declines :
    (m : SgModel) (frames : List (List ℕ)) → Declines m → Declines (serve_all m frames)
unfolding serve_all
serve_all-Declines m [] h = h
serve_all-Declines m (frame ∷ frames) h =
    serve_all-Declines (serve (reset m) frame).1 frames
      (serve-Declines (reset m) frame (reset-Declines m h))
