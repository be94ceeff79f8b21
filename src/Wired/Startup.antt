-- ===== src/Wired/Startup.antt =====
-- How the firmware of src/app/main.cpp brings the emulated guitar of src/emu/sg_model.cpp to stream
-- analog, turn by turn.
use mathlib.Core.Path.{ap₂}
use pico_sg2hid.Common.{ℕ, ◌≤◌, ◌≡◌, refl, ap, ◌∙◌, Bool, true, false, [], ◌∷◌, u32_sub}
use pico_sg2hid.Protocol.{analog, config}
use pico_sg2hid.Frame.{Ps2Frame, value}
use pico_sg2hid.Guitar.{map_frame}
use pico_sg2hid.Report.{build_report}
use pico_sg2hid.Link.{LinkState, absent, negotiating, analog_streaming, negotiation_timeout_us}
use pico_sg2hid.Poll.{decode_poll, report_for}
use pico_sg2hid.Negotiation.{
  NegotiationStage, enter_config, set_analog, leave_config, polling, command_for,
}
use pico_sg2hid.Bus.{Exchange, exchange_frame}
use pico_sg2hid.Emulator.{SgModel, Payload, reset, mode_id}
use pico_sg2hid.Usb.{UsbDevice}
use pico_sg2hid.Firmware.{Poller, Readings, Round, frame_of, turn}
use pico_sg2hid.Firmware.Turns.{turn-leaves}
use pico_sg2hid.Wired.{wired, Guitar}
use pico_sg2hid.Wired.Exchange.{
  selected, served, exchange-served, exchanged, served-enter, served-set, served-leave, served-poll,
}
use pico_sg2hid.Wired.Masters.{advance-enter, advance-set, advance-leave, advance-poll}

-- Where the firmware and the guitar stand between two turns: the master's stage and link, and the
-- mode, the command and the payload with which the guitar meets the next frame.
pub record Phase (stage : NegotiationStage) (state : LinkState) (is_analog is_config : Bool)
    (payload : Payload) (p : Poller) (g : Guitar) : Type 0 where
  pub stage_is : p.master.stage ≡ stage
  pub state_is : p.master.link.state ≡ state
  pub fresh : stage ≡ leave_config → p.master.link.us_in_state ≡ 0
  pub command : ℕ
  pub argument : ℕ
  pub model_is : reset g.0 ≡ selected is_analog is_config command argument payload

report_for-streaming :
    (frame : Ps2Frame) → report_for analog_streaming (value frame) ≡ build_report (map_frame frame)
unfolding report_for
report_for-streaming frame = refl

abbrev config_frame : Ps2Frame
config_frame = record { id = config; payload = 0 ∷ 0 ∷ 0 ∷ 0 ∷ 0 ∷ 0 ∷ [] }

module _ (us a b c d e f : ℕ) (r : Readings) (start : ℕ) (p : Poller) (dev : UsbDevice)
    (g : Guitar) where
  abbrev payload : Payload
  payload = a ∷ b ∷ c ∷ d ∷ e ∷ f ∷ []

  abbrev after : Round Guitar
  after = turn (wired us) r start p dev g

  abbrev x : Exchange Guitar
  x = exchange_frame (wired us) (frame_of (command_for p.master.stage)) g

  x-served :
      (stage : NegotiationStage) (model : SgModel)
      → p.master.stage ≡ stage
      → reset g.0 ≡ model
      → x ≡ served us stage model
  x-served stage model es em =
      ap (λ st. exchange_frame (wired us) (frame_of (command_for st)) g) es
      ∙ exchange-served us stage g.0 model g.1 em

  pub turn-enter :
      (is_analog is_config : Bool)
      → Phase enter_config absent is_analog is_config payload p g
      → Phase set_analog absent is_analog true payload after.poller after.port
  turn-enter is_analog is_config h =
      let l = turn-leaves (wired us) r start p dev g in
      let ex = x-served enter_config _ h.stage_is h.model_is in
      let sv = served-enter us h.command h.argument a b c d e f is_analog is_config in
      let m =
        advance-enter p.master (exchanged x) (u32_sub start p.poll_start)
          (mode_id (selected is_analog is_config h.command h.argument payload)) h.stage_is
          (rw ex sv.0) (rw ex sv.1) in
      record {
        stage_is = ap (λ q. q.stage) l.master_is ∙ m.0;
        state_is = ap (λ q. q.link.state) l.master_is ∙ ap (λ q. q.state) m.1 ∙ h.state_is;
        fresh = λ q. absurd (cc);
        command = 0x43;
        argument = 0x01;
        model_is = ap (λ q. reset q.0) (l.port_is ∙ ap (λ q. q.port) ex) ∙ sv.2;
      }

  pub turn-set :
      (is_analog : Bool)
      → Phase set_analog absent is_analog true payload p g
      → Phase leave_config negotiating true true payload after.poller after.port
  turn-set is_analog h =
      let l = turn-leaves (wired us) r start p dev g in
      let ex = x-served set_analog _ h.stage_is h.model_is in
      let sv = served-set us h.command h.argument a b c d e f is_analog in
      let m =
        advance-set p.master (exchanged x) (u32_sub start p.poll_start) config_frame h.stage_is
          h.state_is (rw ex sv.0) (rw ex sv.1) refl in
      record {
        stage_is = ap (λ q. q.stage) l.master_is ∙ m.0;
        state_is = ap (λ q. q.link.state) l.master_is ∙ m.1;
        fresh = λ q. ap (λ q. q.link.us_in_state) l.master_is ∙ m.2;
        command = 0x44;
        argument = 0x01;
        model_is = ap (λ q. reset q.0) (l.port_is ∙ ap (λ q. q.port) ex) ∙ sv.2;
      }

  pub turn-leave :
      Phase leave_config negotiating true true payload p g
      → u32_sub start p.poll_start ≤ negotiation_timeout_us
      → Phase polling negotiating true false payload after.poller after.port
  turn-leave h hu =
      let l = turn-leaves (wired us) r start p dev g in
      let ex = x-served leave_config _ h.stage_is h.model_is in
      let sv = served-leave us h.command h.argument a b c d e f in
      let m =
        advance-leave p.master (exchanged x) (u32_sub start p.poll_start) config_frame h.stage_is
          h.state_is (h.fresh refl) hu (rw ex sv.0) (rw ex sv.1) refl in
      record {
        stage_is = ap (λ q. q.stage) l.master_is ∙ m.0;
        state_is = ap (λ q. q.link.state) l.master_is ∙ m.1;
        fresh = λ q. absurd (cc);
        command = 0x43;
        argument = 0x00;
        model_is = ap (λ q. reset q.0) (l.port_is ∙ ap (λ q. q.port) ex) ∙ sv.2;
      }

  pub turn-poll :
      (state : LinkState)
      → Phase polling state true false payload p g
      → Phase polling analog_streaming true false payload after.poller after.port
        × (after.device.stored_report
            ≡ build_report (map_frame (record { id = analog; payload = payload })))
  turn-poll state h =
      let l = turn-leaves (wired us) r start p dev g in
      let ex = x-served polling _ h.stage_is h.model_is in
      let sv = served-poll us h.command h.argument a b c d e f in
      let ed : decode_poll x.frame x.done ≡ value (record { id = analog; payload = payload }) =
        rw ex sv.0 in
      let m =
        advance-poll p.master (exchanged x) (u32_sub start p.poll_start)
          (record { id = analog; payload = payload }) h.stage_is ed (rw ex sv.1) refl in
      (
        record {
          stage_is = ap (λ q. q.stage) l.master_is ∙ m.0;
          state_is = ap (λ q. q.link.state) l.master_is ∙ m.1;
          fresh = λ q. absurd (cc);
          command = 0x42;
          argument = 0x00;
          model_is = ap (λ q. reset q.0) (l.port_is ∙ ap (λ q. q.port) ex) ∙ sv.2;
        },
        l.stored_is
            ∙ l.report_is
            ∙ ap₂ report_for m.2 ed
            ∙ report_for-streaming (record { id = analog; payload = payload }),
      )
