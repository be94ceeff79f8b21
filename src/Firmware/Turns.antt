-- ===== src/Firmware/Turns.antt =====
-- What holds of the firmware of src/app/main.cpp after every turn of its loop, whatever the bus,
-- the clock and the USB host do.
use pico_sg2hid.Common.{
  ℕ, ◌≡◌, refl, sym, ap, ◌∙◌, ◌≢◌, ◌⊎◌, inl, inr, List, [], ◌∷◌, arith, Bool-cases, u32_sub,
}
use pico_sg2hid.Frame.{DecodeOutcome}
use pico_sg2hid.Link.{LinkState, absent, negotiating, digital_streaming, analog_streaming}
use pico_sg2hid.Poll.{decode_poll, report_for}
use pico_sg2hid.Poll.Reports.{neutral_report_lem}
use pico_sg2hid.Negotiation.{Master, Exchanged, command_for, advance}
use pico_sg2hid.Negotiation.Sequence.{IsSound, advance-IsSound, new_master-IsSound}
use pico_sg2hid.Bus.{BusPort, Exchange, exchange_frame}
use pico_sg2hid.Usb.{UsbDevice, send_report, new_device}
use pico_sg2hid.Firmware.{
  Poller, Readings, frame_of, judge_frame, poll_once, turn, turns, summarise, new_poller,
  print_summary, is_summary_due,
}

-- What a turn exchanges, and what the sequence and the report make of it.
module _ {S : Type 0} (port : BusPort S) (r : Readings) (start : ℕ) (p : Poller) (d : UsbDevice)
    (s : S) where
  abbrev pub exchanged : Exchange S
  exchanged = exchange_frame port (frame_of (command_for p.master.stage)) s

  abbrev pub judged : Master × LinkState
  judged =
      advance p.master (record { wire = exchanged.frame; completed = exchanged.done })
        (u32_sub start p.poll_start)

  -- The fields of the poller and the device that later turns read.
  pub record TurnLeaves : Type 0 where
    pub master_is : (turn port r start p d s).poller.master ≡ judged.0
    pub report_is :
        (turn port r start p d s).poller.report
        ≡ report_for judged.1 (decode_poll exchanged.frame exchanged.done)
    pub stored_is :
        (turn port r start p d s).device.stored_report ≡ (turn port r start p d s).poller.report
    pub start_is : (turn port r start p d s).poller.poll_start ≡ start
    pub port_is : (turn port r start p d s).port ≡ exchanged.port

  pub turn-leaves : TurnLeaves
  unfolding turn poll_once judge_frame send_report
  turn-leaves = ground arith

report_for-quiet :
    (now : LinkState) (o : DecodeOutcome)
    → (now ≡ analog_streaming) ⊎ (report_for now o ≡ 0 ∷ 0 ∷ 0 ∷ [])
unfolding report_for
report_for-quiet absent o = inr neutral_report_lem
report_for-quiet negotiating o = inr neutral_report_lem
report_for-quiet digital_streaming o = inr neutral_report_lem
report_for-quiet analog_streaming o = inl refl

advance-state :
    (m : Master) (x : Exchanged) (us : ℕ) → (advance m x us).1 ≡ (advance m x us).0.link.state
unfolding advance
advance-state m x us = refl

-- Between two turns: the master is sound, a host that asks reads the report of the last frame, and
-- that is the neutral report unless the link streams analog.
pub record Holds (p : Poller) (d : UsbDevice) : Type 0 where
  pub sound : IsSound p.master
  pub stored : d.stored_report ≡ p.report
  pub quiet : (p.master.link.state ≡ analog_streaming) ⊎ (p.report ≡ 0 ∷ 0 ∷ 0 ∷ [])

pub boot-Holds : (start : ℕ) → Holds (new_poller start) new_device
unfolding new_poller new_device
boot-Holds start = record {
  sound = new_master-IsSound;
  stored = refl;
  quiet = inr neutral_report_lem;
}

pub summarise-Holds : (now : ℕ) (p : Poller) (d : UsbDevice) → Holds p d → Holds (summarise now p) d
unfolding summarise print_summary
summarise-Holds now p d h = elim (Bool-cases (is_summary_due p)) [
  | inl e ↦ rw e (record { sound = h.sound; stored = h.stored; quiet = h.quiet })
  | inr e ↦ rw e h
]

sound_not_digital : (m : Master) → IsSound m → m.link.state ≢ digital_streaming
sound_not_digital m s e = ground (arith, s.agrees)

-- What that says to a host.
pub Holds-quiet :
    (p : Poller) (d : UsbDevice)
    → Holds p d
    → (p.master.link.state ≢ digital_streaming)
      × ((p.master.link.state ≡ analog_streaming) ⊎ (d.stored_report ≡ 0 ∷ 0 ∷ 0 ∷ []))
Holds-quiet p d h = (
  sound_not_digital p.master h.sound,
  elim h.quiet [ inl e ↦ inl e | inr e ↦ inr (h.stored ∙ e) ],
)

module _ {S : Type 0} (port : BusPort S) where
  -- Whatever the port answers and however long it took, one turn keeps three things: the master is
  -- sound; the stored report is that of the last frame; unless the link streams analog, it is neutral.
  pub turn-Holds :
      (r : Readings) (start : ℕ) (p : Poller) (d : UsbDevice) (s : S)
      → Holds p d
      → let after = turn port r start p d s in Holds after.poller after.device
  turn-Holds r start p d s h =
      let l = turn-leaves port r start p d s in
      let x : Exchanged = record {
        wire = (exchanged port r start p d s).frame;
        completed = (exchanged port r start p d s).done;
      } in
      record {
        sound =
            rw l.master_is
              (advance-IsSound p.master x (u32_sub start p.poll_start) (omega arith) h.sound);
        stored = l.stored_is;
        quiet =
            elim (report_for-quiet (judged port r start p d s).1 (decode_poll x.wire x.completed)) [
              | inl e ↦ inl (
                  ap (λ m. m.link.state) l.master_is
                  ∙ sym (advance-state p.master x (u32_sub start p.poll_start))
                  ∙ e)
              | inr e ↦ inr (l.report_is ∙ e)
            ];
      }

  turns-Holds :
      (rs : List (Readings × ℕ)) (p : Poller) (d : UsbDevice) (s : S)
      → Holds p d
      → let after = turns port rs p d s in Holds after.poller after.device
  unfolding turns
  turns-Holds [] p d s h = h
  turns-Holds ((r, start) ∷ rest) p d s h =
      let after = turn port r start p d s in
      turns-Holds rest (summarise r.summarised_at after.poller) after.device after.port
        (summarise-Holds r.summarised_at after.poller after.device (turn-Holds r start p d s h))

  -- From boot on, over any bus and any run of turns: the link never streams digital, and unless it
  -- streams analog the stored report is neutral: no control pressed, the whammy at rest.
  pub boot-quiet :
      (rs : List (Readings × ℕ)) (start : ℕ) (s : S)
      → let after = turns port rs (new_poller start) new_device s in
        (after.poller.master.link.state ≢ digital_streaming)
        × ((after.poller.master.link.state ≡ analog_streaming)
            ⊎ (after.device.stored_report ≡ 0 ∷ 0 ∷ 0 ∷ []))
  boot-quiet rs start s =
      let after = turns port rs (new_poller start) new_device s in
      Holds-quiet after.poller after.device
        (turns-Holds rs (new_poller start) new_device s (boot-Holds start))
