-- ===== src/Wired/Masters.antt =====
-- What one frame makes of the master of src/core/negotiation.cpp when it is answered as the stage
-- expects.
use pico_sg2hid.Common.{ℕ, ◌≤◌, ◌≡◌, some, arith}
use pico_sg2hid.Protocol.{ControllerId, analog, config}
use pico_sg2hid.Frame.{Ps2Frame, value}
use pico_sg2hid.Link.{
  LinkState, Link, absent, negotiating, analog_streaming, negotiation_timeout_us,
}
use pico_sg2hid.Link as LinkModule
use pico_sg2hid.Poll.{decode_poll}
use pico_sg2hid.Negotiation.{
  Master, Exchanged, prefix_id, enter_config, set_analog, leave_config, polling, advance,
}

module _ (m : Master) (x : Exchanged) (us : ℕ) where
  pub advance-enter :
      (id : ControllerId)
      → m.stage ≡ enter_config
      → prefix_id x ≡ some id
      → 5 ≤ x.completed
      → ((advance m x us).0.stage ≡ set_analog) × ((advance m x us).0.link ≡ m.link)
  unfolding advance
  advance-enter id hs hp hc = ground arith

  pub advance-set :
      (f : Ps2Frame)
      → m.stage ≡ set_analog
      → m.link.state ≡ absent
      → decode_poll x.wire x.completed ≡ value f
      → prefix_id x ≡ some config
      → f.id ≡ config
      → ((advance m x us).0.stage ≡ leave_config)
        × ((advance m x us).0.link.state ≡ LinkState.negotiating)
        × ((advance m x us).0.link.us_in_state ≡ 0)
  unfolding advance LinkModule.step
  advance-set f hs ha hd hp hi = ground arith

  pub advance-leave :
      (f : Ps2Frame)
      → m.stage ≡ leave_config
      → m.link.state ≡ LinkState.negotiating
      → m.link.us_in_state ≡ 0
      → us ≤ negotiation_timeout_us
      → decode_poll x.wire x.completed ≡ value f
      → prefix_id x ≡ some config
      → f.id ≡ config
      → ((advance m x us).0.stage ≡ polling)
        × ((advance m x us).0.link.state ≡ LinkState.negotiating)
  unfolding advance LinkModule.step LinkModule.add_saturating
  advance-leave f hs ha h0 hu hd hp hi = ground arith

  pub advance-poll :
      (f : Ps2Frame)
      → m.stage ≡ polling
      → decode_poll x.wire x.completed ≡ value f
      → prefix_id x ≡ some analog
      → f.id ≡ analog
      → ((advance m x us).0.stage ≡ polling)
        × ((advance m x us).0.link.state ≡ analog_streaming)
        × ((advance m x us).1 ≡ analog_streaming)
  unfolding advance LinkModule.step
  advance-poll f hs hd hp hi = ground arith
