-- ===== src/Poll.antt =====
-- One exchanged frame judged (src/core/poll.h, src/core/poll.cpp): its decode, the counters, and
-- the report that the host gets. A function that updates the tally returns the new one.
pub mod Wire
pub mod Reports
pub mod Counters
use pico_sg2hid.Common.{
  ℕ, zero, suc, ◌+◌, ◌-◌, Bool, true, false, not, ◌&&◌, ◌||◌, List, [], ◌∷◌, ltb, ◌==◌,
  if◌then◌else◌, u32_add, min, length, get_or, set, take, replicate, list_eq,
}
use pico_sg2hid.Protocol.{digital, analog, frame_len}
use pico_sg2hid.Frame.{Ps2Frame, DecodeOutcome, value, error, decode, max_payload_len, has_value}
use pico_sg2hid.Guitar.{map_frame, zero_state, whammy_rest}
use pico_sg2hid.Report.{HidReport, build_report}
use pico_sg2hid.Link.{LinkState, absent, analog_streaming, state_eq}
use pico_sg2hid.Trace.{WireByte, zero_wire}

abbrev pub digital_poll_len : ℕ
digital_poll_len = frame_len digital + 1

abbrev pub longest_poll : ℕ
longest_poll = frame_len analog + 1

-- `for ( i = …; i < n; ++i ) bytes[ count++ ] = wire[ i ].in`, by the rounds left; it returns
-- `bytes` and `count`.
copy_in : ℕ → ℕ → List WireByte → List ℕ → ℕ → List ℕ × ℕ
copy_in zero i wire bytes count = (bytes, count)
copy_in (suc rounds) i wire bytes count =
    copy_in rounds (i + 1) wire (set bytes count (get_or wire i zero_wire).in_byte) (count + 1)

unfoldable pub decode_poll : List WireByte → ℕ → DecodeOutcome
unfolding copy_in
decode_poll wire completed =
    let n = min completed (min (length wire) longest_poll) in
    let (bytes, count) = copy_in (n - 1) 1 wire (replicate (longest_poll - 1) 0) 0 in
    decode (take count bytes)

pub record PollTally : Type 0 where
  pub polls : ℕ
  pub refused : ℕ
  pub payload_changes : ℕ
  pub last_payload : List ℕ
  pub has_payload : Bool

-- `PollTally{}`.
abbrev pub new_tally : PollTally
new_tally = record {
  polls = 0;
  refused = 0;
  payload_changes = 0;
  last_payload = replicate max_payload_len 0;
  has_payload = false;
}

-- The part of `count_poll` for a good analog frame.
count_payload : PollTally → Ps2Frame → PollTally
count_payload tally frame =
    let changes =
      if tally.has_payload && not (list_eq frame.payload tally.last_payload)
      then u32_add tally.payload_changes 1
      else tally.payload_changes in
    record tally { payload_changes = changes; last_payload = frame.payload; has_payload = true }

unfoldable pub count_poll : PollTally → LinkState → DecodeOutcome → PollTally
unfolding count_payload
count_poll tally now outcome =
    let tally = record tally {
      polls = u32_add tally.polls 1;
      refused = if state_eq now absent then u32_add tally.refused 1 else tally.refused;
    } in
    if not (state_eq now analog_streaming) || not (has_value outcome)
    then tally
    else elim outcome [ value frame ↦ count_payload tally frame | error e ↦ tally ]

unfoldable pub neutral_report : HidReport
neutral_report = build_report (record zero_state { whammy = whammy_rest })

unfoldable pub report_for : LinkState → DecodeOutcome → HidReport
report_for now outcome =
    if state_eq now analog_streaming && has_value outcome
    then elim outcome [ value frame ↦ build_report (map_frame frame) | error e ↦ neutral_report ]
    else neutral_report
