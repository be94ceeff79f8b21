-- ===== src/Filter.antt =====
-- Which frames the observe firmware prints (src/core/trace_filter.h, src/core/trace_filter.cpp).
-- `in_bytes` is the source's `in`. The clock is a free-running 32-bit counter.
pub mod Noted
pub mod Rules
use pico_sg2hid.Common.{
  ℕ, zero, suc, ◌+◌, Bool, true, false, not, ◌&&◌, ◌||◌, List, ltb, leb, ◌==◌, if◌then◌else◌,
  u32_sub, length, get_or, set, replicate,
}
use pico_sg2hid.Protocol.{analog, frame_len}
use pico_sg2hid.Link.{LinkState, absent, state_eq}
use pico_sg2hid.Trace.{WireByte, zero_wire}

abbrev pub trace_gap_us : ℕ
trace_gap_us = 10000

abbrev pub max_traced_len : ℕ
max_traced_len = frame_len analog + 1

pub record TracedFrame : Type 0 where
  pub wire : List WireByte
  pub completed : ℕ
  pub state : LinkState

pub record TraceFilter : Type 0 where
  pub out : List ℕ
  pub in_bytes : List ℕ
  pub len : ℕ
  pub completed : ℕ
  pub state : LinkState
  pub printed_at_us : ℕ
  pub has_printed : Bool

-- `TraceFilter{}`.
abbrev pub new_filter : TraceFilter
new_filter = record {
  out = replicate max_traced_len 0;
  in_bytes = replicate max_traced_len 0;
  len = 0;
  completed = 0;
  state = absent;
  printed_at_us = 0;
  has_printed = false;
}

-- The loop over `out`, by the rounds left: whether it returns from its body.
unfoldable pub out_differs : ℕ → ℕ → TraceFilter → TracedFrame → Bool
out_differs zero i filter frame = false
out_differs (suc n) i filter frame =
    not ((get_or frame.wire i zero_wire).out == get_or filter.out i 0)
    || out_differs n (i + 1) filter frame

unfoldable pub is_out_changed : TraceFilter → TracedFrame → Bool
is_out_changed filter frame =
    if not (length frame.wire == filter.len) then true else out_differs filter.len 0 filter frame

-- The loop over `in`, by the rounds left until `len`.
unfoldable pub in_differs : ℕ → ℕ → TraceFilter → TracedFrame → Bool
in_differs zero i filter frame = false
in_differs (suc n) i filter frame =
    ltb i filter.completed
    && (not ((get_or frame.wire i zero_wire).in_byte == get_or filter.in_bytes i 0)
        || in_differs n (i + 1) filter frame)

unfoldable pub is_in_changed : TraceFilter → TracedFrame → Bool
is_in_changed filter frame =
    if not (frame.completed == filter.completed) then true else in_differs filter.len 0 filter frame

unfoldable pub is_trace_due : TraceFilter → TracedFrame → ℕ → Bool
is_trace_due filter frame now_us =
    if not filter.has_printed || ltb max_traced_len (length frame.wire)
    then true
    else if is_out_changed filter frame || not (state_eq frame.state filter.state)
    then true
    else is_in_changed filter frame && leb trace_gap_us (u32_sub now_us filter.printed_at_us)

-- The loop of `note_printed`, by the rounds left.
unfoldable pub put_bytes : ℕ → ℕ → TracedFrame → TraceFilter → TraceFilter
put_bytes zero i frame filter = filter
put_bytes (suc n) i frame filter =
    let byte = get_or frame.wire i zero_wire in
    let sent = record filter { out = set filter.out i byte.out } in
    put_bytes n (i + 1) frame (
      if ltb i frame.completed
      then record sent { in_bytes = set sent.in_bytes i byte.in_byte }
      else sent)

unfoldable pub note_printed : TraceFilter → TracedFrame → ℕ → TraceFilter
note_printed filter frame now_us =
    let size = length frame.wire in
    let kept = record new_filter {
      len = if ltb size max_traced_len then size else max_traced_len;
      completed = frame.completed;
      state = frame.state;
      printed_at_us = now_us;
      has_printed = true;
    } in
    put_bytes kept.len 0 frame kept
