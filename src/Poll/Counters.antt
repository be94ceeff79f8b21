-- ===== src/Poll/Counters.antt =====
-- The counters that `count_poll` (src/core/poll.cpp) keeps, over any run of frames.
use pico_sg2hid.Common.{
  ℕ, ◌+◌, ◌%◌, ◌<◌, ◌≡◌, List, [], ◌∷◌, arith, if◌then◌else◌, u32_mod, list_eq, length,
}
use pico_sg2hid.Frame.{DecodeOutcome, value, error}
use pico_sg2hid.Link.{LinkState, absent, negotiating, digital_streaming, analog_streaming, state_eq}
use pico_sg2hid.Poll.{PollTally, new_tally, count_poll}

-- One counted frame: the link state it left, and its decode.
abbrev pub Counted : Type 0
Counted = LinkState × DecodeOutcome

pub count_all : PollTally → List Counted → PollTally
count_all tally [] = tally
count_all tally ((now, outcome) ∷ rest) = count_all (count_poll tally now outcome) rest

-- How many of the frames left the link absent.
abbrev pub absents : List Counted → ℕ
absents [] = 0
absents ((now, outcome) ∷ rest) = (if state_eq now absent then 1 else 0) + absents rest

-- The payloads of the good analog frames, in order.
abbrev pub good_payloads : List Counted → List (List ℕ)
good_payloads [] = []
good_payloads ((analog_streaming, value frame) ∷ rest) = frame.payload ∷ good_payloads rest
good_payloads (_ ∷ rest) = good_payloads rest

-- How many payloads differ from the one before them.
abbrev pub changes_from : List ℕ → List (List ℕ) → ℕ
changes_from last [] = 0
changes_from last (p ∷ rest) = (if list_eq p last then 0 else 1) + changes_from p rest

abbrev pub changes : List (List ℕ) → ℕ
changes [] = 0
changes (p ∷ rest) = changes_from p rest

abbrev pub changes_after : PollTally → List (List ℕ) → ℕ
changes_after tally ps =
    if tally.has_payload then changes_from tally.last_payload ps else changes ps

count_all_lem :
    (tally : PollTally) (frames : List Counted)
    → let after = count_all tally frames in
      (after.polls % u32_mod ≡ (tally.polls + length frames) % u32_mod)
      × (after.refused % u32_mod ≡ (tally.refused + absents frames) % u32_mod)
      × (after.payload_changes % u32_mod
          ≡ (tally.payload_changes + changes_after tally (good_payloads frames)) % u32_mod)
unfolding count_all count_poll
count_all_lem tally [] = ground arith
count_all_lem tally ((analog_streaming, value frame) ∷ rest) =
    ground (arith, count_all_lem (count_poll tally analog_streaming (value frame)) rest)
count_all_lem tally ((now, error e) ∷ rest) =
    ground (arith, count_all_lem (count_poll tally now (error e)) rest)
count_all_lem tally ((absent, value f) ∷ rest) =
    ground (arith, count_all_lem (count_poll tally absent (value f)) rest)
count_all_lem tally ((negotiating, value f) ∷ rest) =
    ground (arith, count_all_lem (count_poll tally negotiating (value f)) rest)
count_all_lem tally ((digital_streaming, value f) ∷ rest) =
    ground (arith, count_all_lem (count_poll tally digital_streaming (value f)) rest)

-- The counters are 32-bit values.
abbrev pub Fits : PollTally → Type 0
Fits t = (t.polls < u32_mod) × (t.refused < u32_mod) × (t.payload_changes < u32_mod)

count_poll-Fits :
    (tally : PollTally) (now : LinkState) (outcome : DecodeOutcome)
    → Fits tally
    → Fits (count_poll tally now outcome)
unfolding count_poll
count_poll-Fits tally now (value f) h = ground arith
count_poll-Fits tally now (error e) h = ground arith

count_all-Fits :
    (tally : PollTally) (frames : List Counted) → Fits tally → Fits (count_all tally frames)
unfolding count_all
count_all-Fits tally [] h = h
count_all-Fits tally ((now, outcome) ∷ rest) h =
    count_all-Fits (count_poll tally now outcome) rest (count_poll-Fits tally now outcome h)

-- Since boot, up to the wrap-around at 32 bits: `polls` counts the frames, `refused` those that
-- left the link absent, and `payload_changes` the good analog frames whose payload differs from
-- that of the good analog frame before, however many other frames came between the two.
pub count_all-new_tally :
    (frames : List Counted)
    → let after = count_all new_tally frames in
      (after.polls ≡ length frames % u32_mod)
      × (after.refused ≡ absents frames % u32_mod)
      × (after.payload_changes ≡ changes (good_payloads frames) % u32_mod)
count_all-new_tally frames =
    omega (arith, count_all_lem new_tally frames, count_all-Fits new_tally frames (omega arith))
