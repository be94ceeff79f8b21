-- ===== src/Link/Runs.antt =====
-- Runs of polls over the link of src/core/link.cpp: the clock of a state, and the way out of a
-- negotiation that does not end.
use pico_sg2hid.Common.{ℕ, ◌+◌, ◌≤◌, ◌≡◌, sym, ◌∙◌, List, [], ◌∷◌, arith, min, u32_max}
use pico_sg2hid.Frame.{DecodeOutcome, value, error}
use pico_sg2hid.Link.{LinkState, Link, negotiation_timeout_us, step}
use pico_sg2hid.Link.Time.{add_saturating_lem}
use pico_sg2hid.Link.Lifecycle.{Inv, step-Inv}

-- One poll: what its frame decoded to, and the time since the previous one.
abbrev pub Poll : Type 0
Poll = DecodeOutcome × ℕ

unfoldable pub run : Link → List Poll → Link
run link [] = link
run link ((outcome, us) ∷ polls) = run (step link outcome us) polls

abbrev pub total_us : List Poll → ℕ
total_us [] = 0
total_us ((outcome, us) ∷ polls) = us + total_us polls

-- Every poll leaves the link in the state `s`, and takes a 32-bit number of microseconds.
abbrev pub Stays : LinkState → Link → List Poll → Type 0
Stays s link [] = link.state ≡ s
Stays s link ((outcome, us) ∷ polls) =
    (link.state ≡ s) × (us ≤ u32_max) × Stays s (step link outcome us) polls

first_state :
    (s : LinkState) (link : Link) (polls : List Poll) → Stays s link polls → link.state ≡ s
first_state s link [] h = h
first_state s link (p ∷ polls) h = h.0

step_stays :
    (link : Link) (outcome : DecodeOutcome) (us : ℕ)
    → link.us_in_state ≤ u32_max
    → us ≤ u32_max
    → (step link outcome us).state ≡ link.state
    → (step link outcome us).us_in_state ≡ min (link.us_in_state + us) u32_max
unfolding step
step_stays link (error e) us hl hu h = ground (arith, add_saturating_lem link.us_in_state us hl hu)
step_stays link (value f) us hl hu h = ground (arith, add_saturating_lem link.us_in_state us hl hu)

-- While the link stays in a state, its clock, which fits 32 bits at the start, is that value and the
-- time of the polls since, each a 32-bit number, up to the largest 32-bit
-- value.
pub run-us_in_state :
    (s : LinkState) (link : Link) (polls : List Poll)
    → link.us_in_state ≤ u32_max
    → Stays s link polls
    → (run link polls).us_in_state ≡ min (link.us_in_state + total_us polls) u32_max
unfolding run
run-us_in_state s link [] fits h = omega arith
run-us_in_state s link ((outcome, us) ∷ polls) fits (here, hu, rest) =
    let same = step_stays link outcome us fits hu (first_state s _ polls rest ∙ sym here) in
    omega (arith, same, run-us_in_state s (step link outcome us) polls (omega arith) rest)

run-Inv :
    (s : LinkState) (link : Link) (polls : List Poll)
    → Inv link
    → Stays s link polls
    → Inv (run link polls)
unfolding run
run-Inv s link [] v h = v
run-Inv s link ((outcome, us) ∷ polls) v (here, hu, rest) =
    run-Inv s (step link outcome us) polls (step-Inv link outcome us hu v) rest

run-state :
    (s : LinkState) (link : Link) (polls : List Poll)
    → Stays s link polls
    → (run link polls).state ≡ s
unfolding run
run-state s link [] h = h
run-state s link ((outcome, us) ∷ polls) (here, hu, rest) =
    run-state s (step link outcome us) polls rest

-- A link never stays in config mode past the timeout: whatever the controller answers, and however
-- the time falls on the polls, a run that leaves the link negotiating all along is no longer than
-- the timeout, with the time already spent there. It starts from a link within its bounds.
pub negotiating-bounded :
    (link : Link) (polls : List Poll)
    → Inv link
    → Stays LinkState.negotiating link polls
    → link.us_in_state + total_us polls ≤ negotiation_timeout_us
negotiating-bounded link polls v h =
    let after = run-Inv _ link polls v h in
    omega (arith, run-us_in_state _ link polls v.fits h, after.in_time (run-state _ link polls h))
