-- ===== src/MasterPort/Calls.antt =====
-- The calls of the Pico SDK that the master's port (src/hal/pio_port.cpp) makes, as a log with what
-- each of them gave, and the calls of a wait.
use mathlib.Core.List.{append_assoc, append-nil}
use pico_sg2hid.Common.{
  ℕ, ◌≤◌, ◌<◌, ◌≡◌, ◌∙◌, sym, ap, Bool, true, false, not, List, [], ◌∷◌, ◌++◌, u32_sub,
}
use pico_sg2hid.MasterPort.{MasterSdk, Divider, recover}
use pico_sg2hid.MasterPort.Clock.{Clock, Asked, answered, late, again}

pub data Call : Type 0 where
  timed : ℕ → Call
  disabled restored : ℕ → Call
  rx_empty : Bool → Call
  put got : ℕ → Call
  enabled : Bool → Call
  cleared restarted jumped : Call
  divided : Divider → Call
  clkdiv_restarted : Call
  level : ℕ → Bool → Call
  gpio_put : ℕ → Bool → Call
  waited : ℕ → Call

-- An SDK that also notes every call, the latest last.
abbrev pub recording : {S : Type 0} → MasterSdk S → MasterSdk (S × List Call)
recording sdk = record {
  time_us = λ (s, log). let (now, s') = sdk.time_us s in (now, (s', log ++ timed now ∷ []));
  disable_interrupts = λ (s, log).
      let (state, s') = sdk.disable_interrupts s in (state, (s', log ++ disabled state ∷ []));
  restore_interrupts =
      λ state (s, log). (sdk.restore_interrupts state s, log ++ restored state ∷ []);
  rx_is_empty = λ (s, log).
      let (is_empty, s') = sdk.rx_is_empty s in (is_empty, (s', log ++ rx_empty is_empty ∷ []));
  sm_get = λ (s, log). let (word, s') = sdk.sm_get s in (word, (s', log ++ got word ∷ []));
  sm_put = λ word (s, log). (sdk.sm_put word s, log ++ put word ∷ []);
  sm_set_enabled = λ is_on (s, log). (sdk.sm_set_enabled is_on s, log ++ enabled is_on ∷ []);
  sm_clear_fifos = λ (s, log). (sdk.sm_clear_fifos s, log ++ cleared ∷ []);
  sm_restart = λ (s, log). (sdk.sm_restart s, log ++ restarted ∷ []);
  sm_jump_to_start = λ (s, log). (sdk.sm_jump_to_start s, log ++ jumped ∷ []);
  set_clkdiv = λ div (s, log). (sdk.set_clkdiv div s, log ++ divided div ∷ []);
  clkdiv_restart = λ (s, log). (sdk.clkdiv_restart s, log ++ clkdiv_restarted ∷ []);
  gpio_get = λ gpio (s, log).
      let (is_high, s') = sdk.gpio_get gpio s in (is_high, (s', log ++ level gpio is_high ∷ []));
  gpio_put =
      λ gpio is_high (s, log). (sdk.gpio_put gpio is_high s, log ++ gpio_put gpio is_high ∷ []);
  busy_wait_us = λ us (s, log). (sdk.busy_wait_us us s, log ++ waited us ∷ []);
}

-- The calls of a wait that began at the reading `start`: the question, and the clock behind every
-- answer that is no, up to a yes or to the end of the budget. `asked` is the question's call.
pub data Polls (asked : Bool → Call) (start budget_us : ℕ) : List Call → Bool → Type 0 where
  said_yes : Polls asked start budget_us (asked true ∷ []) true
  ran_out :
      {now : ℕ}
      → budget_us < u32_sub now start
      → Polls asked start budget_us (asked false ∷ timed now ∷ []) false
  asked_again :
      {now : ℕ} {log : List Call} {is_done : Bool}
      → u32_sub now start ≤ budget_us
      → Polls asked start budget_us log is_done
      → Polls asked start budget_us (asked false ∷ timed now ∷ log) is_done

-- The question whether a word has come.
abbrev pub rx_asked : Bool → Call
rx_asked has_word = rx_empty (not has_word)

-- What is done with the state machine when a wait failed.
abbrev pub gave_up : List Call
gave_up = enabled false ∷ cleared ∷ restarted ∷ jumped ∷ enabled true ∷ []

module _ {S : Type 0} (sdk : MasterSdk S) where
  abbrev pub recorded_clock :
      (now_ns : S → ℕ) → Clock sdk now_ns → Clock (recording sdk) (λ (s, log). now_ns s)
  recorded_clock now_ns clock = record {
    lag = clock.lag;
    lag_bound = clock.lag_bound;
    reported = λ (s, log). clock.reported s;
    passes = λ (s, log). clock.passes s;
    time_us = λ (s, log). clock.time_us s;
    rx_is_empty = λ (s, log). clock.rx_is_empty s;
    gpio_get = λ gpio (s, log). clock.gpio_get gpio s;
    sm_put = λ word (s, log). clock.sm_put word s;
  }

  pub recover-log :
      (s : S) (log : List Call) → recover (recording sdk) (s, log) ≡ (recover sdk s, log ++ gave_up)
  unfolding recover
  recover-log s log =
      let a = log ++ enabled false ∷ [] in
      let b = a ++ cleared ∷ [] in
      let c = b ++ restarted ∷ [] in
      ap (λ l. (recover sdk s, l))
        (append_assoc c (jumped ∷ []) (enabled true ∷ [])
          ∙ append_assoc b (restarted ∷ []) (jumped ∷ enabled true ∷ [])
          ∙ append_assoc a (cleared ∷ []) (restarted ∷ jumped ∷ enabled true ∷ [])
          ∙ append_assoc log (enabled false ∷ [])
              (cleared ∷ restarted ∷ jumped ∷ enabled true ∷ []))

  module _ (ask : S × List Call → Bool × (S × List Call)) (asked : Bool → Call)
      (noted : (s : S × List Call) → (ask s).1.1 ≡ s.1 ++ asked (ask s).0 ∷ [])
      (start budget_us : ℕ) where
    asked_no :
        (s : S × List Call) (more : List Call)
        → (ask s).0 ≡ false
        → let (now, s₂) = (recording sdk).time_us (ask s).1 in
          s₂.1 ++ more ≡ s.1 ++ asked false ∷ timed now ∷ more
    asked_no s more e =
        let now = (sdk.time_us (ask s).1.0).0 in
        let is_asked : (ask s).1.1 ≡ s.1 ++ asked false ∷ [] =
          noted s ∙ ap (λ d. s.1 ++ asked d ∷ []) e in
        append_assoc (ask s).1.1 (timed now ∷ []) more
        ∙ ap (λ l. l ++ timed now ∷ more) is_asked
        ∙ append_assoc s.1 (asked false ∷ []) (timed now ∷ more)

    -- What a wait adds to the log.
    pub Asked-Polls :
        {s s' : S × List Call} {is_done : Bool}
        → Asked (recording sdk) ask start budget_us s is_done s'
        → (more : List Call) × (s'.1 ≡ s.1 ++ more) × Polls asked start budget_us more is_done
    Asked-Polls (answered {s = s} e) =
        (asked true ∷ [], noted s ∙ ap (λ d. s.1 ++ asked d ∷ []) e, said_yes)
    Asked-Polls (late {s = s} e h) = (
      asked false ∷ timed (sdk.time_us (ask s).1.0).0 ∷ [],
      sym (append-nil _) ∙ asked_no s [] e,
      ran_out h,
    )
    Asked-Polls (again {s = s} e h a) =
        let (more, l, p) = Asked-Polls a in
        (
          asked false ∷ timed (sdk.time_us (ask s).1.0).0 ∷ more,
          l ∙ asked_no s more e,
          asked_again h p,
        )
