-- ===== src/Observe/Paced.antt =====
-- The time that `main` of src/app/observe.cpp takes and the characters that it reads, over any
-- hardware whose clock goes on.
use pico_sg2hid.Common.{
  ℕ, zero, suc, ◌+◌, ◌*◌, ◌/◌, ◌%◌, ◌≤◌, ◌<◌, ◌≡◌, ◌⊎◌, ◌∙◌, refl, Bool-cases, true, inl, inr,
  Option, none, some, List, ◌++◌, arith, ltb, ltb-true, ltb-false, u32_sub, u32_mod, length,
}
use pico_sg2hid.Protocol.{poll_period_us}
use pico_sg2hid.Link.{LinkState, FaultCause}
use pico_sg2hid.Trace.{WireByte}
use pico_sg2hid.Console.{print_link, print_trace}
use pico_sg2hid.Negotiation.{
  Exchanged, NegotiationStage, enter_config, set_analog, leave_config, polling, command_for,
}
use pico_sg2hid.Bus.{BusPort, exchange_frame}
use pico_sg2hid.Bus.Paced.{BusClock, exchange_frame-Within, elapsed}
use pico_sg2hid.Bus.Untouched.{Untouched, exchange_frame-view}
use pico_sg2hid.MasterPort.Clock.{Within}
use pico_sg2hid.Observe.{
  Observer, Answer, frame_to_send, command_of, poll_command, observe_once, show,
}
use pico_sg2hid.Firmware.{put_outs}
use pico_sg2hid.Observe.ReadOnly.{Mode-cases}
use pico_sg2hid.Observe.Heard.{Heard, given, poll_command-Heard, show-Heard}
use pico_sg2hid.Observe.Running.{
  ObserveSdk, port_wait_ms, wait_port, answer_text, print_answer, read_command, read_period,
  print_link_change, print_due,
}

-- The clock and the bus port take their time as `BusClock` says, and no other call of the loop takes
-- longer; the calls before it take any time.
pub record ObserveClock {S : Type 0} (sdk : ObserveSdk S) (port : BusPort S) (now_ns : S → ℕ)
    : Type 0 where
  pub bus : BusClock sdk.time_us port now_ns
  pub get_char : (s : S) → Within bus.lag (now_ns s) (now_ns (sdk.get_char s).1)
  pub print : (text : List ℕ) (s : S) → Within bus.lag (now_ns s) (now_ns (sdk.print text s))
  pub is_connected : (s : S) → now_ns s ≤ now_ns (sdk.is_connected s).1
  pub sleep_ms : (ms : ℕ) (s : S) → now_ns s ≤ now_ns (sdk.sleep_ms ms s)

-- `typed` is what has been read of the serial port: `get_char` adds the character that it gives, and
-- no other call reads one.
pub record Serial {S : Type 0} (sdk : ObserveSdk S) (port : BusPort S) (typed : S → List ℕ)
    : Type 0 where
  pub get_char : (s : S) → typed (sdk.get_char s).1 ≡ typed s ++ given (sdk.get_char s).0
  pub time_us : (s : S) → typed (sdk.time_us s).1 ≡ typed s
  pub is_connected : (s : S) → typed (sdk.is_connected s).1 ≡ typed s
  pub sleep_ms : (ms : ℕ) (s : S) → typed (sdk.sleep_ms ms s) ≡ typed s
  pub print : (text : List ℕ) (s : S) → typed (sdk.print text s) ≡ typed s
  pub bus : Untouched typed port

-- The host opens the serial port, at the latest when it has been waited for so many times.
abbrev pub Opens : {S : Type 0} → ObserveSdk S → ℕ → S → Type 0
Opens sdk zero s = (sdk.is_connected s).0 ≡ true
Opens sdk (suc waits) s =
    ((sdk.is_connected s).0 ≡ true)
    ⊎ Opens sdk waits (sdk.sleep_ms port_wait_ms (sdk.is_connected s).1)

length-command_for : (stage : NegotiationStage) → length (frame_to_send (command_for stage)) ≤ 9
unfolding frame_to_send put_outs command_for
length-command_for enter_config = omega arith
length-command_for set_analog = omega arith
length-command_for leave_config = omega arith
length-command_for polling = omega arith

length-command_of : (observer : Observer) → length (frame_to_send (command_of observer)) ≤ 9
unfolding frame_to_send put_outs
length-command_of observer = elim (Mode-cases observer.mode) [
  | inl e ↦ rw e (omega arith)
  | inr e ↦ rw e (length-command_for observer.master.stage)
]

module _ {S : Type 0} (sdk : ObserveSdk S) (port : BusPort S) (now_ns : S → ℕ)
    (clock : ObserveClock sdk port now_ns) (typed : S → List ℕ)
    (serial : Serial sdk port typed) where
  -- A step of the loop takes a few calls' time and reads nothing but what it notes.
  abbrev Quiet : ℕ → S → S → Type 0
  Quiet calls s s' = Within (calls * clock.bus.lag) (now_ns s) (now_ns s') × (typed s' ≡ typed s)

  print_answer-Quiet : (reply : Option Answer) (s : S) → Quiet 1 s (print_answer sdk port reply s)
  print_answer-Quiet none s = (omega arith, refl)
  print_answer-Quiet (some reply) s =
      let p = clock.print (answer_text reply) s in (omega arith, serial.print (answer_text reply) s)

  print_link_change-Quiet :
      (link : Option (LinkState × LinkState × FaultCause)) (s : S)
      → Quiet 1 s (print_link_change sdk port link s)
  print_link_change-Quiet none s = (omega arith, refl)
  print_link_change-Quiet (some (was, now, fault)) s =
      let p = clock.print (print_link was now fault) s in
      (omega arith, serial.print (print_link was now fault) s)

  print_due-Quiet :
      (trace : Option (List WireByte × ℕ)) (s : S) → Quiet 1 s (print_due sdk port trace s)
  print_due-Quiet none s = (omega arith, refl)
  print_due-Quiet (some (frame, completed)) s =
      let p = clock.print (print_trace frame completed) s in
      (omega arith, serial.print (print_trace frame completed) s)

  read_command-Heard :
      (observer : Observer) (s : S)
      → Heard (typed s) observer
      → let (observer', s') = read_command sdk port observer s in
        Heard (typed s') observer' × Within (2 * clock.bus.lag) (now_ns s) (now_ns s')
  unfolding read_command
  read_command-Heard observer s h =
      let c = (sdk.get_char s).0 in
      let s₁ = (sdk.get_char s).1 in
      let (takes, same) = print_answer-Quiet (poll_command c observer).1 s₁ in
      let reads = clock.get_char s in
      (rw (same, serial.get_char s) (poll_command-Heard (typed s) observer c h), omega arith)

  pub wait_port-ends :
      (waits fuel : ℕ) (s : S)
      → Opens sdk waits s
      → waits < fuel
      → (s' : S) × (wait_port sdk port fuel s ≡ some s')
        × (now_ns s ≤ now_ns s')
        × (typed s' ≡ typed s)
  unfolding wait_port
  wait_port-ends waits zero s o f = absurd (omega arith)
  wait_port-ends zero (suc fuel) s o f =
      let asks = clock.is_connected s in
      ((sdk.is_connected s).1, rw (o, wait_port) refl, asks, serial.is_connected s)
  wait_port-ends (suc waits) (suc fuel) s (inl o) f =
      let asks = clock.is_connected s in
      ((sdk.is_connected s).1, rw (o, wait_port) refl, asks, serial.is_connected s)
  wait_port-ends (suc waits) (suc fuel) s (inr o) f =
      let s₁ = (sdk.is_connected s).1 in
      let s₂ = sdk.sleep_ms port_wait_ms s₁ in
      let asks = clock.is_connected s in
      let sleeps = clock.sleep_ms port_wait_ms s₁ in
      let same = serial.sleep_ms port_wait_ms s₁ ∙ serial.is_connected s in
      elim (Bool-cases (sdk.is_connected s).0) [
        | inl e ↦ (s₁, rw (e, wait_port) refl, asks, serial.is_connected s)
        | inr e ↦
            let (s', i, t, r) = wait_port-ends waits fuel s₂ o (omega arith) in
            (s', rw (e, wait_port) i, omega arith, r ∙ same)
      ]

  pub read_period-ends :
      (begin noted : ℕ)
      → noted ≡ begin / 1000 % u32_mod
      → (fuel : ℕ) (observer : Observer) (s : S) → Heard (typed s) observer
      → begin ≤ now_ns s
      → now_ns s ≤ begin + 200000000000
      → begin + 8001000 < now_ns s + fuel
      → 0 < fuel
      → (observer' : Observer) × (s' : S) × (read_period sdk port fuel noted observer s
          ≡ some (observer', s'))
        × Heard (typed s') observer'
        × (begin / 1000 + 8000 ≤ now_ns s' / 1000)
        × (now_ns s ≤ now_ns s')
        × (now_ns s' ≤ begin + 201000000000)
  unfolding read_period
  read_period-ends begin noted e zero observer s h b r f p = absurd (omega arith)
  read_period-ends begin noted e (suc fuel) observer s h b r f p =
      let s₁ = (sdk.time_us s).1 in
      let passes = clock.bus.passes s in
      let takes = clock.bus.reads s in
      let l = clock.bus.lag_bound in
      let h₁ : Heard (typed s₁) observer = rw (serial.time_us s) h in
      let since = elapsed sdk.time_us port now_ns clock.bus begin noted s b (omega arith) e in
      elim (Bool-cases (ltb (u32_sub (sdk.time_us s).0 noted) poll_period_us)) [
        | inr t ↦
            let over = ltb-false t in
            (
              observer,
              s₁,
              rw (t, read_period) refl,
              h₁,
              omega (arith, since),
              omega arith,
              omega arith,
            )
        | inl t ↦
            let early = ltb-true t in
            let (observer₂, s₂) = read_command sdk port observer s₁ in
            let (h₂, commands) = read_command-Heard observer s₁ h₁ in
            let (observer', s', i, h', j, k, m) =
              read_period-ends begin noted e fuel observer₂ s₂ h₂ (omega arith)
                (omega (arith, since)) (omega arith) (omega (arith, since)) in
            (observer', s', rw (t, read_period) i, h', j, omega arith, m)
      ]

  -- The frame of a round, with its lines.
  pub observe_once-Heard :
      (observer : Observer) (start elapsed_us : ℕ) (s : S)
      → Heard (typed s) observer
      → let (observer', shown, s') = observe_once port observer start elapsed_us s in
        let after = print_due sdk port shown.trace (print_link_change sdk port shown.link s') in
        Heard (typed after) observer'
        × Within (200000 + (23 * clock.bus.lag)) (now_ns s) (now_ns after)
  unfolding observe_once
  observe_once-Heard observer start elapsed_us s h =
      let frame = frame_to_send (command_of observer) in
      let ex = exchange_frame port frame s in
      let x : Exchanged = record { wire = ex.frame; completed = ex.done } in
      let (observer', shown) = show observer x start elapsed_us in
      let takes =
        exchange_frame-Within sdk.time_us port now_ns clock.bus frame s
          (length-command_of observer) in
      let (link, link_same) = print_link_change-Quiet shown.link ex.port in
      let (trace, trace_same) =
        print_due-Quiet shown.trace (print_link_change sdk port shown.link ex.port) in
      (
        rw (trace_same, link_same, exchange_frame-view typed port serial.bus frame s)
            (show-Heard (typed s) observer x start elapsed_us h),
        omega arith,
      )
