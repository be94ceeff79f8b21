-- ===== src/MasterPort/Clock.antt =====
-- The waits of the master's bus (src/hal/pio_port.cpp), over any hardware whose clock goes on.
use pico_sg2hid.Common.{
  ℕ, zero, suc, ◌+◌, ◌-◌, ◌*◌, ◌/◌, ◌%◌, ◌≤◌, ◌<◌, ◌≡◌, ◌⊎◌, refl, ap, ◌∙◌, inl, inr, Bool, true,
  false, Bool-cases, Option, none, some, arith, ltb, ltb-true, ltb-false, u32_mod, u32_sub, not,
  if◌then◌else◌,
}
use pico_sg2hid.MasterPort.{MasterSdk, rx_within, clk_reaches, probe_budget_us, master_gpio}
use pico_sg2hid.Pins.{clk}

-- From one time to another at most so much passes.
abbrev pub Within : ℕ → ℕ → ℕ → Type 0
Within lag before after = (before ≤ after) × (after ≤ before + lag)

-- The clock `time_us_32` of the SDK: microseconds since some start, wrapped around at 32 bits. Each
-- reading of it takes some time, and no call that a wait makes takes longer than a second.
pub record Clock {S : Type 0} (sdk : MasterSdk S) (now_ns : S → ℕ) : Type 0 where
  pub lag : ℕ
  pub lag_bound : lag ≤ 1000000000
  pub reported : (s : S) → (sdk.time_us s).0 ≡ now_ns (sdk.time_us s).1 / 1000 % u32_mod
  pub passes : (s : S) → now_ns s < now_ns (sdk.time_us s).1
  pub time_us : (s : S) → now_ns (sdk.time_us s).1 ≤ now_ns s + lag
  pub rx_is_empty : (s : S) → Within lag (now_ns s) (now_ns (sdk.rx_is_empty s).1)
  pub gpio_get : (gpio : ℕ) (s : S) → Within lag (now_ns s) (now_ns (sdk.gpio_get gpio s).1)
  pub sm_put : (word : ℕ) (s : S) → Within lag (now_ns s) (now_ns (sdk.sm_put word s))

-- The difference of two readings is the time between them.
pub u32_sub-elapsed :
    (begin now : ℕ)
    → begin ≤ now
    → now < begin + 4000000000000
    → u32_sub (now / 1000 % u32_mod) (begin / 1000 % u32_mod) ≡ now / 1000 - begin / 1000
u32_sub-elapsed begin now h g = omega arith

-- A reading less a reading at `begin` is the time since then.
pub time_us-elapsed :
    {S : Type 0} (sdk : MasterSdk S) (now_ns : S → ℕ) (clock : Clock sdk now_ns) (begin : ℕ) (s : S)
    → begin ≤ now_ns s
    → now_ns s < begin + 3000000000000
    → u32_sub (sdk.time_us s).0 (begin / 1000 % u32_mod)
      ≡ now_ns (sdk.time_us s).1 / 1000 - begin / 1000
time_us-elapsed sdk now_ns clock begin s h g =
    let r = clock.passes s in
    let r' = clock.time_us s in
    let l = clock.lag_bound in
    ap (λ now. u32_sub now (begin / 1000 % u32_mod)) (clock.reported s)
    ∙ u32_sub-elapsed begin (now_ns (sdk.time_us s).1) (omega arith) (omega arith)

-- The shape of the waits: asks until the answer is yes or the budget is over.
unfoldable poll : {S : Type 0} → MasterSdk S → (S → Bool × S) → ℕ → ℕ → ℕ → S → Option (Bool × S)
poll sdk ask zero start budget_us s = none
poll sdk ask (suc fuel) start budget_us s =
    let (is_done, s₁) = ask s in
    elim is_done [
      | true ↦ some (true, s₁)
      | false ↦
          (let (now, s₂) = sdk.time_us s₁ in
            elim (ltb budget_us (u32_sub now start)) [
              | true ↦ some (false, s₂)
              | false ↦ poll sdk ask fuel start budget_us s₂
            ])
    ]

abbrev pub has_received : {S : Type 0} → MasterSdk S → S → Bool × S
has_received sdk s = let (is_empty, s') = sdk.rx_is_empty s in (not is_empty, s')

abbrev pub has_level : {S : Type 0} → MasterSdk S → Bool → S → Bool × S
has_level sdk is_high s =
    let (level, s') = sdk.gpio_get (master_gpio clk) s in (if is_high then level else not level, s')

rx_within-poll :
    {S : Type 0} (sdk : MasterSdk S) (fuel start budget_us : ℕ) (s : S)
    → rx_within sdk fuel start budget_us s ≡ poll sdk (has_received sdk) fuel start budget_us s
unfolding rx_within poll
rx_within-poll sdk zero start budget_us s = refl
rx_within-poll sdk (suc fuel) start budget_us s =
    let s₂ = (sdk.time_us (sdk.rx_is_empty s).1).1 in
    elim (Bool-cases (sdk.rx_is_empty s).0) [
      | inr e ↦ rw (e, rx_within, poll) refl
      | inl e ↦
          elim (Bool-cases (ltb budget_us (u32_sub (sdk.time_us (sdk.rx_is_empty s).1).0 start))) [
            | inl t ↦ rw (e, t, rx_within, poll) refl
            | inr t ↦ rw (e, t, rx_within, poll) (rx_within-poll sdk fuel start budget_us s₂)
          ]
    ]

clk_reaches-poll :
    {S : Type 0} (sdk : MasterSdk S) (fuel : ℕ) (is_high : Bool) (start : ℕ) (s : S)
    → clk_reaches sdk fuel is_high start s
      ≡ poll sdk (has_level sdk is_high) fuel start probe_budget_us s
unfolding clk_reaches poll
clk_reaches-poll sdk zero is_high start s = refl
clk_reaches-poll sdk (suc fuel) is_high start s =
    let s₁ = (sdk.gpio_get (master_gpio clk) s).1 in
    elim (Bool-cases (has_level sdk is_high s).0) [
      | inl e ↦ rw (e, clk_reaches, poll) refl
      | inr e ↦ elim (Bool-cases (ltb probe_budget_us (u32_sub (sdk.time_us s₁).0 start))) [
        | inl t ↦ rw (e, t, clk_reaches, poll) refl
        | inr t ↦
            rw (e, t, clk_reaches, poll)
              (clk_reaches-poll sdk fuel is_high start (sdk.time_us s₁).1)
      ]
    ]

-- A wait by its questions, each with a reading of the clock behind it while the answer is no: until the
-- answer is yes or the budget since `start` is over.
pub data Asked {S : Type 0} (sdk : MasterSdk S) (ask : S → Bool × S) (start budget_us : ℕ)
    : S → Bool → S → Type 0 where
  answered : {s : S} → (ask s).0 ≡ true → Asked sdk ask start budget_us s true (ask s).1
  late :
      {s : S}
      → (ask s).0 ≡ false
      → budget_us < u32_sub (sdk.time_us (ask s).1).0 start
      → Asked sdk ask start budget_us s false (sdk.time_us (ask s).1).1
  again :
      {s s' : S} {is_done : Bool}
      → (ask s).0 ≡ false
      → u32_sub (sdk.time_us (ask s).1).0 start ≤ budget_us
      → Asked sdk ask start budget_us (sdk.time_us (ask s).1).1 is_done s'
      → Asked sdk ask start budget_us s is_done s'

module _ {S : Type 0} (sdk : MasterSdk S) (now_ns : S → ℕ) (clock : Clock sdk now_ns) where
  -- How a wait from a state ends: after the time `begin`, with the budget, before the time `top`.
  -- Either the question was answered with yes, or the whole budget is over.
  abbrev pub Ended : (S → Bool × S) → ℕ → ℕ → ℕ → S → Option (Bool × S) → Type 0
  Ended ask begin budget_us top s outcome =
      (is_done : Bool) × (s' : S) × (outcome ≡ some (is_done, s'))
      × Asked sdk ask (begin / 1000 % u32_mod) budget_us s is_done s'
      × (now_ns s ≤ now_ns s')
      × (now_ns s' ≤ top + (2 * clock.lag))
      × ((is_done ≡ true) ⊎ ((is_done ≡ false) × (begin / 1000 + budget_us < now_ns s' / 1000)))

  module _ (ask : S → Bool × S) (asking : (s : S) → Within clock.lag (now_ns s) (now_ns (ask s).1))
      (begin budget_us top : ℕ) (enough : begin + ((budget_us + 1) * 1000) ≤ top)
      (few : top < begin + 1000000000000) where
    poll-Ended :
        (fuel : ℕ) (s : S)
        → begin ≤ now_ns s
        → now_ns s ≤ top
        → begin + ((budget_us + 1) * 1000) < now_ns s + fuel
        → 0 < fuel
        → Ended ask begin budget_us top s (poll sdk ask fuel (begin / 1000 % u32_mod) budget_us s)
    unfolding poll
    poll-Ended zero s b t f p = absurd (omega arith)
    poll-Ended (suc fuel) s b t f p =
        let s₁ = (ask s).1 in
        let s₂ = (sdk.time_us s₁).1 in
        let (a, a') = asking s in
        let l = clock.lag_bound in
        let r = clock.passes s₁ in
        let r' = clock.time_us s₁ in
        elim (Bool-cases (ask s).0) [
          | inl e ↦ (true, s₁, rw (e, poll) refl, answered e, a, omega arith, inl refl)
          | inr e ↦
              let elapsed = time_us-elapsed sdk now_ns clock begin s₁ (omega arith) (omega arith) in
              elim (Bool-cases
                (ltb budget_us (u32_sub (sdk.time_us s₁).0 (begin / 1000 % u32_mod)))) [
                  | inl x ↦
                      let over = ltb-true x in
                      (
                        false,
                        s₂,
                        rw (e, x, poll) refl,
                        late e (omega arith),
                        omega arith,
                        omega arith,
                        inr (refl, omega arith),
                      )
                  | inr x ↦
                      let within = ltb-false x in
                      let (d, s', o, k, n, u, w) =
                        poll-Ended fuel s₂ (omega arith) omega arith omega arith omega arith in
                      (d, s', rw (e, x, poll) o, again e (omega arith) k, omega arith, u, w)
                ]
        ]

  module _ (begin top fuel : ℕ) (s : S) where
    pub rx_within-Ended :
        (budget_us : ℕ)
        → begin + ((budget_us + 1) * 1000) ≤ top
        → top < begin + 1000000000000
        → begin ≤ now_ns s
        → now_ns s ≤ top
        → begin + ((budget_us + 1) * 1000) < now_ns s + fuel
        → 0 < fuel
        → Ended
            (has_received sdk)
            begin
            budget_us
            top
            s
            (rx_within sdk fuel (begin / 1000 % u32_mod) budget_us s)
    rx_within-Ended budget_us enough few =
        rw (rx_within-poll sdk fuel (begin / 1000 % u32_mod) budget_us s)
          (poll-Ended (has_received sdk) clock.rx_is_empty begin budget_us top enough few fuel s)

    pub clk_reaches-Ended :
        (is_high : Bool)
        → begin + ((probe_budget_us + 1) * 1000) ≤ top
        → top < begin + 1000000000000
        → begin ≤ now_ns s
        → now_ns s ≤ top
        → begin + ((probe_budget_us + 1) * 1000) < now_ns s + fuel
        → 0 < fuel
        → Ended
            (has_level sdk is_high)
            begin
            probe_budget_us
            top
            s
            (clk_reaches sdk fuel is_high (begin / 1000 % u32_mod) s)
    clk_reaches-Ended is_high enough few =
        rw (clk_reaches-poll sdk fuel is_high (begin / 1000 % u32_mod) s) (
          poll-Ended (has_level sdk is_high) (clock.gpio_get (master_gpio clk)) begin
            probe_budget_us top enough few fuel s)
