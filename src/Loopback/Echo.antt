-- ===== src/Loopback/Echo.antt =====
-- What a match of the loopback firmware says (src/app/loopback.cpp).
use mathlib.Core.List.{append_assoc, append-nil}
use pico_sg2hid.Common.{
  ℕ, zero, suc, ◌≤◌, ◌≡◌, ◌↔◌, ◌≢◌, inl, inr, refl, sym, ap, ◌∙◌, Bool, true, false, ◌&&◌, Option,
  none, some, Option-cases, List, [], ◌∷◌, ◌++◌, arith, ◌==◌, length, get_or, set, take, replicate,
  take-append, take_short, length-append, get_or-append, set-append,
}
use pico_sg2hid.Protocol.{att_setup_us}
use pico_sg2hid.Trace.{WireByte, zero_wire}
use pico_sg2hid.Bus.{BusPort, Exchange, exchange_frame}
use pico_sg2hid.Bus.Loop.{
  exchange_one, exchanges, exchanges_answered, exchanges_unanswered, exchange_frame-exchanges,
}
use pico_sg2hid.Loopback.{LoopReadings, put_sent, wire_of, came_back, print_loopback, longest_seq}

-- The frame of some bytes, before it is exchanged.
abbrev pub blank : List ℕ → List WireByte
blank [] = []
blank (out ∷ sent) = record zero_wire { out = out } ∷ blank sent

length-blank : (sent : List ℕ) → length (blank sent) ≡ length sent
length-blank [] = refl
length-blank (out ∷ sent) = ap suc (length-blank sent)

-- As many zeroed bytes as there are bytes to send, before some others.
zeros : List ℕ → List WireByte → List WireByte
zeros [] others = others
zeros (out ∷ sent) others = zero_wire ∷ zeros sent others

replicate-zeros :
    (sent : List ℕ) (k : ℕ)
    → length sent ≤ k
    → (others : List WireByte) × (replicate k zero_wire ≡ zeros sent others)
unfolding zeros
replicate-zeros [] k h = (replicate k zero_wire, refl)
replicate-zeros (out ∷ sent) zero h = absurd (omega arith)
replicate-zeros (out ∷ sent) (suc k) h =
    let (others, e) = replicate-zeros sent k (omega arith) in (others, ap (◌∷◌ zero_wire) e)

blank-append : (xs ys : List ℕ) → blank (xs ++ ys) ≡ blank xs ++ blank ys
blank-append [] ys = refl
blank-append (x ∷ xs) ys = ap (◌∷◌ (record zero_wire { out = x })) (blank-append xs ys)

put_sent-blank :
    (rest pre : List ℕ) (others : List WireByte)
    → put_sent (length rest) (length pre) (pre ++ rest) (blank pre ++ zeros rest others)
      ≡ blank (pre ++ rest) ++ others
unfolding put_sent zeros
put_sent-blank [] pre others = rw (append-nil pre) refl
put_sent-blank (out ∷ rest) pre others =
    let frame = blank pre ++ zero_wire ∷ zeros rest others in
    let n = length-blank pre in
    let got : get_or frame (length pre) zero_wire ≡ zero_wire =
      ap (λ i. get_or frame i zero_wire) (sym n)
      ∙ get_or-append (blank pre) zero_wire zero_wire (zeros rest others) in
    let put : set frame (length pre) (record zero_wire { out = out })
        ≡ blank (pre ++ out ∷ []) ++ zeros rest others =
      ap (λ i. set frame i (record zero_wire { out = out })) (sym n)
      ∙ set-append (blank pre) zero_wire (record zero_wire { out = out }) (zeros rest others)
      ∙ sym (append_assoc (blank pre) (record zero_wire { out = out } ∷ []) (zeros rest others))
      ∙ ap (λ l. l ++ zeros rest others) (sym (blank-append pre (out ∷ []))) in
    let at : suc (length pre) ≡ length (pre ++ out ∷ []) =
      omega (arith, length-append pre (out ∷ [])) in
    let ih = put_sent-blank rest (pre ++ out ∷ []) others in
    let written =
      ap
        (λ w. set frame (length pre) (record w { out = get_or (pre ++ out ∷ rest) (length pre) 0 }))
        got
      ∙ ap (λ b. set frame (length pre) (record zero_wire { out = b }))
          (get_or-append pre out 0 rest)
      ∙ put in
    ap (put_sent (length rest) (suc (length pre)) (pre ++ out ∷ rest)) written
    ∙ rw (at, ← append_assoc pre (out ∷ []) rest) ih

wire_of-blank : (sent : List ℕ) → length sent ≤ longest_seq → wire_of sent ≡ blank sent
unfolding wire_of
wire_of-blank sent h =
    let (others, e) = replicate-zeros sent longest_seq h in
    let n = length-blank sent in
    ap (λ wire. take (length sent) (put_sent (length sent) 0 sent wire)) e
    ∙ ap (take (length sent)) (put_sent-blank sent [] others)
    ∙ take-append (length sent) (blank sent) others (omega arith)
    ∙ take_short (length sent) (blank sent) (omega arith)

one_more :
    (d n b o : ℕ) (rest : Bool)
    → (((suc d == suc n) && ((b == o) && rest)) ≡ true) ↔ ((b ≡ o) × (((d == n) && rest) ≡ true))
one_more d n b o true = ground arith
one_more d n b o false = ground arith

nothing_back : (n : ℕ) (rest : Bool) → ((0 == suc n) && rest) ≢ true
nothing_back n rest h = ground arith

none_back : {o : Option ℕ} {b : ℕ} → o ≡ none → o ≢ some b
none_back e h = let k = sym e ∙ h in ground arith

some_back : {o : Option ℕ} {a b : ℕ} → o ≡ some a → o ≡ some b → a ≡ b
some_back e h = let k = sym e ∙ h in ground arith

module _ {S : Type 0} (port : BusPort S) where
  -- Every byte comes back as it was sent, the gap and the wait for ACK included.
  abbrev pub Echoes : Bool → List ℕ → S → Type 0
  Echoes first [] s = Unit {0}
  Echoes first (out ∷ rest) s =
      let (got, s') = exchange_one port first (record zero_wire { out = out }) (blank rest) s in
      (got.in_byte ≡ some out) × Echoes false rest s'

  abbrev matches : List ℕ → Exchange S → Bool
  matches sent after = (after.done == length sent) && came_back sent after.frame

  matches-Echoes :
      (first : Bool) (sent : List ℕ) (s : S)
      → (matches sent (exchanges port first (blank sent) s) ≡ true) ↔ Echoes first sent s
  unfolding came_back exchanges
  matches-Echoes first [] s = ((λ _. tt), (λ _. refl))
  matches-Echoes first (out ∷ rest) s =
      let w = record zero_wire { out = out } in
      let got = exchange_one port first w (blank rest) s in
      elim (Option-cases got.0.in_byte) [
        | inl e ↦
            rw (exchanges_unanswered port first w (blank rest) s got refl e)
              ((λ h. absurd (nothing_back (length rest) _ h)), (λ h. absurd (none_back e h.0)))
        | inr (byte, e) ↦
            let (ih, ih') = matches-Echoes false rest got.1 in
            let after = exchanges port false (blank rest) got.1 in
            let (split, join) =
              one_more after.done (length rest) byte out (came_back rest after.frame) in
            rw (exchanges_answered port first w (blank rest) s got byte refl e) (
              (λ h. let (same, more) = split h in (e ∙ ap some same, ih more)),
              (λ h. join (some_back e h.0, ih' h.1)),
            )
      ]

  -- For a sequence of at most nine bytes, over any port, the loopback prints a match exactly when every
  -- byte came back as it was sent: the first behind the setup time, each later one behind a gap,
  -- and each but the last with its ACK.
  pub is_match-Echoes :
      (index : ℕ) (sent : List ℕ) (readings : LoopReadings) (s : S)
      → length sent ≤ longest_seq
      → ((print_loopback port index sent readings s).0.is_match ≡ true)
        ↔ Echoes true sent (port.bus_wait_us att_setup_us (port.att_assert s))
  unfolding print_loopback
  is_match-Echoes index sent readings s h =
      let selected = port.bus_wait_us att_setup_us (port.att_assert s) in
      let e =
        ap (λ wire. exchange_frame port wire s) (wire_of-blank sent h)
        ∙ exchange_frame-exchanges port (blank sent) s in
      let same : (print_loopback port index sent readings s).0.is_match
          ≡ matches sent (exchanges port true (blank sent) selected) =
        ap (matches sent) e in
      rw same (matches-Echoes true sent selected)
