-- ===== src/Bus/Loop.antt =====
-- The frame loop of src/hal/bus_frame.cpp against a recursion over the bytes of the frame.
use mathlib.Core.List.{append_assoc}
use native.Mathlib.Nat.{add-zero, zero-add}
use pico_sg2hid.Common.{
  ℕ, suc, ◌+◌, ◌≡◌, refl, ◌∙◌, Bool, true, false, none, some, inl, inr, Option-cases, List, [], ◌∷◌,
  ◌++◌, arith, ltb, if◌then◌else◌, length, length-append, get_or-append, set-append,
}
use pico_sg2hid.Protocol.{att_setup_us, byte_gap_us}
use pico_sg2hid.Trace.{WireByte, zero_wire}
use pico_sg2hid.Bus.{
  ByteExchange, BusPort, Exchange, attempt, put_elapsed, put_in, exchange_loop, exchange_frame,
}

abbrev pub has_more : List WireByte → Bool
has_more [] = false
has_more (w ∷ rest) = true

more_left :
    (pre : List WireByte) (w : WireByte) (rest : List WireByte)
    → ltb (length pre + 1) (length (pre ++ w ∷ rest)) ≡ has_more rest
more_left pre w [] = ground (arith, length-append pre (w ∷ []))
more_left pre w (x ∷ rest) = ground (arith, length-append pre (w ∷ x ∷ rest))

put_elapsed-append :
    (pre : List WireByte) (w : WireByte) (rest : List WireByte) (us : ℕ)
    → put_elapsed (pre ++ w ∷ rest) (length pre) us ≡ pre ++ record w { elapsed_us = us } ∷ rest
unfolding put_elapsed
put_elapsed-append pre w rest us = rw (get_or-append pre w zero_wire rest) (set-append pre w _ rest)

put_in-append :
    (pre : List WireByte) (w : WireByte) (rest : List WireByte) (byte : ℕ)
    → put_in (pre ++ w ∷ rest) (length pre) byte ≡ pre ++ record w { in_byte = byte } ∷ rest
unfolding put_in
put_in-append pre w rest byte = rw (get_or-append pre w zero_wire rest) (set-append pre w _ rest)

abbrev is_first : List WireByte → Bool
is_first [] = true
is_first (x ∷ pre) = false

is_first-append : (pre : List WireByte) (v : WireByte) → is_first (pre ++ v ∷ []) ≡ false
is_first-append [] v = refl
is_first-append (x ∷ pre) v = refl

module _ {S : Type 0} (port : BusPort S) where
  -- One byte of a frame: after a gap unless it is the first, waiting for ACK unless it is the last.
  unfoldable pub exchange_one : Bool → WireByte → List WireByte → S → ByteExchange × S
  exchange_one first w rest s =
      port.exchange_byte w.out (has_more rest) (if first then s else port.bus_wait_us byte_gap_us s)

  -- The bytes of a frame in order, up to the first that does not complete.
  unfoldable pub exchanges : Bool → List WireByte → S → Exchange S
  exchanges first [] s = record { frame = []; done = 0; port = s }
  exchanges first (w ∷ rest) s =
      let (got, s') = exchange_one first w rest s in
      let noted = record w { elapsed_us = got.elapsed_us } in
      elim got.in_byte [
        | none ↦ record { frame = noted ∷ rest; done = 0; port = s' }
        | some byte ↦
            let after = exchanges false rest s' in
            record {
              frame = record noted { in_byte = byte } ∷ after.frame;
              done = suc after.done;
              port = after.port;
            }
      ]

  abbrev behind : List WireByte → Exchange S → Exchange S
  behind pre x = record x { frame = pre ++ x.frame; done = length pre + x.done }

  attempt_lem :
      (pre : List WireByte) (w : WireByte) (rest : List WireByte) (s : S)
      → attempt port (length pre) (pre ++ w ∷ rest) s ≡ exchange_one (is_first pre) w rest s
  unfolding attempt exchange_one
  attempt_lem [] w [] s = ground arith
  attempt_lem [] w (x ∷ rest) s = ground arith
  attempt_lem (x ∷ pre) w rest s =
      rw (get_or-append (x ∷ pre) w zero_wire rest, more_left (x ∷ pre) w rest, attempt)
        (ground arith)

  loop_none :
      (left done : ℕ) (frame : List WireByte) (s : S) (a : ByteExchange × S)
      → attempt port done frame s ≡ a
      → a.0.in_byte ≡ none
      → exchange_loop port (suc left) done frame s
        ≡ record { frame = put_elapsed frame done a.0.elapsed_us; done = done; port = a.1 }
  unfolding exchange_loop
  loop_none left done frame s a ea e =
      let e' : (attempt port done frame s).0.in_byte ≡ none = rw ea e in
      rw (← ea) (rw (e', exchange_loop))

  loop_some :
      (left done : ℕ) (frame : List WireByte) (s : S) (a : ByteExchange × S) (byte : ℕ)
      → attempt port done frame s ≡ a
      → a.0.in_byte ≡ some byte
      → exchange_loop port (suc left) done frame s
        ≡ exchange_loop port left
            (done + 1)
            (put_in (put_elapsed frame done a.0.elapsed_us) done byte)
            a.1
  unfolding exchange_loop
  loop_some left done frame s a byte ea e =
      let e' : (attempt port done frame s).0.in_byte ≡ some byte = rw ea e in
      rw (← ea) (rw (e', exchange_loop))

  pub exchanges_unanswered :
      (first : Bool) (w : WireByte) (rest : List WireByte) (s : S) (a : ByteExchange × S)
      → exchange_one first w rest s ≡ a
      → a.0.in_byte ≡ none
      → exchanges first (w ∷ rest) s
        ≡ record { frame = record w { elapsed_us = a.0.elapsed_us } ∷ rest; done = 0; port = a.1 }
  unfolding exchanges
  exchanges_unanswered first w rest s a ea e =
      let e' : (exchange_one first w rest s).0.in_byte ≡ none = rw ea e in
      rw (← ea) (rw (e', exchanges))

  pub exchanges_answered :
      (first : Bool) (w : WireByte) (rest : List WireByte) (s : S) (a : ByteExchange × S) (byte : ℕ)
      → exchange_one first w rest s ≡ a
      → a.0.in_byte ≡ some byte
      → let after = exchanges false rest a.1 in
        exchanges first (w ∷ rest) s ≡ record {
          frame = record w { in_byte = byte; elapsed_us = a.0.elapsed_us } ∷ after.frame;
          done = suc after.done;
          port = after.port;
        }
  unfolding exchanges
  exchanges_answered first w rest s a byte ea e =
      let e' : (exchange_one first w rest s).0.in_byte ≡ some byte = rw ea e in
      rw (← ea) (rw (e', exchanges))

  shift :
      (pre : List WireByte) (v : WireByte) (rest : List WireByte) (s : S)
      → exchange_loop port (length rest) (length (pre ++ v ∷ [])) ((pre ++ v ∷ []) ++ rest) s
        ≡ behind (pre ++ v ∷ []) (exchanges (is_first (pre ++ v ∷ [])) rest s)
      → let after = exchanges false rest s in
        exchange_loop port (length rest) (length pre + 1) (pre ++ v ∷ rest) s
        ≡ behind pre (record { frame = v ∷ after.frame; done = suc after.done; port = after.port })
  shift pre v rest s ih =
      let after = exchanges false rest s in
      let el : length pre + 1 ≡ length (pre ++ v ∷ []) =
        omega (arith, length-append pre (v ∷ [])) in
      let ed : length (pre ++ v ∷ []) + after.done ≡ length pre + suc after.done =
        omega (arith, length-append pre (v ∷ [])) in
      rw (el, ← append_assoc pre (v ∷ []) rest)
        (ih ∙ rw (is_first-append pre v, append_assoc pre (v ∷ []) after.frame, ed))

  loop-exchanges :
      (rest pre : List WireByte) (s : S)
      → exchange_loop port (length rest) (length pre) (pre ++ rest) s
        ≡ behind pre (exchanges (is_first pre) rest s)
  loop-exchanges [] pre s = unfold exchange_loop exchanges in rw add-zero
  loop-exchanges (w ∷ rest) pre s =
      let got = exchange_one (is_first pre) w rest s in
      elim (Option-cases got.0.in_byte) [
        | inl e ↦
            loop_none (length rest) (length pre) (pre ++ w ∷ rest) s got (attempt_lem pre w rest s)
              e
            ∙ rw (
              exchanges_unanswered (is_first pre) w rest s got refl e,
              put_elapsed-append pre w rest got.0.elapsed_us,
              add-zero,
            )
        | inr (byte, e) ↦
            loop_some (length rest) (length pre) (pre ++ w ∷ rest) s got byte
              (attempt_lem pre w rest s) e
            ∙ rw
                (
                  exchanges_answered (is_first pre) w rest s got byte refl e,
                  put_elapsed-append pre w rest got.0.elapsed_us,
                  put_in-append pre _ rest byte,
                )
                (shift pre _ rest got.1 (loop-exchanges rest (pre ++ _ ∷ []) got.1))
      ]

  -- The loop with its index over a mutable buffer, and the early exit, does what the recursion over
  -- the bytes does: ATT is asserted and the setup time waited for first, ATT is released last,
  -- whether the frame completed or not.
  pub exchange_frame-exchanges :
      (frame : List WireByte) (s : S)
      → exchange_frame port frame s ≡ (
          let after = exchanges true frame (port.bus_wait_us att_setup_us (port.att_assert s)) in
          record after { port = port.att_release after.port })
  unfolding exchange_frame
  exchange_frame-exchanges frame s =
      rw (loop-exchanges frame [] (port.bus_wait_us att_setup_us (port.att_assert s))) (rw zero-add)
