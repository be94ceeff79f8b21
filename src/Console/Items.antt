-- ===== src/Console/Items.antt =====
-- The lists of a trace line (src/core/bus_trace.cpp), as a host reads them item by item.
use pico_sg2hid.Common.{
  ℕ, zero, suc, ◌+◌, ◌≤◌, ◌<◌, ◌≡◌, ◌∙◌, refl, ap, inl, inr, Bool-cases, true, Option, none, some,
  List, [], ◌∷◌, ◌++◌, map, arith, ltb, if◌then◌else◌, length, get_or,
}
use pico_sg2hid.Trace.{WireByte, zero_wire}
use pico_sg2hid.Trace.Writer.{listed, sep}
use pico_sg2hid.Host.{
  split, split-listed, Above, Above-weaken, Above-append, tabulate, map-tabulate,
}

-- The values of the first bytes of a frame, and nothing for the others.
abbrev pub first : (WireByte → ℕ) → ℕ → List WireByte → List (Option ℕ)
first value k [] = []
first value zero (byte ∷ frame) = none ∷ first value zero frame
first value (suc k) (byte ∷ frame) = some (value byte) ∷ first value k frame

tabulate_shift {ℓ} :
    {A : Type ℓ} (f g : ℕ → A)
    → ((j : ℕ) → f (suc j) ≡ g j)
    → (n i : ℕ) → tabulate f n (suc i) ≡ tabulate g n i
tabulate_shift f g e zero i = refl
tabulate_shift f g e (suc n) i =
    let next : suc i + 1 ≡ suc (i + 1) = omega arith in
    rw (next, e i, tabulate_shift f g e n (i + 1)) refl

tabulate_ext {ℓ} :
    {A : Type ℓ} (f g : ℕ → A) → ((j : ℕ) → f j ≡ g j) → (n i : ℕ) → tabulate f n i ≡ tabulate g n i
tabulate_ext f g e zero i = refl
tabulate_ext f g e (suc n) i = rw (e i, tabulate_ext f g e n (i + 1)) refl

-- The value of byte `i`, if it is one of the first `k`.
abbrev pub given : (WireByte → ℕ) → ℕ → List WireByte → ℕ → Option ℕ
given value k frame i = if ltb i k then some (value (get_or frame i zero_wire)) else none

given_behind :
    (value : WireByte → ℕ) (k : ℕ) (byte : WireByte) (frame : List WireByte) (j : ℕ)
    → given value (suc k) (byte ∷ frame) (suc j) ≡ given value k frame j
given_behind value k byte frame j =
    let e : ltb (suc j) (suc k) ≡ ltb j k = ground arith in rw e refl

given_none :
    (value : WireByte → ℕ) (byte : WireByte) (frame : List WireByte) (j : ℕ)
    → given value 0 (byte ∷ frame) (suc j) ≡ given value 0 frame j
given_none value byte frame j = let e : ltb (suc j) 0 ≡ ltb j 0 = ground arith in rw e refl

pub tabulate-first :
    (value : WireByte → ℕ) (k : ℕ) (frame : List WireByte)
    → tabulate (given value k frame) (length frame) 0 ≡ first value k frame
tabulate-first value k [] = refl
tabulate-first value zero (byte ∷ frame) = ap (◌∷◌ none) (
    tabulate_shift (given value 0 (byte ∷ frame)) (given value 0 frame)
      (given_none value byte frame) (length frame) 0
    ∙ tabulate-first value zero frame)
tabulate-first value (suc k) (byte ∷ frame) =
    let here : ltb 0 (suc k) ≡ true = ground arith in
    rw here (
      ap (◌∷◌ (some (value byte))) (
        tabulate_shift (given value (suc k) (byte ∷ frame)) (given value k frame)
          (given_behind value k byte frame) (length frame) 0
        ∙ tabulate-first value k frame))

pub tabulate-map :
    (value : WireByte → ℕ) (frame : List WireByte)
    → tabulate (λ i. some (value (get_or frame i zero_wire))) (length frame) 0
      ≡ map (λ byte. some (value byte)) frame
tabulate-map value [] = refl
tabulate-map value (byte ∷ frame) = ap (◌∷◌ (some (value byte))) (
    tabulate_shift (λ i. some (value (get_or (byte ∷ frame) i zero_wire)))
      (λ i. some (value (get_or frame i zero_wire))) (λ j. refl) (length frame) 0
    ∙ tabulate-map value frame)

-- What is read from the items of a list that is not empty.
pub items-tabulate :
    (read : List ℕ → Option ℕ) (text : ℕ → List ℕ) (value : ℕ → Option ℕ) (n : ℕ)
    → 1 ≤ n
    → ((i : ℕ) → Above b',' (text i))
    → ((i : ℕ) → read (text i) ≡ value i)
    → map read (split b',' (listed text n 0)) ≡ tabulate value n 0
items-tabulate read text value zero one above reads = absurd (omega arith)
items-tabulate read text value (suc n) one above reads =
    ap (map read) (split-listed text above n)
    ∙ map-tabulate read text (suc n) 0
    ∙ tabulate_ext (λ j. read (text j)) value reads (suc n) 0

pub Above-listed :
    (at : ℕ) (text : ℕ → List ℕ)
    → at < b','
    → ((i : ℕ) → Above b',' (text i))
    → (n i : ℕ) → Above at (listed text n i)
Above-listed at text low above zero i = tt
Above-listed at text low above (suc n) i =
    Above-append at (sep i) (text i ++ listed text n (i + 1))
      (elim (Bool-cases (ltb 0 i)) [ inl e ↦ rw e (low, tt) | inr e ↦ rw e tt ])
      (Above-append at (text i) (listed text n (i + 1))
        (Above-weaken at b',' (text i) (omega arith) (above i))
        (Above-listed at text low above n (i + 1)))
