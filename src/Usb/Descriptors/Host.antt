-- ===== src/Usb/Descriptors/Host.antt =====
-- A host that walks a configuration descriptor, as the USB specification has it: no part of the
-- program. A descriptor is a block that begins with its length and its type.
use mathlib.Core.List.{append_assoc}
use pico_sg2hid.Common.{
  ℕ, zero, suc, ◌+◌, ◌*◌, ◌/◌, ◌%◌, ◌≤◌, ◌<◌, ◌≡◌, ◌∙◌, refl, sym, ap, subst, Bool, true, false,
  ◌&&◌, ◌||◌, not, Option, none, some, List, [], ◌∷◌, ◌++◌, arith, ltb, ◌==◌, ==_iff, if◌then◌else◌,
  length, length-append, get_or, take, drop,
}

abbrev pub concat : List (List ℕ) → List ℕ
concat [] = []
concat (block ∷ blocks) = block ++ concat blocks

abbrev pub IsBlock : List ℕ → Type 0
IsBlock [] = ⊥
IsBlock (size ∷ rest) = size ≡ suc (length rest)

abbrev pub AreBlocks : List (List ℕ) → Type 0
AreBlocks [] = Unit {0}
AreBlocks (block ∷ blocks) = IsBlock block × AreBlocks blocks

-- The blocks of some bytes; a block of length 0, or one that is cut short, is refused.
unfoldable pub walk : ℕ → List ℕ → Option (List (List ℕ))
walk fuel [] = some []
walk zero (size ∷ rest) = none
walk (suc fuel) (size ∷ rest) = elim (walk fuel (drop size (size ∷ rest))) [
  | none ↦ none
  | some blocks ↦
      if (size == 0) || ltb (suc (length rest)) size
      then none
      else some (take size (size ∷ rest) ∷ blocks)
]

take-block : (xs ys : List ℕ) → take (length xs) (xs ++ ys) ≡ xs
take-block [] ys = refl
take-block (x ∷ xs) ys = ap (◌∷◌ x) (take-block xs ys)

drop-block : (xs ys : List ℕ) → drop (length xs) (xs ++ ys) ≡ ys
drop-block [] ys = refl
drop-block (x ∷ xs) ys = drop-block xs ys

ltb_of_le : (a b : ℕ) → b ≤ a → ltb a b ≡ false
ltb_of_le a b h = ground arith

suc-is_zero : (n : ℕ) → (suc n == 0) ≡ false
suc-is_zero n = ground arith

walk-block :
    (fuel : ℕ) (rest behind : List ℕ) (blocks : List (List ℕ))
    → walk fuel behind ≡ some blocks
    → walk (suc fuel) (suc (length rest) ∷ (rest ++ behind))
      ≡ some ((suc (length rest) ∷ rest) ∷ blocks)
unfolding walk
walk-block fuel rest behind blocks e =
    let fits =
      ltb_of_le (suc (length (rest ++ behind))) (suc (length rest))
        (omega (arith, length-append rest behind)) in
    rw (walk, drop-block rest behind, e)
      (rw (fits, take-block rest behind, suc-is_zero (length rest)) refl)

walk-concat :
    (fuel : ℕ) (blocks : List (List ℕ))
    → AreBlocks blocks
    → length (concat blocks) ≤ fuel
    → walk fuel (concat blocks) ≡ some blocks
unfolding walk
walk-concat zero [] a f = refl
walk-concat (suc fuel) [] a f = refl
walk-concat fuel ([] ∷ blocks) (b, a) f = absurd b
walk-concat zero ((size ∷ rest) ∷ blocks) (b, a) f = absurd (omega arith)
walk-concat (suc fuel) ((size ∷ rest) ∷ blocks) (b, a) f =
    subst
      (λ first. walk (suc fuel) (first ∷ (rest ++ concat blocks)) ≡ some ((first ∷ rest) ∷ blocks))
      (sym b)
      (walk-block fuel rest (concat blocks) blocks
        (walk-concat fuel blocks a (omega (arith, length-append rest (concat blocks)))))

abbrev pub has_type : ℕ → List ℕ → Bool
has_type type block = get_or block 1 0 == type

abbrev word_at : ℕ → List ℕ → ℕ
word_at i block = get_or block i 0 + (256 * get_or block (i + 1) 0)

-- The numbers of the interfaces, the endpoints with their packet sizes, and the lengths of the
-- report descriptors that the HID descriptors name.
abbrev pub interfaces : List (List ℕ) → List ℕ
interfaces [] = []
interfaces (block ∷ blocks) =
    if has_type 4 block then get_or block 2 0 ∷ interfaces blocks else interfaces blocks

abbrev pub endpoints : List (List ℕ) → List (ℕ × ℕ)
endpoints [] = []
endpoints (block ∷ blocks) =
    if has_type 5 block
    then (get_or block 2 0, word_at 4 block) ∷ endpoints blocks
    else endpoints blocks

abbrev pub report_lens : List (List ℕ) → List ℕ
report_lens [] = []
report_lens (block ∷ blocks) =
    if has_type 0x21 block then word_at 7 block ∷ report_lens blocks else report_lens blocks

pub interfaces-append :
    (xs ys : List (List ℕ)) → interfaces (xs ++ ys) ≡ interfaces xs ++ interfaces ys
interfaces-append [] ys = refl
interfaces-append (x ∷ xs) ys = ground (arith, interfaces-append xs ys)

pub endpoints-append : (xs ys : List (List ℕ)) → endpoints (xs ++ ys) ≡ endpoints xs ++ endpoints ys
endpoints-append [] ys = refl
endpoints-append (x ∷ xs) ys = ground (arith, endpoints-append xs ys)

pub report_lens-append :
    (xs ys : List (List ℕ)) → report_lens (xs ++ ys) ≡ report_lens xs ++ report_lens ys
report_lens-append [] ys = refl
report_lens-append (x ∷ xs) ys = ground (arith, report_lens-append xs ys)

pub concat-append : (xs ys : List (List ℕ)) → concat (xs ++ ys) ≡ concat xs ++ concat ys
concat-append [] ys = refl
concat-append (x ∷ xs) ys =
    ap (λ rest. x ++ rest) (concat-append xs ys) ∙ sym (append_assoc x (concat xs) (concat ys))

pub AreBlocks-append : (xs ys : List (List ℕ)) → AreBlocks xs → AreBlocks ys → AreBlocks (xs ++ ys)
AreBlocks-append [] ys a b = b
AreBlocks-append (x ∷ xs) ys (p, a) b = (p, AreBlocks-append xs ys a b)

-- What a host takes from a configuration.
pub record Config : Type 0 where
  pub interface_numbers : List ℕ
  pub endpoint_sizes : List (ℕ × ℕ)
  pub report_descriptor_lens : List ℕ

abbrev pub is_counted_from : ℕ → List ℕ → Bool
is_counted_from n [] = true
is_counted_from n (i ∷ rest) = (i == n) && is_counted_from (n + 1) rest

abbrev lacks : ℕ → List (ℕ × ℕ) → Bool
lacks address [] = true
lacks address ((other, size) ∷ rest) = not (address == other) && lacks address rest

abbrev pub are_distinct : List (ℕ × ℕ) → Bool
are_distinct [] = true
are_distinct ((address, size) ∷ rest) = lacks address rest && are_distinct rest

-- The host refuses a configuration whose first block is no configuration descriptor, whose length is
-- not the one that block announces, whose interfaces are not as many as announced and numbered from
-- 0 on, or two of whose endpoints have one address.
abbrev pub accept : ℕ → List (List ℕ) → Option Config
accept size [] = none
accept size (head ∷ blocks) =
    if has_type 2 head
      && (word_at 2 head == size)
      && (get_or head 4 0 == length (interfaces blocks))
      && is_counted_from 0 (interfaces blocks)
      && are_distinct (endpoints blocks)
    then some (record {
      interface_numbers = interfaces blocks;
      endpoint_sizes = endpoints blocks;
      report_descriptor_lens = report_lens blocks;
    })
    else none

unfoldable pub read_config : List ℕ → Option Config
read_config bytes = elim (walk (length bytes) bytes) [
  | none ↦ none
  | some blocks ↦ accept (length bytes) blocks
]

pub read_config-concat :
    (blocks : List (List ℕ))
    → AreBlocks blocks
    → read_config (concat blocks) ≡ accept (length (concat blocks)) blocks
unfolding read_config
read_config-concat blocks a =
    rw (read_config, walk-concat (length (concat blocks)) blocks a (omega arith)) refl

pub accept-head :
    (size : ℕ) (rest : List ℕ) (blocks : List (List ℕ)) (itfs : List ℕ) (eps : List (ℕ × ℕ))
    → size < 65536
    → interfaces blocks ≡ itfs
    → endpoints blocks ≡ eps
    → is_counted_from 0 itfs ≡ true
    → are_distinct eps ≡ true
    → accept size ((9 ∷ 2 ∷ size % 256 ∷ size / 256 % 256 ∷ length itfs ∷ rest) ∷ blocks)
      ≡ some (record {
        interface_numbers = itfs;
        endpoint_sizes = eps;
        report_descriptor_lens = report_lens blocks;
      })
accept-head size rest blocks itfs eps short is_itfs is_eps counted distinct =
    let total : (size % 256 + (256 * (size / 256 % 256)) == size) ≡ true =
      (==_iff (size % 256 + (256 * (size / 256 % 256))) size).1 (omega arith) in
    let itself : (length itfs == length itfs) ≡ true =
      (==_iff (length itfs) (length itfs)).1 refl in
    rw (is_itfs, is_eps, total, itself, counted, distinct) refl
