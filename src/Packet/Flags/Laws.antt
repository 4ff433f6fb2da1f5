-- ===== src/Packet/Flags/Laws.antt =====
-- The flag bits of ReservedFlags (src/packet.rs) are independent: each setter changes its own flag.
use Prim.Native.Nat.{bit_and, bit_or, max, min}
use msgtrans_rust.Base.{ℕ, ◌+◌, ◌*◌, ◌/◌, ◌%◌, ◌<◌, ◌≡◌, arith, Bool, true, false}
use msgtrans_rust.Base.Bits.{bit_and_digit, bit_or_digit, bit_or-zero, bit_and-zero, bit_and_mask}
use msgtrans_rust.Packet.Flags.{
  ReservedFlags, with_fragmented, is_fragmented, with_priority, is_high_priority, with_route_tag,
  has_route_tag,
}

-- Below three digits the masks in use are numerals, and the rest is shifted by eight.
and_three :
    (a m : ℕ)
    → bit_and a m
      ≡ bit_and (a / 2 / 2 / 2) (m / 2 / 2 / 2) * 8
        + min (a / 2 / 2 % 2) (m / 2 / 2 % 2) * 4
        + min (a / 2 % 2) (m / 2 % 2) * 2
        + min (a % 2) (m % 2)
and_three a m =
    omega (
      arith,
      bit_and_digit a m,
      bit_and_digit (a / 2) (m / 2),
      bit_and_digit (a / 2 / 2) (m / 2 / 2),
    )

or_three :
    (a m : ℕ)
    → bit_or a m
      ≡ bit_or (a / 2 / 2 / 2) (m / 2 / 2 / 2) * 8
        + max (a / 2 / 2 % 2) (m / 2 / 2 % 2) * 4
        + max (a / 2 % 2) (m / 2 % 2) * 2
        + max (a % 2) (m % 2)
or_three a m =
    omega
      (arith, bit_or_digit a m, bit_or_digit (a / 2) (m / 2), bit_or_digit (a / 2 / 2) (m / 2 / 2))

-- The tests, as digits.
bit_and_one : (a : ℕ) → bit_and a 1 ≡ a % 2
bit_and_one a = omega (arith, and_three a 1, bit_and-zero (a / 2 / 2 / 2))

bit_and_two : (a : ℕ) → bit_and a 2 ≡ a / 2 % 2 * 2
bit_and_two a = omega (arith, and_three a 2, bit_and-zero (a / 2 / 2 / 2))

bit_and_four : (a : ℕ) → bit_and a 4 ≡ a / 2 / 2 % 2 * 4
bit_and_four a = omega (arith, and_three a 4, bit_and-zero (a / 2 / 2 / 2))

-- The setters, as digits.
set_one : (a : ℕ) → bit_or a 1 ≡ a / 2 * 2 + 1
set_one a = omega (arith, or_three a 1, bit_or-zero (a / 2 / 2 / 2))

set_two : (a : ℕ) → bit_or a 2 ≡ a / 2 / 2 * 4 + 2 + a % 2
set_two a = omega (arith, or_three a 2, bit_or-zero (a / 2 / 2 / 2))

set_four : (a : ℕ) → bit_or a 4 ≡ a / 2 / 2 / 2 * 8 + 4 + a % 4
set_four a = omega (arith, or_three a 4, bit_or-zero (a / 2 / 2 / 2))

high_bits : (a : ℕ) → a < 65536 → bit_and (a / 2 / 2 / 2) 8191 ≡ a / 2 / 2 / 2
high_bits a h = bit_and_mask 13 (a / 2 / 2 / 2) (omega arith)

clear_one : (a : ℕ) → a < 65536 → bit_and a 0xfffe ≡ a / 2 * 2
clear_one a h = omega (arith, and_three a 0xfffe, high_bits a h)

clear_two : (a : ℕ) → a < 65536 → bit_and a 0xfffd ≡ a / 2 / 2 * 4 + a % 2
clear_two a h = omega (arith, and_three a 0xfffd, high_bits a h)

clear_four : (a : ℕ) → a < 65536 → bit_and a 0xfffb ≡ a / 2 / 2 / 2 * 8 + a % 4
clear_four a h = omega (arith, and_three a 0xfffb, high_bits a h)

-- What a reader of the flags sees: the three flags, and the 13 bits that no method touches.
pub record View : Type 0 where
  pub fragmented : Bool
  pub high_priority : Bool
  pub route_tag : Bool
  pub rest : ℕ

abbrev pub view : ReservedFlags → View
view f = record {
  fragmented = is_fragmented f;
  high_priority = is_high_priority f;
  route_tag = has_route_tag f;
  rest = f.bits / 8;
}

abbrev pub IsU16 : ReservedFlags → Type 0
IsU16 f = f.bits < 65536

pub view-with_fragmented :
    (f : ReservedFlags) (b : Bool)
    → IsU16 f
    → (view (with_fragmented f b) ≡ record (view f) { fragmented = b })
      × IsU16 (with_fragmented f b)
unfolding with_fragmented is_fragmented is_high_priority has_route_tag
view-with_fragmented f true h = ground (
  arith,
  set_one f.bits,
  bit_and_one (bit_or f.bits 1),
  bit_and_two (bit_or f.bits 1),
  bit_and_four (bit_or f.bits 1),
  bit_and_two f.bits,
  bit_and_four f.bits,
)
view-with_fragmented f false h = ground (
  arith,
  clear_one f.bits h,
  bit_and_one (bit_and f.bits 0xfffe),
  bit_and_two (bit_and f.bits 0xfffe),
  bit_and_four (bit_and f.bits 0xfffe),
  bit_and_two f.bits,
  bit_and_four f.bits,
)

pub view-with_priority :
    (f : ReservedFlags) (b : Bool)
    → IsU16 f
    → (view (with_priority f b) ≡ record (view f) { high_priority = b }) × IsU16 (with_priority f b)
unfolding with_priority is_fragmented is_high_priority has_route_tag
view-with_priority f true h = ground (
  arith,
  set_two f.bits,
  bit_and_one (bit_or f.bits 2),
  bit_and_two (bit_or f.bits 2),
  bit_and_four (bit_or f.bits 2),
  bit_and_one f.bits,
  bit_and_four f.bits,
)
view-with_priority f false h = ground (
  arith,
  clear_two f.bits h,
  bit_and_one (bit_and f.bits 0xfffd),
  bit_and_two (bit_and f.bits 0xfffd),
  bit_and_four (bit_and f.bits 0xfffd),
  bit_and_one f.bits,
  bit_and_four f.bits,
)

pub view-with_route_tag :
    (f : ReservedFlags) (b : Bool)
    → IsU16 f
    → (view (with_route_tag f b) ≡ record (view f) { route_tag = b }) × IsU16 (with_route_tag f b)
unfolding with_route_tag is_fragmented is_high_priority has_route_tag
view-with_route_tag f true h = ground (
  arith,
  set_four f.bits,
  bit_and_one (bit_or f.bits 4),
  bit_and_two (bit_or f.bits 4),
  bit_and_four (bit_or f.bits 4),
  bit_and_one f.bits,
  bit_and_two f.bits,
)
view-with_route_tag f false h = ground (
  arith,
  clear_four f.bits h,
  bit_and_one (bit_and f.bits 0xfffb),
  bit_and_two (bit_and f.bits 0xfffb),
  bit_and_four (bit_and f.bits 0xfffb),
  bit_and_one f.bits,
  bit_and_two f.bits,
)

-- On a u16 each of the three setters sets its own flag to its argument, leaves the two other flags
-- and the 13 unused bits as they were, and gives a u16.
pub view-setters :
    (f : ReservedFlags) (b : Bool)
    → IsU16 f
    → ((view (with_fragmented f b) ≡ record (view f) { fragmented = b })
        × IsU16 (with_fragmented f b))
      × ((view (with_priority f b) ≡ record (view f) { high_priority = b })
          × IsU16 (with_priority f b))
      × ((view (with_route_tag f b) ≡ record (view f) { route_tag = b })
          × IsU16 (with_route_tag f b))
view-setters f b h =
    (view-with_fragmented f b h, view-with_priority f b h, view-with_route_tag f b h)
