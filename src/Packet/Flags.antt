-- ===== src/Packet/Flags.antt =====
-- src/packet.rs, ReservedFlags: a u16 with three flag bits. `!0x0001` on a u16 is 0xfffe.
pub mod Laws
use Prim.Native.Nat.{bit_and, bit_or}
use msgtrans_rust.Base.{ℕ, ◌==◌, Bool, not, if◌then◌else◌}

pub record ReservedFlags : Type 0 where
  pub bits : ℕ

unfoldable pub new : ReservedFlags
new = record { bits = 0 }

unfoldable pub with_fragmented : ReservedFlags → Bool → ReservedFlags
with_fragmented f fragmented =
    if fragmented
    then record f { bits = bit_or f.bits 0x0001 }
    else record f { bits = bit_and f.bits 0xfffe }

unfoldable pub is_fragmented : ReservedFlags → Bool
is_fragmented f = not (bit_and f.bits 0x0001 == 0)

unfoldable pub with_priority : ReservedFlags → Bool → ReservedFlags
with_priority f high_priority =
    if high_priority
    then record f { bits = bit_or f.bits 0x0002 }
    else record f { bits = bit_and f.bits 0xfffd }

unfoldable pub is_high_priority : ReservedFlags → Bool
is_high_priority f = not (bit_and f.bits 0x0002 == 0)

unfoldable pub with_route_tag : ReservedFlags → Bool → ReservedFlags
with_route_tag f has_route =
    if has_route
    then record f { bits = bit_or f.bits 0x0004 }
    else record f { bits = bit_and f.bits 0xfffb }

unfoldable pub has_route_tag : ReservedFlags → Bool
has_route_tag f = not (bit_and f.bits 0x0004 == 0)

unfoldable pub raw : ReservedFlags → ℕ
raw f = f.bits

unfoldable pub from_raw : ℕ → ReservedFlags
from_raw value = record { bits = value }
