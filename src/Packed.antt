-- ===== src/Packed.antt =====
-- The packed state word of `ua.cpp`: version, status, channel and session in 64 bits.
use Prim.Native.Nat.{bit_or}
use net_way.Prelude.{ℕ, ◌+◌, ◌*◌, ◌/◌, ◌%◌, ◌^◌, ◌<◌, ◌≡◌, arith}
use net_way.Prelude.Bits.{bit_or_disjoint}

abbrev pub u16 : ℕ
u16 = 2 ^ 16

-- `UA_StatusCode` is an `uint32_t`; the two state enums are kept as their numbers.
pub record StateFields : Type 0 where
  pub status : ℕ
  pub channel : ℕ
  pub session : ℕ
  pub version : ℕ

-- A shift in an `uint64_t`.
abbrev pub shl64 : ℕ → ℕ → ℕ
shl64 x k = x * 2 ^ k % 2 ^ 64

unfoldable pub pack_state : ℕ → ℕ → ℕ → ℕ → ℕ
pack_state status channel session version =
    bit_or (bit_or (bit_or (shl64 version 48) (shl64 status 16)) (shl64 channel 8))
      (shl64 session 0)

-- `(v & kVerMask) >> kVerShift` keeps bits 48 to 63.
unfoldable pub unpack_state : ℕ → StateFields
unpack_state v = record {
  status = v / 2 ^ 16 % 2 ^ 32;
  channel = v / 2 ^ 8 % 2 ^ 8;
  session = v % 2 ^ 8;
  version = v / 2 ^ 48 % 2 ^ 16;
}

-- The ranges of the four fields.
pub record InRange (f : StateFields) : Type 0 where
  pub status_fits : f.status < 2 ^ 32
  pub channel_fits : f.channel < 2 ^ 8
  pub session_fits : f.session < 2 ^ 8
  pub version_fits : f.version < 2 ^ 16

abbrev pub pack : StateFields → ℕ
pack f = pack_state f.status f.channel f.session f.version

-- Nothing is cut off by the shifts and no two fields overlap.
pack_sum :
    (f : StateFields)
    → InRange f
    → pack f ≡ f.version * 2 ^ 48 + f.status * 2 ^ 16 + f.channel * 2 ^ 8 + f.session
unfolding pack_state
pack_sum f r =
    let v = f.version in
    let s = f.status in
    let c = f.channel in
    let n = f.session in
    let v48 : shl64 v 48 ≡ v * 2 ^ 48 = omega arith in
    let s16 : shl64 s 16 ≡ s * 2 ^ 16 = omega arith in
    let c8 : shl64 c 8 ≡ c * 2 ^ 8 = omega arith in
    let n0 : shl64 n 0 ≡ n = omega arith in
    let at16 : v * 2 ^ 48 + s * 2 ^ 16 ≡ (v * 2 ^ 32 + s) * 2 ^ 16 = omega arith in
    let at8 : (v * 2 ^ 32 + s) * 2 ^ 16 + c * 2 ^ 8 ≡ ((v * 2 ^ 32 + s) * 2 ^ 8 + c) * 2 ^ 8 =
      omega arith in
    rw
      (
        v48,
        s16,
        c8,
        n0,
        bit_or_disjoint 48 v (s * 2 ^ 16) (omega arith),
        at16,
        bit_or_disjoint 16 (v * 2 ^ 32 + s) (c * 2 ^ 8) (omega arith),
        at8,
        bit_or_disjoint 8 ((v * 2 ^ 32 + s) * 2 ^ 8 + c) n (omega arith),
      )
      (omega arith)

-- Reading back a packed word gives the fields that were packed, when each fits its bits.
pub unpack-pack : (f : StateFields) → InRange f → unpack_state (pack f) ≡ f
unfolding unpack_state
unpack-pack f r = rw (pack_sum f r) (ground arith)

pub unpack-InRange : (v : ℕ) → InRange (unpack_state v)
unfolding unpack_state
unpack-InRange v = record {
  status_fits = omega arith;
  channel_fits = omega arith;
  session_fits = omega arith;
  version_fits = omega arith;
}

-- Every word of 64 bits is the packing of the fields that are read from it.
pub pack-unpack : (v : ℕ) → v < 2 ^ 64 → pack (unpack_state v) ≡ v
unfolding unpack_state
pack-unpack v h = omega (arith, pack_sum (unpack_state v) (unpack-InRange v))
