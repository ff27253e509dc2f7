-- ===== src/Stun.antt =====
-- internal/core/stun.go: the message that asks for the public address, and the parser of the
-- answers. A packet is the list of its bytes. An index or slice out of range, which is a panic in
-- Go, is the error `out_of_range`; the loop over the attributes has fuel, and the error
-- `out_of_fuel` where that is used up: the length of the body is enough.
pub mod Slices
pub mod Total
pub mod Xor
pub mod RoundTrip
use natcat.Base.{
  Bool, List, [], bit_xor, drop, get_elem?, if◌then◌else◌, leb, length, ltb, not, suc, take, zero,
  ℕ, ◌%◌, ◌&&◌, ◌*◌, ◌++◌, ◌+◌, ◌-◌, ◌==◌, ◌||◌, ◌∷◌,
}
use natcat.Net.{Ip}
use natcat.Result.{Result, err, fail_if, ok, or_fail, ◌>>=◌, ◌>>◌}
use natcat.Text.{Text, text_eq}

abbrev pub Bytes : Type 0
Bytes = List ℕ

abbrev pub stun_magic : ℕ
stun_magic = 0x2112A442

abbrev pub binding_request : ℕ
binding_request = 0x0001

abbrev pub binding_success : ℕ
binding_success = 0x0101

abbrev pub mapped_address : ℕ
mapped_address = 0x0001

abbrev pub xor_mapped_addr : ℕ
xor_mapped_addr = 0x0020

pub record StunResult : Type 0 where
  pub tid : Bytes
  pub ip : Ip
  pub port : ℕ
  pub server : Text
  pub source : Text

-- `stunResult{}`.
abbrev pub no_result : StunResult
no_result = record { tid = []; ip = []; port = 0; server = []; source = [] }

pub data StunError : Type 0 where
  short_packet invalid_length invalid_magic invalid_attribute address_missing : StunError
  short_address short_ipv4 unknown_family tid_mismatch : StunError
  unexpected_message : ℕ → StunError
  out_of_range out_of_fuel : StunError

-- `s[lo:hi]`.
unfoldable pub slice : Bytes → ℕ → ℕ → Result StunError Bytes
slice s lo hi =
    if leb lo hi && leb hi (length s) then ok (take (hi - lo) (drop lo s)) else err out_of_range

-- `binary.BigEndian.Uint16`.
unfoldable pub u16 : Bytes → Result StunError ℕ
u16 (a ∷ b ∷ _) = ok (a * 256 + b)
u16 _ = err out_of_range

-- `binary.BigEndian.Uint32`.
unfoldable pub u32 : Bytes → Result StunError ℕ
u32 (a ∷ b ∷ c ∷ d ∷ _) = ok (((a * 256 + b) * 256 + c) * 256 + d)
u32 _ = err out_of_range

-- `s[i]`.
unfoldable pub byte_at : Bytes → ℕ → Result StunError ℕ
byte_at s i = or_fail (get_elem? s i) out_of_range

unfoldable pub u16_at : Bytes → ℕ → Result StunError ℕ
u16_at s lo = do part ← slice s lo (lo + 2); u16 part

unfoldable pub u32_at : Bytes → ℕ → Result StunError ℕ
u32_at s lo = do part ← slice s lo (lo + 4); u32 part

-- `ip[i] ^= magic[i]` over the four bytes.
unfoldable pub xor_magic : Bytes → Bytes
xor_magic (a ∷ b ∷ c ∷ d ∷ _) =
    bit_xor a 0x21 ∷ bit_xor b 0x12 ∷ bit_xor c 0xA4 ∷ bit_xor d 0x42 ∷ []
xor_magic s = s

unfoldable pub parse_mapped_address : ℕ → Bytes → Result StunError StunResult
parse_mapped_address attr_type value = do
  fail_if (ltb (length value) 4) short_address
  family ← byte_at value 1
  raw ← u16_at value 2
  let is_xor = attr_type == xor_mapped_addr
  let port = if is_xor then bit_xor raw 0x2112 else raw
  fail_if (not (family == 0x01)) unknown_family
  fail_if (ltb (length value) 8) short_ipv4
  ip ← slice value 4 8
  ok (record no_result { ip = if is_xor then xor_magic ip else ip; port = port })

-- `pos = valueEnd`, moved up to a multiple of four.
abbrev pub align : ℕ → ℕ
align value_end = if value_end % 4 == 0 then value_end else value_end + (4 - value_end % 4)

abbrev pub is_mapped : ℕ → Bool
is_mapped attr_type = attr_type == mapped_address || attr_type == xor_mapped_addr

-- The loop over the attributes in `body`, from position `place` on.
unfoldable pub attributes : Bytes → Bytes → ℕ → ℕ → Result StunError StunResult
attributes tid body zero place = err out_of_fuel
attributes tid body (suc fuel) place =
    let step : Result StunError StunResult = do
      attr_type ← u16_at body place
      attr_len ← u16_at body (place + 2)
      let value_end = place + 4 + attr_len
      fail_if (ltb (length body) value_end) invalid_attribute
      value ← slice body (place + 4) value_end
      let rest = attributes tid body fuel (align value_end)
      let found = parse_mapped_address attr_type value >>= λ r. ok (record r { tid = tid })
      if is_mapped attr_type then found else rest
    in if leb (place + 4) (length body) then step else err address_missing

unfoldable pub parse_stun : Bytes → Result StunError StunResult
parse_stun packet = do
  fail_if (ltb (length packet) 20) short_packet
  msg_type ← u16_at packet 0
  fail_if (not (msg_type == binding_success)) (unexpected_message msg_type)
  len ← u16_at packet 2
  fail_if (ltb (length packet) (20 + len)) invalid_length
  magic ← u32_at packet 4
  fail_if (not (magic == stun_magic)) invalid_magic
  tid ← slice packet 8 20
  body ← slice packet 20 (20 + len)
  attributes tid body (suc len) 0

-- `stunRequest`, with the random transaction id as its argument.
unfoldable pub stun_request : Bytes → Bytes
stun_request tid = 0 ∷ 1 ∷ 0 ∷ 0 ∷ 0x21 ∷ 0x12 ∷ 0xA4 ∷ 0x42 ∷ tid

-- The end of `stunTCP`: the answer to the request with the id `tid`, out of the header and the
-- body that were read.
unfoldable pub stun_tcp_answer : Bytes → Bytes → Bytes → Result StunError StunResult
stun_tcp_answer tid header body = do
  result ← parse_stun (header ++ body)
  fail_if (not (text_eq result.tid tid)) tid_mismatch
  ok result
