-- ===== src/Stun/RoundTrip.antt =====
-- The answers of a STUN server as RFC 5389 lays them out, read back by the parser.
use natcat.Base.{
  All, Bool, List, [], bit_xor, false, if◌then◌else◌, length, suc, true, zero, ℕ, ◌%◌, ◌++◌, ◌+◌,
  ◌-◌, ◌/◌, ◌∷◌, ◌≡◌,
}
use natcat.Result.{Result, ok, ◌>>=◌}
use natcat.Stun.{
  Bytes, StunError, StunResult, align, is_mapped, mapped_address, no_result, parse_mapped_address,
  xor_magic, xor_mapped_addr,
}

unfoldable pub u16_bytes : ℕ → Bytes
u16_bytes n = n / 256 ∷ n % 256 ∷ []

zeros : ℕ → Bytes
zeros zero = []
zeros (suc n) = 0 ∷ zeros n

-- What fills a value of `n` bytes up to a multiple of four.
padding : ℕ → Bytes
unfolding zeros
padding n = zeros (align n - n)

-- Type, length, value and padding.
unfoldable pub encode_attribute : ℕ → Bytes → Bytes
unfolding u16_bytes padding
encode_attribute kind value =
    u16_bytes kind ++ (u16_bytes (length value) ++ (value ++ padding (length value)))

unfoldable pub encode_all : List (ℕ × Bytes) → Bytes
encode_all [] = []
encode_all ((kind, value) ∷ rest) = encode_attribute kind value ++ encode_all rest

-- The header of a success response, and its body.
unfoldable pub encode_response : Bytes → Bytes → Bytes
encode_response tid body =
    0x01 ∷ 0x01 ∷ length body / 256 ∷ length body % 256 ∷ 0x21 ∷ 0x12 ∷ 0xA4 ∷ 0x42 ∷ (tid ++ body)

-- The value of MAPPED-ADDRESS for an IPv4 address, or that of XOR-MAPPED-ADDRESS.
unfoldable pub encode_address : Bool → Bytes → ℕ → Bytes
encode_address false ip port = 0 ∷ 0x01 ∷ (u16_bytes port ++ ip)
encode_address true ip port = 0 ∷ 0x01 ∷ (u16_bytes (bit_xor port 0x2112) ++ xor_magic ip)

abbrev pub address_kind : Bool → ℕ
address_kind is_xor = if is_xor then xor_mapped_addr else mapped_address

-- Attributes that the parser passes over.
abbrev pub AllOther : List (ℕ × Bytes) → Type 0
AllOther = All (λ attr. is_mapped attr.0 ≡ false)

-- One round of the loop at an attribute that begins behind `pre`.
module _ (tid s pre tail : Bytes) (fuel kind : ℕ) (value : Bytes)
    (shape : s ≡ pre ++ (u16_bytes kind ++ (u16_bytes (length value) ++ (value ++ tail)))) where
  abbrev next : ℕ
  next = length pre + 4 + length value

  abbrev tagged : Result StunError StunResult
  tagged = parse_mapped_address kind value >>= λ r. ok (record r { tid = tid })

abbrev found : Bytes → Bytes → ℕ → StunResult
found tid ip port = record no_result { tid = tid; ip = ip; port = port }

module _ (tid s tail : Bytes) (is_xor : Bool) (a b c d port : ℕ) where
  abbrev ip : Bytes
  ip = a ∷ b ∷ c ∷ d ∷ []

  abbrev answer : Bytes
  answer = encode_attribute (address_kind is_xor) (encode_address is_xor ip port)

module _ (x0 x1 x2 x3 x4 x5 x6 x7 : ℕ) (rest : Bytes) where
  abbrev headed : Bytes
  headed = x0 ∷ x1 ∷ x2 ∷ x3 ∷ x4 ∷ x5 ∷ x6 ∷ x7 ∷ rest
