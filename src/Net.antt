-- ===== src/Net.antt =====
-- `net.IP` as the list of its bytes: 4 or 16 of them, or none for the nil address.
use natcat.Base.{
  Bool, List, Option, [], arith, drop, false, if◌then◌else◌, length, none, some, take, true, ℕ,
  ◌&&◌, ◌++◌, ◌==◌, ◌||◌, ◌∷◌, ◌≡◌,
}
use natcat.Dict.{text_eq_refl}
use natcat.Text.{text_eq}

abbrev pub Ip : Type 0
Ip = List ℕ

-- The twelve bytes in front of an IPv4 address that is written as an IPv6 one.
abbrev pub v4_prefix : Ip
v4_prefix = 0 ∷ 0 ∷ 0 ∷ 0 ∷ 0 ∷ 0 ∷ 0 ∷ 0 ∷ 0 ∷ 0 ∷ 0xff ∷ 0xff ∷ []

-- `IP.To4`; none is nil.
unfoldable pub to4 : Ip → Option Ip
to4 ip =
    if length ip == 4
    then some ip
    else if length ip == 16 && text_eq (take 12 ip) v4_prefix
    then some (drop 12 ip)
    else none

-- `IP.Equal`: an IPv4 address and the same one as IPv6 are equal.
unfoldable pub ip_equal : Ip → Ip → Bool
ip_equal a b =
    if length a == length b
    then text_eq a b
    else if length a == 4 && length b == 16
    then text_eq (take 12 b) v4_prefix && text_eq a (drop 12 b)
    else if length a == 16 && length b == 4
    then text_eq (take 12 a) v4_prefix && text_eq (drop 12 a) b
    else false

abbrev pub ipv4_zero : Ip
ipv4_zero = v4_prefix ++ 0 ∷ 0 ∷ 0 ∷ 0 ∷ []

-- `IP.IsUnspecified`.
unfoldable pub is_unspecified : Ip → Bool
unfolding ip_equal
is_unspecified ip =
    ip_equal ip ipv4_zero
    || text_eq ip (0 ∷ 0 ∷ 0 ∷ 0 ∷ 0 ∷ 0 ∷ 0 ∷ 0 ∷ 0 ∷ 0 ∷ 0 ∷ 0 ∷ 0 ∷ 0 ∷ 0 ∷ 0 ∷ [])

pub ip_equal_refl : (a : Ip) → ip_equal a a ≡ true
unfolding ip_equal
ip_equal_refl a = ground (arith, text_eq_refl a)
