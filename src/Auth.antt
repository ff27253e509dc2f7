-- ===== src/Auth.antt =====
-- internal/core/auth.go: the credential of the administrator.
-- HMAC-SHA-256 with its key, base64 and the bytes of a string are the fields of `Crypto`; what
-- `rand.Read` gives is an argument, none where it fails.
pub mod Pbkdf2
pub mod Check
use natcat.Base.{
  Bool, List, Option, [], bit_xor, false, get_elem?, if◌then◌else◌, is_nil, length, map, none, not,
  some, suc, take, zero, ℕ, ◌%◌, ◌++◌, ◌+◌, ◌-◌, ◌/◌, ◌||◌, ◌∷◌,
}
use natcat.Config.{or_positive}
use natcat.Int.{pos, pos_part, ℤ}
use natcat.Result.{Result, fail_if, ok, or_fail, ◌>>=◌, ◌>>◌}
use natcat.Text.{Text, codes, text_eq}
use natcat.Types.{AdminCredential}

abbrev pub Bytes : Type 0
Bytes = List ℕ

pub record Crypto : Type 0 where
  pub hmac : Bytes → Bytes → Bytes
  pub encode64 : Bytes → Text
  pub decode64 : Text → Option Bytes
  pub bytes : Text → Bytes

abbrev pub password_iterations : ℤ
password_iterations = pos 120_000

abbrev pub hash_size : ℕ
hash_size = 32

abbrev pub salt_size : ℕ
salt_size = 16

-- `counter[0] = byte(block >> 24)` and so on.
unfoldable pub counter : ℕ → Bytes
counter block =
    (block / 16_777_216) % 256 ∷ (block / 65_536) % 256 ∷ (block / 256) % 256 ∷ block % 256 ∷ []

-- `t[j] ^= u[j]` for each j.
unfoldable pub xor_bytes : Bytes → Bytes → Bytes
xor_bytes [] u = []
xor_bytes (a ∷ t) [] = a ∷ t
xor_bytes (a ∷ t) (b ∷ u) = bit_xor a b ∷ xor_bytes t u

-- The inner loop, with the turns that are left.
unfoldable pub rounds : (Bytes → Bytes) → ℕ → Bytes → Bytes → Bytes
rounds prf zero u t = t
rounds prf (suc n) u t = let next = prf u in rounds prf n next (xor_bytes t next)

-- The body of the outer loop: `for i := 1; i < iter; i++` makes one turn less than `iter`.
unfoldable pub block_bytes : (Bytes → Bytes) → Bytes → ℤ → ℕ → Bytes
unfolding counter rounds
block_bytes prf salt iter block =
    let u = prf (salt ++ counter block) in rounds prf (pos_part iter - 1) u u

-- The outer loop: `left` blocks from `block` on.
unfoldable pub blocks_from : (Bytes → Bytes) → Bytes → ℤ → ℕ → ℕ → Bytes
blocks_from prf salt iter block zero = []
blocks_from prf salt iter block (suc left) =
    block_bytes prf salt iter block ++ blocks_from prf salt iter (suc block) left

unfoldable pub pbkdf2_key : (Bytes → Bytes) → Bytes → ℤ → ℕ → Bytes
unfolding blocks_from
pbkdf2_key prf salt iter key_len =
    take key_len (blocks_from prf salt iter 1 ((key_len + hash_size - 1) / hash_size))

pub data AuthError : Type 0 where
  no_username no_password no_random : AuthError

module _ (crypto : Crypto) where
  unfoldable pub new_admin_credential :
      Text → Text → Option Bytes → Result AuthError AdminCredential
  new_admin_credential username password random = do
    fail_if (is_nil username) no_username
    fail_if (is_nil password) no_password
    salt ← or_fail random no_random
    ok record {
      username = username;
      salt = crypto.encode64 salt;
      hash =
          crypto.encode64
            (pbkdf2_key (crypto.hmac (crypto.bytes password)) salt password_iterations hash_size);
      iterations = password_iterations;
      last_password = 0;
    }

  -- The hash that a credential stands for is the hash of the password.
  unfoldable pub matches : AdminCredential → Text → Bytes → Bytes → Bool
  matches cred password salt expected =
      text_eq
        (pbkdf2_key (crypto.hmac (crypto.bytes password)) salt
          (or_positive cred.iterations password_iterations) (length expected))
        expected

  unfoldable pub check_password : AdminCredential → Text → Text → Bool
  unfolding matches
  check_password cred username password =
      if not (text_eq username cred.username)
        || is_nil password
        || is_nil cred.salt
        || is_nil cred.hash
      then false
      else elim (crypto.decode64 cred.salt) [
        | none ↦ false
        | some salt ↦ elim (crypto.decode64 cred.hash) [
          | none ↦ false
          | some expected ↦ matches cred password salt expected
        ]
      ]

-- `randomSecret`: the letters for the bytes read.
abbrev pub alphabet : Text
alphabet = codes "ABCDEFGHJKLMNPQRSTUVWXYZabcdefghijkmnopqrstuvwxyz23456789"

unfoldable pub letter : ℕ → ℕ
letter b = elim (get_elem? alphabet (b % length alphabet)) [ none ↦ 0 | some c ↦ c ]

unfoldable pub random_secret : Option Bytes → Result AuthError Text
unfolding letter
random_secret random = or_fail random no_random >>= λ buf. ok (map letter buf)
