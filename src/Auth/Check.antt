-- ===== src/Auth/Check.antt =====
-- What a password check accepts.
use natcat.Auth.{
  Bytes, Crypto, block_bytes, blocks_from, check_password, counter, hash_size, matches,
  new_admin_credential, password_iterations, pbkdf2_key, rounds, salt_size, xor_bytes,
}
use natcat.Auth.Pbkdf2.{pbkdf2}
use natcat.Base.{
  [], ap, arith, false, is_nil, length, length-append, length-take, refl, some, suc, true, zero, ℕ,
  ◌*◌, ◌++◌, ◌+◌, ◌-◌, ◌/◌, ◌<◌, ◌∙◌, ◌∷◌, ◌≡◌,
}
use natcat.Config.{or_positive}
use natcat.Dict.{text_eq_refl}
use natcat.Int.{pos_part, ℤ}
use natcat.Result.{ok}
use natcat.Text.{Text}
use natcat.Types.{AdminCredential}

length-xor_bytes : (t u : Bytes) → length (xor_bytes t u) ≡ length t
unfolding xor_bytes
length-xor_bytes [] u = refl
length-xor_bytes (a ∷ t) [] = refl
length-xor_bytes (a ∷ t) (b ∷ u) = ap suc (length-xor_bytes t u)

length-rounds : (prf : Bytes → Bytes) (n : ℕ) (u t : Bytes) → length (rounds prf n u t) ≡ length t
unfolding rounds
length-rounds prf zero u t = refl
length-rounds prf (suc n) u t =
    length-rounds prf n (prf u) (xor_bytes t (prf u)) ∙ length-xor_bytes t (prf u)

module _ (prf : Bytes → Bytes) (sized : (m : Bytes) → length (prf m) ≡ hash_size) where
  length-block_bytes :
      (salt : Bytes) (iter : ℤ) (block : ℕ) → length (block_bytes prf salt iter block) ≡ hash_size
  unfolding block_bytes
  length-block_bytes salt iter block =
      length-rounds prf (pos_part iter - 1) _ _ ∙ sized (salt ++ counter block)

  length-blocks_from :
      (salt : Bytes) (iter : ℤ) (block left : ℕ)
      → length (blocks_from prf salt iter block left) ≡ hash_size * left
  unfolding blocks_from
  length-blocks_from salt iter block zero = refl
  length-blocks_from salt iter block (suc left) = omega (
    arith,
    length-append (block_bytes prf salt iter block) (blocks_from prf salt iter (suc block) left),
    length-block_bytes salt iter block,
    length-blocks_from salt iter (suc block) left,
  )

  -- With a function of 32 bytes, the derived key has as many bytes as were asked for: the last
  -- slice `out[:keyLen]` never runs past what the blocks gave.
  pub length-pbkdf2_key :
      (salt : Bytes) (iter : ℤ) (key_len : ℕ) → length (pbkdf2_key prf salt iter key_len) ≡ key_len
  unfolding pbkdf2_key
  length-pbkdf2_key salt iter key_len =
      let left = (key_len + hash_size - 1) / hash_size in
      omega (
        arith,
        length-take key_len (blocks_from prf salt iter 1 left),
        length-blocks_from salt iter 1 left,
      )

-- What the program relies on: the size of a hash, and base64 as a code that is read back and that
-- gives the empty text for no bytes alone.
pub record IsCrypto (crypto : Crypto) : Type 0 where
  pub sized : (key m : Bytes) → length (crypto.hmac key m) ≡ hash_size
  pub decode-encode : (b : Bytes) → crypto.decode64 (crypto.encode64 b) ≡ some b
  pub encode-nil : (b : Bytes) → is_nil (crypto.encode64 b) ≡ is_nil b

is_nil-length : (b : Bytes) → 0 < length b → is_nil b ≡ false
is_nil-length [] h = ground arith
is_nil-length (x ∷ b) h = refl

module _ (crypto : Crypto) (lawful : IsCrypto crypto) (username password : Text)
    (salt : Bytes) where
  abbrev key : Bytes
  key = pbkdf2_key (crypto.hmac (crypto.bytes password)) salt password_iterations hash_size

  abbrev made : AdminCredential
  made = record {
    username = username;
    salt = crypto.encode64 salt;
    hash = crypto.encode64 key;
    iterations = password_iterations;
    last_password = 0;
  }

  length-key : length key ≡ hash_size
  length-key =
      length-pbkdf2_key (crypto.hmac (crypto.bytes password)) (lawful.sized (crypto.bytes password))
        salt password_iterations hash_size

  full-key : is_nil (crypto.encode64 key) ≡ false
  full-key = lawful.encode-nil key ∙ is_nil-length key (ground (arith, length-key))

  full-salt : length salt ≡ salt_size → is_nil (crypto.encode64 salt) ≡ false
  full-salt sixteen = lawful.encode-nil salt ∙ is_nil-length salt (ground (arith, sixteen))

  matches-new :
      (cred : AdminCredential)
      → cred.iterations ≡ password_iterations
      → matches crypto cred password salt key ≡ true
  unfolding matches
  matches-new cred e = rw (e, length-key) (text_eq_refl key)

  -- Given hashes of 32 bytes and a base64 that is read back: from a user name and a password that
  -- are not empty and a salt of 16 bytes, a credential is made, and it lets that user name and
  -- password in.
  pub check_password-new_admin_credential :
      is_nil username ≡ false
      → is_nil password ≡ false
      → length salt ≡ salt_size
      → (cred : AdminCredential) × (new_admin_credential crypto username password (some salt)
          ≡ ok cred)
        × (check_password crypto cred username password ≡ true)
  unfolding new_admin_credential check_password
  check_password-new_admin_credential user_fits given sixteen = (
    made,
    rw (user_fits, given) refl,
    rw
        (
          text_eq_refl username,
          given,
          full-salt sixteen,
          full-key,
          lawful.decode-encode salt,
          lawful.decode-encode key,
        )
        (matches-new made refl),
  )

-- What the check asks of a credential, a user name and a password.
abbrev pub LetsIn : Crypto → AdminCredential → Text → Text → Type 0
LetsIn crypto cred username password =
    (username ≡ cred.username)
    × (is_nil password ≡ false)
    × (is_nil cred.salt ≡ false)
    × (is_nil cred.hash ≡ false)
    × ((salt : Bytes) × (expected : Bytes) × (crypto.decode64 cred.salt ≡ some salt)
        × (crypto.decode64 cred.hash ≡ some expected)
        × (pbkdf2 (crypto.hmac (crypto.bytes password)) salt
              (pos_part (or_positive cred.iterations password_iterations)) (length expected)
            ≡ expected))
