-- ===== src/Auth/Pbkdf2.antt =====
-- The key derivation of internal/core/auth.go, `pbkdf2Key`, beside PBKDF2 as RFC 8018 defines it.
use mathlib.Core.List.{append-nil, append_assoc}
use natcat.Auth.{Bytes, block_bytes, blocks_from, counter, hash_size, pbkdf2_key, rounds, xor_bytes}
use natcat.Base.{[], ap, arith, suc, sym, take, zero, ℕ, ◌++◌, ◌+◌, ◌-◌, ◌/◌, ◌∙◌, ◌≡◌}
use natcat.Int.{pos_part, ℤ}

module _ (prf : Bytes → Bytes) where
  -- U_(n+1): the function, applied n times to U_1.
  abbrev pub iterate : ℕ → Bytes → Bytes
  iterate zero u = u
  iterate (suc n) u = prf (iterate n u)

  -- U_1 xor … xor U_(n+1), of the given U_1.
  abbrev pub xor_all : ℕ → Bytes → Bytes
  xor_all zero u = u
  xor_all (suc n) u = xor_bytes (xor_all n u) (iterate (suc n) u)

  -- T_i, whose U_1 is the function of the salt and the number i in four bytes.
  abbrev pub t_block : Bytes → ℕ → ℕ → Bytes
  t_block salt iterations i = xor_all (iterations - 1) (prf (salt ++ counter i))

  -- T_1 to T_n, one behind the other.
  abbrev pub t_blocks : Bytes → ℕ → ℕ → Bytes
  t_blocks salt iterations zero = []
  t_blocks salt iterations (suc n) = t_blocks salt iterations n ++ t_block salt iterations (suc n)

  -- The first bytes of T_1 to T_l, for the least l that gives enough of them.
  abbrev pub pbkdf2 : Bytes → ℕ → ℕ → Bytes
  pbkdf2 salt iterations key_len = take key_len (t_blocks salt iterations ((key_len + 31) / 32))

  rounds-iterate :
      (n before : ℕ) (u : Bytes)
      → rounds prf n (iterate before u) (xor_all before u) ≡ xor_all (before + n) u
  unfolding rounds
  rounds-iterate zero before u = ap (λ k. xor_all k u) (omega arith)
  rounds-iterate (suc n) before u =
      rounds-iterate n (suc before) u ∙ ap (λ k. xor_all k u) (omega arith)

  block_bytes-t_block :
      (salt : Bytes) (iter : ℤ) (i : ℕ)
      → block_bytes prf salt iter i ≡ t_block salt (pos_part iter) i
  unfolding block_bytes
  block_bytes-t_block salt iter i =
      rounds-iterate (pos_part iter - 1) 0 (prf (salt ++ counter i))
      ∙ ap (λ k. xor_all k (prf (salt ++ counter i))) {x = 0 + (pos_part iter - 1)}
          {y = pos_part iter - 1} (omega arith)

  t_blocks-at :
      (salt : Bytes) (iter : ℤ) (m n : ℕ)
      → m ≡ n
      → t_blocks salt (pos_part iter) m ≡ t_blocks salt (pos_part iter) n
  t_blocks-at salt iter m n e = ap (t_blocks salt (pos_part iter)) e

  blocks_from-t_blocks :
      (salt : Bytes) (iter : ℤ) (before left : ℕ)
      → t_blocks salt (pos_part iter) before ++ blocks_from prf salt iter (suc before) left
        ≡ t_blocks salt (pos_part iter) (before + left)
  unfolding blocks_from
  blocks_from-t_blocks salt iter before zero =
      append-nil (t_blocks salt (pos_part iter) before)
      ∙ t_blocks-at salt iter before (before + 0) (omega arith)
  blocks_from-t_blocks salt iter before (suc left) =
      let rest = blocks_from prf salt iter (suc (suc before)) left in
      let one = block_bytes prf salt iter (suc before) in
      sym (append_assoc (t_blocks salt (pos_part iter) before) one rest)
      ∙ ap (λ b. (t_blocks salt (pos_part iter) before ++ b) ++ rest)
          (block_bytes-t_block salt iter (suc before))
      ∙ blocks_from-t_blocks salt iter (suc before) left
      ∙ t_blocks-at salt iter (suc before + left) (before + suc left) (omega arith)

  -- The two agree, for any number of iterations and of bytes.
  pub pbkdf2_key-pbkdf2 :
      (salt : Bytes) (iter : ℤ) (key_len : ℕ)
      → pbkdf2_key prf salt iter key_len ≡ pbkdf2 salt (pos_part iter) key_len
  unfolding pbkdf2_key
  pbkdf2_key-pbkdf2 salt iter key_len =
      let blocks = (key_len + 31) / 32 in
      ap (λ l. take key_len (blocks_from prf salt iter 1 l))
        {x = (key_len + hash_size - 1) / hash_size} {y = blocks} (omega arith)
      ∙ ap (take key_len) (
          blocks_from-t_blocks salt iter 0 blocks
          ∙ t_blocks-at salt iter (0 + blocks) blocks (omega arith))
