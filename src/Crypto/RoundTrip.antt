-- ===== src/Crypto/RoundTrip.antt =====
-- Decryption undoes encryption, block by block.
use go_yandex_metrics.Base.{
  ℕ, zero, suc, ◌+◌, ◌-◌, ◌%◌, ◌≤◌, ◌<◌, ◌≡◌, refl, sym, ap, ◌∙◌, subst, some, [], ◌∷◌, ◌++◌, arith,
  ltb, if◌then◌else◌, length, take, drop, length-append, Result, ok,
}
use native.Mathlib.Nat.{le_refl, add-mod_left, zero-mod}
use mathlib.Core.List.{append_assoc, append-nil}
use go_yandex_metrics.Base.{take-append, drop-append, take-drop, length-take, length-drop}
use go_yandex_metrics.Base.Text.{Bytes}
use go_yandex_metrics.Crypto.{
  PublicKey, PrivateKey, oaep_overhead, encrypt_blocks, encrypt, decrypt_blocks, decrypt,
}

-- What RSA-OAEP documents of a key pair: a message that fits is encrypted to one block of the
-- key's size, whatever the random bytes, and decrypting that block gives the message back.
pub record KeyPair (pk : PublicKey) (sk : PrivateKey) : Type 0 where
  pub same_size : sk.size ≡ pk.size
  pub large : oaep_overhead < pk.size
  pub inverse :
      (round : ℕ) (msg : Bytes)
      → length msg + oaep_overhead ≤ pk.size
      → (block : Bytes) × (pk.encrypt_oaep round msg ≡ ok block)
        × (length block ≡ pk.size)
        × (sk.decrypt_oaep block ≡ ok msg)

module _ (pk : PublicKey) (sk : PrivateKey) (pair : KeyPair pk sk) where
  -- The blocks that the loop of `Encrypt` appends, and what the loop of `Decrypt` makes of them.
  record Undone (fuel round : ℕ) (plain encrypted : Bytes) : Type 0 where
    blocks : Bytes
    encrypts : encrypt_blocks pk fuel round plain encrypted ≡ ok (encrypted ++ blocks)
    whole : (length blocks % pk.size) ≡ 0
    long : length plain ≤ length blocks
    decrypts :
        (fuel' : ℕ) (decrypted : Bytes)
        → length blocks ≤ fuel'
        → decrypt_blocks sk fuel' blocks decrypted ≡ ok (decrypted ++ plain)

  part : ℕ → ℕ
  part n = if ltb (pk.size - oaep_overhead) n then pk.size - oaep_overhead else n

  part_bounds : (n : ℕ) → 0 < n → (0 < part n) × (part n ≤ n) × (part n + oaep_overhead ≤ pk.size)
  unfolding part
  part_bounds n h = ground (arith, pair.large)

  encrypt_blocks-nil :
      (fuel round : ℕ) (encrypted : Bytes)
      → encrypt_blocks pk fuel round [] encrypted ≡ ok encrypted
  unfolding encrypt_blocks
  encrypt_blocks-nil zero round encrypted = refl
  encrypt_blocks-nil (suc fuel) round encrypted = refl

  decrypt_blocks-nil :
      (fuel : ℕ) (decrypted : Bytes) → decrypt_blocks sk fuel [] decrypted ≡ ok decrypted
  unfolding decrypt_blocks
  decrypt_blocks-nil zero decrypted = refl
  decrypt_blocks-nil (suc fuel) decrypted = refl

  -- One round of each loop.
  encrypt_round :
      (fuel round b : ℕ) (rest encrypted block : Bytes)
      → pk.encrypt_oaep round (take (part (length (b ∷ rest))) (b ∷ rest)) ≡ ok block
      → encrypt_blocks pk (suc fuel) round (b ∷ rest) encrypted
        ≡ encrypt_blocks pk fuel
            (round + 1)
            (drop (part (length (b ∷ rest))) (b ∷ rest))
            (encrypted ++ block)
  unfolding encrypt_blocks part
  encrypt_round fuel round b rest encrypted block h = ground (arith, h)

  decrypt_round :
      (fuel : ℕ) (block more msg decrypted : Bytes)
      → length block ≡ sk.size
      → 0 < sk.size
      → sk.decrypt_oaep block ≡ ok msg
      → decrypt_blocks sk (suc fuel) (block ++ more) decrypted
        ≡ decrypt_blocks sk fuel more (decrypted ++ msg)
  unfolding decrypt_blocks
  decrypt_round fuel [] more msg decrypted len pos h = absurd (omega arith)
  decrypt_round fuel (c ∷ cs) more msg decrypted len pos h =
      ground
        (arith, h, take-append (c ∷ cs) more sk.size len, drop-append (c ∷ cs) more sk.size len)

  -- A block more keeps the length a multiple of the size.
  whole-step : (n : ℕ) → n % pk.size ≡ 0 → (pk.size + n) % pk.size ≡ 0
  whole-step n h = add-mod_left pk.size n ∙ h

  -- One block in front of the blocks of the rest.
  Undone-step :
      (fuel round b : ℕ) (rest encrypted block : Bytes)
      → (n : ℕ) → n ≡ part (length (b ∷ rest))
      → n ≤ pk.size
      → pk.encrypt_oaep round (take n (b ∷ rest)) ≡ ok block
      → length block ≡ pk.size
      → sk.decrypt_oaep block ≡ ok (take n (b ∷ rest))
      → Undone fuel (round + 1) (drop n (b ∷ rest)) (encrypted ++ block)
      → Undone (suc fuel) round (b ∷ rest) encrypted
  Undone-step fuel round b rest encrypted block n e fits enc len dec next = record {
    blocks = block ++ next.blocks;
    encrypts =
        encrypt_round fuel round b rest encrypted block
          (subst (λ k. pk.encrypt_oaep round (take k (b ∷ rest)) ≡ ok block) e enc)
        ∙ subst
            (λ k.
              encrypt_blocks pk fuel (round + 1) (drop k (b ∷ rest)) (encrypted ++ block)
              ≡ ok ((encrypted ++ block) ++ next.blocks))
            e next.encrypts
        ∙ ap {B = Result Bytes} ok (append_assoc encrypted block next.blocks);
    whole =
        subst (λ k. k % pk.size ≡ 0)
          (ap (λ k. k + length next.blocks) (sym len) ∙ sym (length-append block next.blocks))
          (whole-step (length next.blocks) next.whole);
    long = omega (arith, length-append block next.blocks, next.long, length-drop n (b ∷ rest));
    decrypts = λ fuel' decrypted h'. go fuel' decrypted h';
  }
    where
      go :
          (fuel' : ℕ) (decrypted : Bytes)
          → length (block ++ next.blocks) ≤ fuel'
          → decrypt_blocks sk fuel' (block ++ next.blocks) decrypted ≡ ok (decrypted ++ b ∷ rest)
      go zero decrypted h' = absurd (omega (arith, length-append block next.blocks, pair.large))
      go (suc fuel') decrypted h' =
          decrypt_round fuel' block next.blocks (take n (b ∷ rest)) decrypted
            (len ∙ sym pair.same_size) (omega (arith, pair.large, pair.same_size)) dec
          ∙ next.decrypts fuel' (decrypted ++ take n (b ∷ rest))
              (omega (arith, length-append block next.blocks, pair.large))
          ∙ ap {B = Result Bytes} ok (
              append_assoc decrypted (take n (b ∷ rest)) (drop n (b ∷ rest))
              ∙ ap (λ (l : Bytes). decrypted ++ l) (take-drop n (b ∷ rest)))

  encrypt_blocks-Undone :
      (fuel round : ℕ) (plain encrypted : Bytes)
      → length plain ≤ fuel
      → Undone fuel round plain encrypted
  encrypt_blocks-Undone fuel round [] encrypted h = record {
    blocks = [];
    encrypts =
        encrypt_blocks-nil fuel round encrypted
        ∙ ap {B = Result Bytes} ok (sym (append-nil encrypted));
    whole = zero-mod pk.size;
    long = omega arith;
    decrypts = λ fuel' decrypted h'.
        decrypt_blocks-nil fuel' decrypted ∙ ap {B = Result Bytes} ok (sym (append-nil decrypted));
  }
  encrypt_blocks-Undone zero round (b ∷ rest) encrypted h = absurd (omega arith)
  encrypt_blocks-Undone (suc fuel) round (b ∷ rest) encrypted h =
      let n = part (length (b ∷ rest)) in
      let (pos, fits, room) = part_bounds (length (b ∷ rest)) (omega arith) in
      let long_msg : length (take n (b ∷ rest)) ≡ n = length-take n (b ∷ rest) fits in
      let (block, enc, len, dec) =
        pair.inverse round (take n (b ∷ rest)) (omega (arith, long_msg, room)) in
      let next =
        encrypt_blocks-Undone fuel (round + 1) (drop n (b ∷ rest)) (encrypted ++ block)
          (omega (arith, pos, length-drop n (b ∷ rest))) in
      Undone-step fuel round b rest encrypted block n refl (omega (arith, room)) enc len dec next

encrypt_large :
    (pk : PublicKey) (b : ℕ) (rest : Bytes)
    → oaep_overhead < pk.size
    → encrypt (some pk) (b ∷ rest) ≡ encrypt_blocks pk (length (b ∷ rest)) 0 (b ∷ rest) []
unfolding encrypt
encrypt_large pk b rest large = ground arith

decrypt_whole :
    (sk : PrivateKey) (cipher : Bytes)
    → 0 < sk.size
    → 0 < length cipher
    → length cipher % sk.size ≡ 0
    → decrypt (some sk) cipher ≡ decrypt_blocks sk (length cipher) cipher []
unfolding decrypt
decrypt_whole sk [] large pos whole = absurd (omega arith)
decrypt_whole sk (b ∷ rest) large pos whole = ground arith

-- With a pair of keys that keeps what RSA-OAEP documents (`KeyPair`), data of any length is encrypted
-- with the public key, and what comes out decrypts to the data with the private one: both calls
-- succeed.
pub decrypt-encrypt :
    (pk : PublicKey) (sk : PrivateKey) (plain : Bytes)
    → KeyPair pk sk
    → (encrypted : Bytes) × (encrypt (some pk) plain ≡ ok encrypted)
      × (decrypt (some sk) encrypted ≡ ok plain)
unfolding encrypt decrypt
decrypt-encrypt pk sk [] pair = ([], refl, refl)
decrypt-encrypt pk sk (b ∷ rest) pair =
    let r = encrypt_blocks-Undone pk sk pair (length (b ∷ rest)) 0 (b ∷ rest) [] (omega arith) in
    (
      r.blocks,
      encrypt_large pk b rest pair.large ∙ r.encrypts,
      decrypt_whole sk r.blocks (omega (arith, pair.large, pair.same_size)) (omega (arith, r.long))
            (subst (λ k. length r.blocks % k ≡ 0) (sym pair.same_size) r.whole)
          ∙ r.decrypts (length r.blocks) [] (le_refl (length r.blocks)),
    )
