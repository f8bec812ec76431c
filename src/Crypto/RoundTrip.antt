-- ===== src/Crypto/RoundTrip.antt =====
-- internal/crypto/crypto.go: Encrypt and Decrypt with one key.
use Prim.Native.String.{◌++◌ as ◌<>◌}
use text.Mathlib.Text.{◌==◌ as str_eq}
use text.Mathlib.TextEquality.{eq_iff}
use api_gateway.Prelude.{
  ℕ, ◌≡◌, refl, sym, ap, ◌∙◌, false, Option, none, some, List, [], ◌∷◌, ◌++◌, String, arith, length,
  take, drop, ltb, Bool-cases, inl, inr, length-append,
}
use api_gateway.Crypto.{
  Bytes, Gcm, Library, ok, Keys, is_empty, encrypt_with_key, decrypt_with_key, encrypt, decrypt,
  load_key, init,
}

-- What is relied on of Go's library: bytes and texts, hex and GCM take back what they gave, AES takes
-- keys of 32 bytes, and a prefix can be taken off.
pub record IsLawful {Byte : Type 0} (lib : Library Byte) : Type 0 where
  pub text_bytes : (s : String) → lib.text_of (lib.bytes_of s) ≡ s
  pub hex : (b : Bytes Byte) → lib.hex_decode (lib.hex_encode b) ≡ some b
  pub accepts :
      (key : Bytes Byte) → length key ≡ 32 → (gcm : Gcm Byte) × (lib.new_gcm key ≡ some gcm)
  pub opens :
      (key : Bytes Byte) (gcm : Gcm Byte) (n p : Bytes Byte)
      → lib.new_gcm key ≡ some gcm
      → length n ≡ gcm.nonce_size
      → gcm.unseal n (gcm.seal n p) ≡ some p
  pub prefixed : (p s : String) → lib.after_prefix p (p <> s) ≡ some s
  pub unprefixed : lib.after_prefix "enc:" "" ≡ none

take-append : {A : Type 0} (xs ys : List A) → take (length xs) (xs ++ ys) ≡ xs
take-append [] ys = refl
take-append (x ∷ xs) ys = ap (λ l. x ∷ l) (take-append xs ys)

drop-append : {A : Type 0} (xs ys : List A) → drop (length xs) (xs ++ ys) ≡ ys
drop-append [] ys = refl
drop-append (x ∷ xs) ys = drop-append xs ys

prefixed_full :
    {Byte : Type 0} (lib : Library Byte) (s : String)
    → IsLawful lib
    → str_eq ("enc:" <> s) "" ≡ false
prefixed_full lib s l = elim (Bool-cases (str_eq ("enc:" <> s) "")) [
  | inr e ↦ e
  | inl e ↦
      let gone : some s ≡ none =
        sym (l.prefixed "enc:" s)
        ∙ ap (lib.after_prefix "enc:") ((eq_iff ("enc:" <> s) "").0 e)
        ∙ l.unprefixed in
      absurd (ground (arith, gone))
]

decrypt_sealed :
    {Byte : Type 0} (lib : Library Byte) (key n p : Bytes Byte) (gcm : Gcm Byte)
    → IsLawful lib
    → is_empty key ≡ false
    → lib.new_gcm key ≡ some gcm
    → length n ≡ gcm.nonce_size
    → decrypt_with_key lib ("enc:" <> lib.hex_encode (n ++ gcm.seal n p)) key ≡ ok (lib.text_of p)
unfolding decrypt_with_key
decrypt_sealed lib key n p gcm l k g s =
    let sealed = n ++ gcm.seal n p in
    let long : ltb (length sealed) gcm.nonce_size ≡ false =
      ground (arith, s, length-append n (gcm.seal n p)) in
    rw
      (
        prefixed_full lib (lib.hex_encode sealed) l,
        l.prefixed "enc:" (lib.hex_encode sealed),
        k,
        l.hex sealed,
        g,
        long,
        sym s,
        take-append n (gcm.seal n p),
        drop-append n (gcm.seal n p),
        l.opens key gcm n p g s,
        decrypt_with_key,
      )
      refl

-- A key of 32 bytes encrypts every text, into one that it decrypts to that text.
sealed_round_trip :
    {Byte : Type 0} (lib : Library Byte) (nonce : ℕ → Option (Bytes Byte)) (plaintext : String)
    (keys : Keys Byte)
    → IsLawful lib
    → ((size : ℕ) → (n : Bytes Byte) × (nonce size ≡ some n) × (length n ≡ size))
    → length keys.active_key ≡ 32
    → (c : String) × (encrypt lib nonce plaintext keys ≡ ok c) × (decrypt lib c keys ≡ ok plaintext)
unfolding encrypt encrypt_with_key decrypt decrypt_with_key
sealed_round_trip {Byte = Byte} lib nonce plaintext keys l random size =
    elim (Bool-cases (str_eq plaintext "")) [
      | inl e ↦ ("", rw e refl, ap ok (sym ((eq_iff plaintext "").0 e)))
      | inr e ↦
          let key = keys.active_key in
          let full : is_empty key ≡ false = full_key key size in
          let g = l.accepts key size in
          let r = random g.0.nonce_size in
          (
            "enc:" <> lib.hex_encode (r.0 ++ g.0.seal r.0 (lib.bytes_of plaintext)),
            rw (e, full, g.1, r.1, encrypt_with_key) refl,
            decrypt_sealed lib key r.0 (lib.bytes_of plaintext) g.0 l full g.1 r.2
                ∙ ap ok (l.text_bytes plaintext),
          )
    ]
  where
    full_key : (k : Bytes Byte) → length k ≡ 32 → is_empty k ≡ false
    full_key [] h = absurd (omega (arith, h))
    full_key (b ∷ bs) h = refl

init_size :
    {Byte : Type 0} (lib : Library Byte) (env : String) (before keys : Keys Byte)
    → init lib env before ≡ ok keys
    → length keys.active_key ≡ 32
unfolding init load_key
init_size lib env before keys h = ground (arith, h)

-- With the laws of Go's library, after an Init that succeeds and with a source of random bytes that gives
-- as many as are asked for: Encrypt succeeds on every text, and Decrypt of its result gives the text back.
pub init-encrypt-decrypt :
    {Byte : Type 0} (lib : Library Byte) (env : String) (before keys : Keys Byte)
    (nonce : ℕ → Option (Bytes Byte)) (plaintext : String)
    → IsLawful lib
    → ((size : ℕ) → (n : Bytes Byte) × (nonce size ≡ some n) × (length n ≡ size))
    → init lib env before ≡ ok keys
    → (c : String) × (encrypt lib nonce plaintext keys ≡ ok c) × (decrypt lib c keys ≡ ok plaintext)
init-encrypt-decrypt lib env before keys nonce plaintext l random h =
    sealed_round_trip lib nonce plaintext keys l random (init_size lib env before keys h)
