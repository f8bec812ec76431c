-- ===== src/Crypto.antt =====
-- internal/crypto/crypto.go: the encryption of secrets that the database keeps, and the master key. The hint
-- at an old key file, which is only part of the text of an error, and the lock are left out.
pub mod RoundTrip
use Prim.Native.String.{◌++◌ as ◌<>◌}
use text.Mathlib.Text.{◌==◌ as str_eq}
use api_gateway.Prelude.{
  ℕ, Bool, true, false, not, Option, none, some, List, [], ◌∷◌, ◌++◌, String, if◌then◌else◌, length,
  take, drop, ltb, ◌==◌,
}

-- A slice of bytes, over Go's type of a byte.
abbrev pub Bytes : Type 0 → Type 0
Bytes Byte = List Byte

-- `cipher.AEAD` with no additional data: the text after the nonce, and the plaintext unless it was tampered
-- with.
pub record Gcm (Byte : Type 0) : Type 0 where
  pub nonce_size : ℕ
  pub seal : Bytes Byte → Bytes Byte → Bytes Byte
  pub unseal : Bytes Byte → Bytes Byte → Option (Bytes Byte)

-- What the code takes from Go's library.
pub record Library (Byte : Type 0) : Type 0 where
  -- `[]byte(s)` and `string(b)`.
  pub bytes_of : String → Bytes Byte
  pub text_of : Bytes Byte → String
  -- Package hex.
  pub hex_encode : Bytes Byte → String
  pub hex_decode : String → Option (Bytes Byte)
  -- `aes.NewCipher` and then `cipher.NewGCM`.
  pub new_gcm : Bytes Byte → Option (Gcm Byte)
  -- `strings.HasPrefix` with `strings.TrimPrefix`: the rest after the prefix, `none` without it.
  pub after_prefix : String → String → Option String
  pub trim_space : String → String

pub data Error : Type 0 where
  not_initialised bad_hex bad_cipher no_randomness too_short tampered missing_key bad_length : Error

pub data Result (A : Type 0) : Type 0 where
  failed : Error → Result A
  ok : A → Result A

-- `activeKey` and `keySource`; no key is the empty list.
pub record Keys (Byte : Type 0) : Type 0 where
  pub active_key : Bytes Byte
  pub key_source : String

abbrev pub is_empty : {Byte : Type 0} → Bytes Byte → Bool
is_empty [] = true
is_empty (b ∷ bs) = false

-- `nonce` is what `io.ReadFull(rand.Reader, _)` gives for the size, `none` an error.
unfoldable pub encrypt_with_key :
    {Byte : Type 0} → Library Byte → (ℕ → Option (Bytes Byte)) → String → Bytes Byte → Result String
encrypt_with_key lib nonce plaintext key =
    if str_eq plaintext ""
    then ok ""
    else if is_empty key
    then failed not_initialised
    else elim (lib.new_gcm key) [
      | none ↦ failed bad_cipher
      | some gcm ↦ elim (nonce gcm.nonce_size) [
        | none ↦ failed no_randomness
        | some n ↦ ok ("enc:" <> lib.hex_encode (n ++ gcm.seal n (lib.bytes_of plaintext)))
      ]
    ]

unfoldable pub decrypt_with_key :
    {Byte : Type 0} → Library Byte → String → Bytes Byte → Result String
decrypt_with_key lib ciphertext key =
    if str_eq ciphertext "" then ok "" else elim (lib.after_prefix "enc:" ciphertext) [
      | none ↦ ok ciphertext
      | some hex ↦ if is_empty key then failed not_initialised else elim (lib.hex_decode hex) [
        | none ↦ failed bad_hex
        | some data_ ↦ elim (lib.new_gcm key) [
          | none ↦ failed bad_cipher
          | some gcm ↦
              if ltb (length data_) gcm.nonce_size
              then failed too_short
              else elim (gcm.unseal (take gcm.nonce_size data_) (drop gcm.nonce_size data_)) [
                | none ↦ failed tampered
                | some plaintext ↦ ok (lib.text_of plaintext)
              ]
        ]
      ]
    ]

unfoldable pub encrypt :
    {Byte : Type 0} → Library Byte → (ℕ → Option (Bytes Byte)) → String → Keys Byte → Result String
unfolding encrypt_with_key
encrypt lib nonce plaintext keys = encrypt_with_key lib nonce plaintext keys.active_key

unfoldable pub decrypt : {Byte : Type 0} → Library Byte → String → Keys Byte → Result String
unfolding decrypt_with_key
decrypt lib ciphertext keys = decrypt_with_key lib ciphertext keys.active_key

-- `env` is `os.Getenv("APIGATEWAY_KEY")`.
unfoldable pub load_key : {Byte : Type 0} → Library Byte → String → Result (Bytes Byte × String)
load_key lib env =
    let v = lib.trim_space env in
    if str_eq v "" then failed missing_key else elim (lib.hex_decode v) [
      | none ↦ failed bad_hex
      | some key ↦
          if not (length key == 32) then failed bad_length else ok (key, "env:APIGATEWAY_KEY")
    ]

-- The keys after Init, which leaves them as they are if it fails.
unfoldable pub init : {Byte : Type 0} → Library Byte → String → Keys Byte → Result (Keys Byte)
unfolding load_key
init lib env keys = elim (load_key lib env) [
  | failed e ↦ failed e
  | ok (key, source) ↦ ok (record { active_key = key; key_source = source })
]
