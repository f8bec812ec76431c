-- ===== src/Tests/Secrets.antt =====
-- A concrete run of the theorem on encryption: bytes are characters, and nothing is encrypted.
use Prim.Native.Char.{Char, code}
use Prim.Native.String.{[] as empty, ◌∷◌ as ◌<:◌, ◌++◌ as ◌<>◌}
use text.Mathlib.TextLemmas.{nil-append, cons-append}
use api_gateway.Prelude.{
  ℕ, zero, suc, ◌≡◌, refl, ap, true, Option, none, some, List, [], ◌∷◌, String, arith, length, ◌==◌,
  if◌then◌else◌,
}
use api_gateway.Crypto.{Gcm, Library, Keys, ok, encrypt, decrypt, init, load_key}
use api_gateway.Crypto.RoundTrip.{IsLawful, init-encrypt-decrypt}

same_char : (c : Char) → (code c == code c) ≡ true
same_char c = ground arith

abbrev strip : String → String → Option String
strip empty s = some s
strip (c <: p) empty = none
strip (c <: p) (d <: s) = let rest = strip p s in if code c == code d then rest else none

strip-append : (p s : String) → strip p (p <> s) ≡ some s
strip-append empty s = rw (nil-append s) refl
strip-append (c <: p) s = rw (cons-append c p s, same_char c) (strip-append p s)

abbrev chars : String → List Char
chars empty = []
chars (c <: s) = c ∷ chars s

abbrev string : List Char → String
string [] = empty
string (c ∷ cs) = c <: string cs

chars-string : (cs : List Char) → chars (string cs) ≡ cs
chars-string [] = refl
chars-string (c ∷ cs) = ap (λ l. c ∷ l) (chars-string cs)

string-chars : (s : String) → string (chars s) ≡ s
string-chars empty = refl
string-chars (c <: s) = ap (λ l. c <: l) (string-chars s)

abbrev gcm : Gcm Char
gcm = record { nonce_size = 2; seal = λ n p. p; unseal = λ n c. some c }

abbrev library : Library Char
library = record {
  bytes_of = chars;
  text_of = string;
  hex_encode = string;
  hex_decode = λ s. some (chars s);
  new_gcm = λ key. some gcm;
  after_prefix = strip;
  trim_space = λ s. s;
}

library-IsLawful : IsLawful library
library-IsLawful = record {
  text_bytes = string-chars;
  hex = λ b. ap some (chars-string b);
  accepts = λ key h. (gcm, refl);
  opens = λ key g n p h s. ground (arith, h);
  prefixed = strip-append;
  unprefixed = refl;
}

abbrev no_keys : Keys Char
no_keys = record { active_key = []; key_source = "" }

abbrev secret : String
secret = "0123456789abcdef0123456789abcdef"

abbrev keys : Keys Char
keys = record { active_key = chars secret; key_source = "env:APIGATEWAY_KEY" }

abbrev fill : (c : Char) (n : ℕ) → List Char
fill c zero = []
fill c (suc n) = c ∷ fill c n

fill-length : (c : Char) (n : ℕ) → length (fill c n) ≡ n
fill-length c zero = refl
fill-length c (suc n) = omega (arith, fill-length c n)

init-encrypt-decrypt_example :
    (c : String) × (encrypt library (λ n. some (fill "x" n)) "sk-1" keys ≡ ok c)
    × (decrypt library c keys ≡ ok "sk-1")
unfolding init load_key
init-encrypt-decrypt_example =
    init-encrypt-decrypt library secret no_keys keys (λ n. some (fill "x" n)) "sk-1"
      library-IsLawful (λ n. (fill "x" n, refl, fill-length "x" n)) refl
