-- ===== src/Security/Base64.antt =====
-- The URL-safe base64 of Python's `base64` and `binascii`, as src/sample/security/crypto.py uses it.
-- Decoding is not strict: a character outside the alphabet is passed over, and what follows the
-- padding of a quad is not read. Bytes are numbers.
pub mod RoundTrip
pub mod Padding
use whatsapp_sales_saas_temp.Ingestion.Worker.{go_on}
use whatsapp_sales_saas_temp.Prelude.{
  Bool, List, Option, Text, [], if◌then◌else◌, is_ascii, leb, length, lit, ltb, map, nat_eq, none,
  some, suc, zero, ℕ, ◌%◌, ◌&&◌, ◌*◌, ◌++◌, ◌+◌, ◌-◌, ◌/◌, ◌∷◌,
}
use whatsapp_sales_saas_temp.Result.{Result, err, map_ok, ok, value_error}

-- The alphabet, `A-Za-z0-9-_`.
unfoldable pub symbol : ℕ → ℕ
symbol n =
    if ltb n 26
    then n + 65
    else if ltb n 52
    then n + 71
    else if ltb n 62
    then n - 4
    else if ltb n 63
    then b'-'
    else b'_'

abbrev pub equals_sign : ℕ
equals_sign = b'='

-- `base64.urlsafe_b64encode`
unfoldable pub urlsafe_b64encode : List ℕ → Text
urlsafe_b64encode [] = []
urlsafe_b64encode (a ∷ []) = symbol (a / 4) ∷ symbol (a % 4 * 16) ∷ equals_sign ∷ equals_sign ∷ []
urlsafe_b64encode (a ∷ b ∷ []) =
    symbol (a / 4) ∷ symbol (a % 4 * 16 + b / 16) ∷ symbol (b % 16 * 4) ∷ equals_sign ∷ []
urlsafe_b64encode (a ∷ b ∷ c ∷ s) =
    symbol (a / 4)
    ∷ symbol (a % 4 * 16 + b / 16)
    ∷ symbol (b % 16 * 4 + c / 64)
    ∷ symbol (c % 64)
    ∷ urlsafe_b64encode s

-- The six bits of a character of the standard alphabet.
unfoldable pub sextet : ℕ → Option ℕ
sextet c =
    if leb 65 c && leb c 90
    then some (c - 65)
    else if leb 97 c && leb c 122
    then some (c - 71)
    else if leb 48 c && leb c 57
    then some (c + 4)
    else if nat_eq c b'+'
    then some 62
    else if nat_eq c b'/'
    then some 63
    else none

-- `_urlsafe_decode_translation`
unfoldable pub translate : ℕ → ℕ
translate c = if nat_eq c b'-' then b'+' else if nat_eq c b'_' then b'/' else c

-- How far a quad of characters is read, with the bits that are left over.
pub data Quad : Type 0 where
  q0 : Quad
  q1 q2 q3 : ℕ → Quad

-- What a character does: the quad, the count of pads and the byte that comes out; or the end.
pub data Fed : Type 0 where
  stop : Fed
  more : Quad → ℕ → Option ℕ → Fed

abbrev pub fed_pad : Quad → ℕ → Fed
fed_pad q0 pads = more q0 pads none
fed_pad (q1 l) pads = more (q1 l) pads none
fed_pad (q2 l) zero = more (q2 l) 1 none
fed_pad (q2 l) (suc n) = stop
fed_pad (q3 l) pads = stop

abbrev pub fed_bits : Quad → ℕ → Option ℕ → Fed
fed_bits q pads none = more q pads none
fed_bits q0 pads (some v) = more (q1 v) 0 none
fed_bits (q1 l) pads (some v) = more (q2 (v % 16)) 0 (some (l * 4 + v / 16))
fed_bits (q2 l) pads (some v) = more (q3 (v % 4)) 0 (some (l * 16 + v / 4))
fed_bits (q3 l) pads (some v) = more q0 0 (some (l * 64 + v))

unfoldable pub feed : Quad → ℕ → ℕ → Fed
feed q pads c = if nat_eq c equals_sign then fed_pad q pads else fed_bits q pads (sextet c)

abbrev pub emit : Option ℕ → List ℕ → List ℕ
emit none s = s
emit (some b) s = b ∷ s

abbrev pub resume : Fed → (Quad → ℕ → Result (List ℕ)) → Result (List ℕ)
resume stop go_on = ok []
resume (more q pads out) go_on = map_ok (emit out) (go_on q pads)

-- `binascii.Error` is a `ValueError`.
abbrev pub finished : Quad → Result (List ℕ)
finished q0 = ok []
finished (q1 l) = err (value_error (lit "Invalid base64-encoded string"))
finished (q2 l) = err (value_error (lit "Incorrect padding"))
finished (q3 l) = err (value_error (lit "Incorrect padding"))

-- `binascii.a2b_base64`
unfoldable pub a2b_base64 : Quad → ℕ → Text → Result (List ℕ)
a2b_base64 q pads [] = finished q
a2b_base64 q pads (c ∷ s) = resume (feed q pads c) (λ q' pads'. a2b_base64 q' pads' s)

-- `base64.urlsafe_b64decode` of a string
unfoldable pub urlsafe_b64decode : Text → Result (List ℕ)
unfolding a2b_base64
urlsafe_b64decode s =
    if is_ascii s
    then a2b_base64 q0 0 (map translate s)
    else err (value_error (lit "string argument should contain only ASCII characters"))

abbrev pub is_equals : ℕ → Bool
is_equals c = nat_eq c equals_sign

abbrev pub equals_signs : ℕ → Text
equals_signs zero = []
equals_signs (suc n) = equals_sign ∷ equals_signs n

-- `_pad`; `(-n) % 4` of Python is not negative.
unfoldable pub pad : Text → Text
pad value = value ++ equals_signs ((4 - length value % 4) % 4)
