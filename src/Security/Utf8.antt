-- ===== src/Security/Utf8.antt =====
-- `str.encode("utf-8")` and `bytes.decode("utf-8")` of Python, strict. The text of a
-- `UnicodeEncodeError` or a `UnicodeDecodeError`, both `ValueError`s, is cut short.
pub mod RoundTrip
use whatsapp_sales_saas_temp.Prelude.{
  Bool, List, Text, [], if◌then◌else◌, leb, lit, ltb, suc, true, zero, ℕ, ◌%◌, ◌&&◌, ◌*◌, ◌++◌, ◌+◌,
  ◌-◌, ◌/◌, ◌||◌, ◌∷◌,
}
use whatsapp_sales_saas_temp.Result.{Error, Result, err, map_ok, ok, value_error}

-- A code point that is not half of a surrogate pair.
unfoldable pub is_scalar : ℕ → Bool
is_scalar c = ltb c 0xd800 || (leb 0xe000 c && ltb c 0x110000)

unfoldable pub utf8_of : ℕ → List ℕ
utf8_of c =
    if ltb c 0x80
    then c ∷ []
    else if ltb c 0x800
    then (192 + c / 64) ∷ (128 + c % 64) ∷ []
    else if ltb c 0x10000
    then (224 + c / 4096) ∷ (128 + c / 64 % 64) ∷ (128 + c % 64) ∷ []
    else (240 + c / 262144) ∷ (128 + c / 4096 % 64) ∷ (128 + c / 64 % 64) ∷ (128 + c % 64) ∷ []

unfoldable pub utf8_bytes : Text → List ℕ
utf8_bytes [] = []
utf8_bytes (c ∷ s) = utf8_of c ++ utf8_bytes s

abbrev pub all_scalar : Text → Bool
all_scalar [] = true
all_scalar (c ∷ s) = is_scalar c && all_scalar s

unfoldable pub encode_utf8 : Text → Result (List ℕ)
encode_utf8 s =
    if all_scalar s
    then ok (utf8_bytes s)
    else err (value_error (lit "'utf-8' codec can't encode: surrogates not allowed"))

-- Between two bytes: at a code point's end, or with `left + 1` continuation bytes to come, the bits so
-- far, and the least code point that may be written at this length.
pub data Pending : Type 0 where
  idle : Pending
  want : ℕ → ℕ → ℕ → Pending

pub data Seen : Type 0 where
  malformed : Seen
  wait : Pending → Seen
  whole : ℕ → Seen

unfoldable pub first_byte : ℕ → Seen
first_byte b =
    if ltb b 128
    then whole b
    else if leb 194 b && ltb b 224
    then wait (want 0 (b - 192) 0x80)
    else if leb 224 b && ltb b 240
    then wait (want 1 (b - 224) 0x800)
    else if leb 240 b && ltb b 245
    then wait (want 2 (b - 240) 0x10000)
    else malformed

abbrev pub next_byte : ℕ → ℕ → ℕ → Seen
next_byte zero bits least = if leb least bits && is_scalar bits then whole bits else malformed
next_byte (suc left) bits least = wait (want left bits least)

unfoldable pub see : Pending → ℕ → Seen
unfolding first_byte is_scalar
see idle b = first_byte b
see (want left bits least) b =
    if leb 128 b && ltb b 192 then next_byte left (bits * 64 + (b - 128)) least else malformed

abbrev pub undecodable : Error
undecodable = value_error (lit "'utf-8' codec can't decode")

abbrev pub read_on : Seen → (Pending → Result Text) → Result Text
read_on malformed rest = err undecodable
read_on (wait p) rest = rest p
read_on (whole c) rest = map_ok (λ s. c ∷ s) (rest idle)

abbrev pub at_end : Pending → Result Text
at_end idle = ok []
at_end (want left bits least) = err undecodable

unfoldable pub utf8_from : Pending → List ℕ → Result Text
utf8_from p [] = at_end p
utf8_from p (b ∷ bs) = read_on (see p b) (λ q. utf8_from q bs)

unfoldable pub decode_utf8 : List ℕ → Result Text
unfolding utf8_from
decode_utf8 bs = utf8_from idle bs
