-- ===== src/Security/Utf8/RoundTrip.antt =====
-- What was encoded is decoded to the same text.
use whatsapp_sales_saas_temp.Prelude.{
  All, All-append, Bool-cases, List, Text, [], arith, inl, inr, ltb, refl, true, zero, ℕ, ◌%◌, ◌*◌,
  ◌++◌, ◌+◌, ◌/◌, ◌<◌, ◌∙◌, ◌∷◌, ◌≡◌, ◌≤◌,
}
use whatsapp_sales_saas_temp.Result.{map_ok, ok}
use whatsapp_sales_saas_temp.Security.Base64.RoundTrip.{IsByte}
use whatsapp_sales_saas_temp.Security.Utf8.{
  all_scalar, decode_utf8, first_byte, idle, is_scalar, next_byte, see, utf8_bytes, utf8_from,
  utf8_of, wait, want, whole,
}

see-continuation :
    (left bits least v : ℕ)
    → v < 64
    → see (want left bits least) (128 + v) ≡ next_byte left (bits * 64 + v) least
unfolding see
see-continuation left bits least v h = ground arith

next_byte-whole :
    (bits least c : ℕ)
    → bits ≡ c
    → least ≤ c
    → is_scalar c ≡ true
    → next_byte zero bits least ≡ whole c
next_byte-whole bits least c e l s = rw e (ground arith)

see-two : (v : ℕ) → 2 ≤ v → v < 32 → see idle (192 + v) ≡ wait (want 0 v 0x80)
unfolding see first_byte
see-two v l h = ground arith

see-three : (v : ℕ) → v < 16 → see idle (224 + v) ≡ wait (want 1 v 0x800)
unfolding see first_byte
see-three v h = ground arith

see-four : (v : ℕ) → v < 5 → see idle (240 + v) ≡ wait (want 2 v 0x10000)
unfolding see first_byte
see-four v h = ground arith

module _ (c : ℕ) (rest : List ℕ) (scalar : is_scalar c ≡ true) where
  abbrev Reads : List ℕ → Type 0
  Reads bs = utf8_from idle (bs ++ rest) ≡ map_ok (λ s. c ∷ s) (utf8_from idle rest)

  one_byte : c < 0x80 → Reads (c ∷ [])
  unfolding utf8_from see first_byte
  one_byte h = let t : ltb c 128 ≡ true = ground arith in rw t refl

  two_bytes : 0x80 ≤ c → c < 0x800 → Reads ((192 + c / 64) ∷ (128 + c % 64) ∷ [])
  unfolding utf8_from
  two_bytes l h = rw (see-two (c / 64) (omega arith) (omega arith)) (
      rw (see-continuation 0 (c / 64) 0x80 (c % 64) (omega arith))
        (rw (next_byte-whole (c / 64 * 64 + c % 64) 0x80 c (omega arith) l scalar) refl))

  three_bytes :
      0x800 ≤ c → c < 0x10000 → Reads ((224 + c / 4096) ∷ (128 + c / 64 % 64) ∷ (128 + c % 64) ∷ [])
  unfolding utf8_from
  three_bytes l h =
      let bits = c / 4096 * 64 + c / 64 % 64 in
      rw (see-three (c / 4096) (omega arith)) (
        rw (see-continuation 1 (c / 4096) 0x800 (c / 64 % 64) (omega arith)) (
          rw (see-continuation 0 bits 0x800 (c % 64) (omega arith))
            (rw (next_byte-whole (bits * 64 + c % 64) 0x800 c (omega arith) l scalar) refl)))

  four_bytes :
      0x10000 ≤ c
      → c < 0x110000
      → Reads
          ((240 + c / 262144) ∷ (128 + c / 4096 % 64) ∷ (128 + c / 64 % 64) ∷ (128 + c % 64) ∷ [])
  unfolding utf8_from
  four_bytes l h =
      let high = c / 262144 * 64 + c / 4096 % 64 in
      let bits = high * 64 + c / 64 % 64 in
      rw (see-four (c / 262144) (omega arith)) (
        rw (see-continuation 2 (c / 262144) 0x10000 (c / 4096 % 64) (omega arith)) (
          rw (see-continuation 1 high 0x10000 (c / 64 % 64) (omega arith)) (
            rw (see-continuation 0 bits 0x10000 (c % 64) (omega arith))
              (rw (next_byte-whole (bits * 64 + c % 64) 0x10000 c (omega arith) l scalar) refl))))

  utf8_from-utf8_of : Reads (utf8_of c)
  unfolding utf8_of
  utf8_from-utf8_of =
      let top : c < 0x110000 = unfold is_scalar in ground arith in
      elim (Bool-cases (ltb c 0x80)) [
        | inl a ↦ rw a (one_byte (ground arith))
        | inr a ↦ rw a (elim (Bool-cases (ltb c 0x800)) [
          | inl b ↦ rw b (two_bytes (ground arith) (ground arith))
          | inr b ↦ rw b (elim (Bool-cases (ltb c 0x10000)) [
            | inl d ↦ rw d (three_bytes (ground arith) (ground arith))
            | inr d ↦ rw d (four_bytes (ground arith) top)
          ])
        ])
      ]

utf8_of-IsByte : (c : ℕ) → is_scalar c ≡ true → All IsByte (utf8_of c)
unfolding utf8_of is_scalar
utf8_of-IsByte c h = ground arith

all_scalar-cons :
    (c : ℕ) (s : Text) → all_scalar (c ∷ s) ≡ true → (is_scalar c ≡ true) × (all_scalar s ≡ true)
all_scalar-cons c s h = ground arith

pub utf8_bytes-IsByte : (s : Text) → all_scalar s ≡ true → All IsByte (utf8_bytes s)
unfolding utf8_bytes
utf8_bytes-IsByte [] h = tt
utf8_bytes-IsByte (c ∷ s) h =
    let (scalar, rest) = all_scalar-cons c s h in
    All-append IsByte (utf8_of c) (utf8_bytes s) (utf8_of-IsByte c scalar)
      (utf8_bytes-IsByte s rest)

-- Decoding what was encoded, for a text without surrogates.
pub decode_utf8-utf8_bytes : (s : Text) → all_scalar s ≡ true → decode_utf8 (utf8_bytes s) ≡ ok s
unfolding decode_utf8 utf8_bytes
decode_utf8-utf8_bytes [] h = unfold utf8_from in refl
decode_utf8-utf8_bytes (c ∷ s) h =
    let (scalar, rest) = all_scalar-cons c s h in
    utf8_from-utf8_of c (utf8_bytes s) scalar ∙ rw (decode_utf8-utf8_bytes s rest) refl
