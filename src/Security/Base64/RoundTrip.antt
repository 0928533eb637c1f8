-- ===== src/Security/Base64/RoundTrip.antt =====
-- What was encoded is decoded to the same bytes, also without its padding.
use mathlib.Core.Path.{ap₂}
use whatsapp_sales_saas_temp.Prelude.{
  All, List, Text, [], ap, arith, false, map, nat_eq, none, refl, some, ℕ, ◌%◌, ◌*◌, ◌+◌, ◌/◌, ◌<◌,
  ◌∙◌, ◌∷◌, ◌≡◌,
}
use whatsapp_sales_saas_temp.Result.{Result, err, map_ok, ok}
use whatsapp_sales_saas_temp.Security.Base64.{
  Quad, a2b_base64, emit, equals_sign, fed_bits, feed, q0, q1, q2, q3, resume, sextet, symbol,
  translate, urlsafe_b64encode,
}

abbrev pub IsByte : ℕ → Type 0
IsByte b = b < 256

sextet-symbol : (n : ℕ) → n < 64 → sextet (translate (symbol n)) ≡ some n
unfolding sextet translate symbol
sextet-symbol n h = ground arith

symbol-ne-equals_sign : (n : ℕ) → nat_eq (translate (symbol n)) equals_sign ≡ false
unfolding translate symbol
symbol-ne-equals_sign n = ground arith

a2b_base64-symbol :
    (q : Quad) (pads n : ℕ) (s : Text)
    → n < 64
    → a2b_base64 q pads (translate (symbol n) ∷ s)
      ≡ resume (fed_bits q pads (some n)) (λ q' pads'. a2b_base64 q' pads' s)
unfolding a2b_base64 feed
a2b_base64-symbol q pads n s h = rw (symbol-ne-equals_sign n, sextet-symbol n h) refl

abbrev shown : ℕ → ℕ
shown n = translate (symbol n)

abbrev IsSextet : ℕ → Type 0
IsSextet n = n < 64

map_ok-emit-none : (r : Result (List ℕ)) → map_ok (emit none) r ≡ r
map_ok-emit-none (ok s) = refl
map_ok-emit-none (err e) = refl

-- The first two characters of a quad, with what comes behind.
a2b_base64-pair :
    (x y : ℕ) (s : Text)
    → IsSextet x
    → IsSextet y
    → a2b_base64 q0 0 (shown x ∷ shown y ∷ s)
      ≡ map_ok (λ r. (x * 4 + y / 16) ∷ r) (a2b_base64 (q2 (y % 16)) 0 s)
a2b_base64-pair x y s hx hy =
    a2b_base64-symbol q0 0 x (shown y ∷ s) hx
    ∙ rw (a2b_base64-symbol (q1 x) 0 y s hy)
        (map_ok-emit-none (map_ok (λ r. (x * 4 + y / 16) ∷ r) (a2b_base64 (q2 (y % 16)) 0 s)))

a2b_base64-third :
    (l z : ℕ) (s : Text)
    → IsSextet z
    → a2b_base64 (q2 l) 0 (shown z ∷ s)
      ≡ map_ok (λ r. (l * 16 + z / 4) ∷ r) (a2b_base64 (q3 (z % 4)) 0 s)
a2b_base64-third l z s hz = a2b_base64-symbol (q2 l) 0 z s hz

a2b_base64-fourth :
    (l w : ℕ) (s : Text)
    → IsSextet w
    → a2b_base64 (q3 l) 0 (shown w ∷ s) ≡ map_ok (λ r. (l * 64 + w) ∷ r) (a2b_base64 q0 0 s)
a2b_base64-fourth l w s hw = a2b_base64-symbol (q3 l) 0 w s hw

two_pads : (l : ℕ) → a2b_base64 (q2 l) 0 (equals_sign ∷ equals_sign ∷ []) ≡ ok []
unfolding a2b_base64 feed
two_pads l = refl

one_pad : (l : ℕ) → a2b_base64 (q3 l) 0 (equals_sign ∷ []) ≡ ok []
unfolding a2b_base64 feed
one_pad l = refl

translate-equals_sign : translate equals_sign ≡ equals_sign
unfolding translate
translate-equals_sign = refl

three_bytes :
    (a b c : ℕ) (s : List ℕ)
    → IsByte b
    → IsByte c
    → ok (
        (a / 4 * 4 + (a % 4 * 16 + b / 16) / 16)
        ∷ ((a % 4 * 16 + b / 16) % 16 * 16 + (b % 16 * 4 + c / 64) / 4)
        ∷ ((b % 16 * 4 + c / 64) % 4 * 64 + c % 64)
        ∷ s)
      ≡ ok (a ∷ b ∷ c ∷ s)
three_bytes a b c s hb hc =
    let p : a / 4 * 4 + (a % 4 * 16 + b / 16) / 16 ≡ a = omega arith in
    let q : (a % 4 * 16 + b / 16) % 16 * 16 + (b % 16 * 4 + c / 64) / 4 ≡ b = omega arith in
    let r : (b % 16 * 4 + c / 64) % 4 * 64 + c % 64 ≡ c = omega arith in rw (p, q, r) refl

-- Decoding the padded text, behind the translation.
pub a2b_base64-urlsafe_b64encode :
    (bs : List ℕ) → All IsByte bs → a2b_base64 q0 0 (map translate (urlsafe_b64encode bs)) ≡ ok bs
unfolding urlsafe_b64encode
a2b_base64-urlsafe_b64encode [] h = unfold a2b_base64 in refl
a2b_base64-urlsafe_b64encode (a ∷ []) h =
    let x : IsSextet (a / 4) = omega (arith, h.0) in
    let y : IsSextet (a % 4 * 16) = omega arith in
    rw translate-equals_sign (
      a2b_base64-pair (a / 4) (a % 4 * 16) (equals_sign ∷ equals_sign ∷ []) x y
      ∙ rw (two_pads (a % 4 * 16 % 16)) (ap (λ v. ok (v ∷ [])) (omega arith)))
a2b_base64-urlsafe_b64encode (a ∷ b ∷ []) h =
    let x : IsSextet (a / 4) = omega (arith, h.0) in
    let y : IsSextet (a % 4 * 16 + b / 16) = omega (arith, h.1.0) in
    let z : IsSextet (b % 16 * 4) = omega arith in
    let l = (a % 4 * 16 + b / 16) % 16 in
    rw translate-equals_sign (
      a2b_base64-pair (a / 4) (a % 4 * 16 + b / 16) (shown (b % 16 * 4) ∷ equals_sign ∷ []) x y
      ∙ rw (a2b_base64-third l (b % 16 * 4) (equals_sign ∷ []) z) (
          rw (one_pad (b % 16 * 4 % 4))
            (ap₂ (λ v w. ok (v ∷ w ∷ [])) (omega (arith, h.1.0)) (omega (arith, h.1.0)))))
a2b_base64-urlsafe_b64encode (a ∷ b ∷ c ∷ s) h =
    let x : IsSextet (a / 4) = omega (arith, h.0) in
    let y : IsSextet (a % 4 * 16 + b / 16) = omega (arith, h.1.0) in
    let z : IsSextet (b % 16 * 4 + c / 64) = omega (arith, h.1.1.0) in
    let w : IsSextet (c % 64) = omega arith in
    let l = (a % 4 * 16 + b / 16) % 16 in
    let m = (b % 16 * 4 + c / 64) % 4 in
    let rest = map translate (urlsafe_b64encode s) in
    a2b_base64-pair (a / 4) (a % 4 * 16 + b / 16)
      (shown (b % 16 * 4 + c / 64) ∷ shown (c % 64) ∷ rest) x y
    ∙ rw (a2b_base64-third l (b % 16 * 4 + c / 64) (shown (c % 64) ∷ rest) z) (
        rw (a2b_base64-fourth m (c % 64) rest w)
          (rw (a2b_base64-urlsafe_b64encode s h.1.1.1) (three_bytes a b c s h.1.0 h.1.1.0)))
