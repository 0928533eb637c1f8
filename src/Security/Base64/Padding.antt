-- ===== src/Security/Base64/Padding.antt =====
-- Taking the padding off and putting it back, as src/sample/security/crypto.py does.
use whatsapp_sales_saas_temp.Prelude.{
  All, List, Text, [], ap, arith, false, is_ascii, ltb, nat_eq, refl, strip_right, true, ℕ, ◌%◌,
  ◌*◌, ◌++◌, ◌+◌, ◌/◌, ◌∷◌, ◌≡◌,
}
use whatsapp_sales_saas_temp.Result.{ok}
use whatsapp_sales_saas_temp.Security.Base64.{
  equals_sign, equals_signs, is_equals, pad, symbol, urlsafe_b64decode, urlsafe_b64encode,
}
use whatsapp_sales_saas_temp.Security.Base64.RoundTrip.{IsByte, a2b_base64-urlsafe_b64encode}

is_symbol : (n : ℕ) → nat_eq (symbol n) equals_sign ≡ false
unfolding symbol
is_symbol n = ground arith

strip_right-symbol :
    (n : ℕ) (s : Text) → strip_right is_equals (symbol n ∷ s) ≡ symbol n ∷ strip_right is_equals s
unfolding strip_right
strip_right-symbol n s = rw (is_symbol n) refl

strip_right-quad :
    (x y z w : ℕ) (s : Text)
    → strip_right is_equals (symbol x ∷ symbol y ∷ symbol z ∷ symbol w ∷ s)
      ≡ symbol x ∷ symbol y ∷ symbol z ∷ symbol w ∷ strip_right is_equals s
strip_right-quad x y z w s =
    rw (strip_right-symbol x, strip_right-symbol y, strip_right-symbol z, strip_right-symbol w)

pad-quad : (x y z w : ℕ) (s : Text) → pad (x ∷ y ∷ z ∷ w ∷ s) ≡ x ∷ y ∷ z ∷ w ∷ pad s
unfolding pad
pad-quad x y z w s = ap (λ n. x ∷ y ∷ z ∷ w ∷ (s ++ equals_signs n)) (omega arith)

-- The padding that was stripped from an encoded text is the one that is put back.
pub pad-strip_right :
    (bs : List ℕ) → pad (strip_right is_equals (urlsafe_b64encode bs)) ≡ urlsafe_b64encode bs
unfolding urlsafe_b64encode
pad-strip_right [] = unfold pad strip_right in refl
pad-strip_right (a ∷ []) =
    rw (strip_right-symbol (a / 4), strip_right-symbol (a % 4 * 16))
      (unfold pad strip_right in refl)
pad-strip_right (a ∷ b ∷ []) =
    rw
      (
        strip_right-symbol (a / 4),
        strip_right-symbol (a % 4 * 16 + b / 16),
        strip_right-symbol (b % 16 * 4),
      )
      (unfold pad strip_right in refl)
pad-strip_right (a ∷ b ∷ c ∷ s) =
    rw
      (strip_right-quad (a / 4) (a % 4 * 16 + b / 16) (b % 16 * 4 + c / 64) (c % 64)
        (urlsafe_b64encode s))
      (rw pad-quad (rw (pad-strip_right s) refl))

symbol-ascii : (n : ℕ) → ltb (symbol n) 128 ≡ true
unfolding symbol
symbol-ascii n = ground arith

pub urlsafe_b64encode-is_ascii : (bs : List ℕ) → is_ascii (urlsafe_b64encode bs) ≡ true
unfolding urlsafe_b64encode
urlsafe_b64encode-is_ascii [] = refl
urlsafe_b64encode-is_ascii (a ∷ []) = simp symbol-ascii
urlsafe_b64encode-is_ascii (a ∷ b ∷ []) = simp symbol-ascii
urlsafe_b64encode-is_ascii (a ∷ b ∷ c ∷ s) = simp (symbol-ascii, urlsafe_b64encode-is_ascii s)

-- An encoded text without its padding is decoded, once padded, to the bytes that it was made of.
pub urlsafe_b64decode-pad :
    (bs : List ℕ)
    → All IsByte bs
    → urlsafe_b64decode (pad (strip_right is_equals (urlsafe_b64encode bs))) ≡ ok bs
unfolding urlsafe_b64decode
urlsafe_b64decode-pad bs h =
    rw (pad-strip_right bs) (rw (urlsafe_b64encode-is_ascii bs) (a2b_base64-urlsafe_b64encode bs h))
