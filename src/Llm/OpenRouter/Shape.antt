-- ===== src/Llm/OpenRouter/Shape.antt =====
-- The subscripts `data["choices"][0]["message"]["content"]`.
use whatsapp_sales_saas_temp.Llm.OpenRouter.{chosen, index_key, index_zero}
use whatsapp_sales_saas_temp.Prelude.{
  Option-cases, Text, [], ap, inl, inr, lit, refl, some, subst, sym, ℕ, ◌∙◌, ◌∷◌, ◌≡◌,
}
use whatsapp_sales_saas_temp.Result.{
  Error, Result, bind_ok, err, index_error, int_key_error, key_error, llm_error, ok, type_error,
  ◌>>=◌,
}
use whatsapp_sales_saas_temp.Value.{
  Fields, Value, Values, array, bool, cons, find_field, int, nil, null, object, str,
}

-- The documented shape: the content of the message of the first choice.
pub data Picks : Value → Value → Type 0 where
  picks :
      (fs ch msg : Fields) (others : Values) {c : Value}
      → find_field (lit "choices") fs ≡ some (array (cons (object ch) others))
      → find_field (lit "message") ch ≡ some (object msg)
      → find_field (lit "content") msg ≡ some c
      → Picks (object fs) c

pub Picks-chosen : (v c : Value) → Picks v c → chosen v ≡ ok c
unfolding index_key index_zero
Picks-chosen _ c (picks fs ch msg others p q r) =
    rw (p, index_key) (rw (q, index_key) (rw (r, index_key) refl))

ok_injective : (v c : Value) → ◌≡◌ {A = Result Value} (ok v) (ok c) → v ≡ c
ok_injective v c h = cc

index_key-ok :
    (k : Text) (v c : Value)
    → index_key k v ≡ ok c
    → (fs : Fields) × (v ≡ object fs) × (find_field k fs ≡ some c)
unfolding index_key
index_key-ok k (object fs) c h = elim (Option-cases (find_field k fs)) [
  | inl e ↦ absurd (let g = rw (e, index_key) at h in cc)
  | inr (v, e) ↦ let g = rw (e, index_key) at h in (fs, refl, e ∙ ap some (ok_injective v c g))
]
index_key-ok k _ c h = cc

err_injective : (x y : Error) → ◌≡◌ {A = Result Value} (err x) (err y) → x ≡ y
err_injective x y h = cc

-- What `v[0]` gives to a further `[key]` is the first of a list.
index_zero-ok :
    (v : Value) (fs : Fields)
    → index_zero v ≡ ok (object fs)
    → (vs : Values) × (v ≡ array (cons (object fs) vs))
unfolding index_zero
index_zero-ok (array (cons w vs)) fs h =
    (vs, ap (λ x. array (cons x vs)) (ok_injective w (object fs) h))
index_zero-ok (array nil) fs h = cc
index_zero-ok (str []) fs h = cc
index_zero-ok (str (c ∷ s)) fs h = cc
index_zero-ok (object gs) fs h = cc
index_zero-ok _ fs h = cc

pub chosen-Picks : (v c : Value) → chosen v ≡ ok c → Picks v c
chosen-Picks v c h =
    let (cs, e, h1) =
      bind_ok (index_key (lit "choices") v)
        (λ cs. index_zero cs >>= λ ch. index_key (lit "message") ch >>= index_key (lit "content")) c
        h in
    let (ch, f, h2) =
      bind_ok (index_zero cs) (λ ch. index_key (lit "message") ch >>= index_key (lit "content")) c
        h1 in
    let (m, g, h3) = bind_ok (index_key (lit "message") ch) (index_key (lit "content")) c h2 in
    let (fs, ve, p) = index_key-ok (lit "choices") v cs e in
    let (chs, che, q) = index_key-ok (lit "message") ch m g in
    let (ms, me, r) = index_key-ok (lit "content") m c h3 in
    let (vs, k) = index_zero-ok cs chs (f ∙ ap ok che) in
    subst (λ w. Picks w c) (sym ve) (picks fs chs ms vs (p ∙ ap some k) (q ∙ ap some me) r)

abbrev pub IsTypeError : Error → Type 0
IsTypeError e = (m : Text) × (e ≡ type_error m)

abbrev pub IsLlmError : Error → Type 0
IsLlmError e = (m : Text) × (e ≡ llm_error m)

-- What a subscript raises.
pub data IsLookupError : Error → Type 0 where
  missing : (m : Text) → IsLookupError (key_error m)
  missing_number : (n : ℕ) → IsLookupError (int_key_error n)
  outside : (m : Text) → IsLookupError (index_error m)
  no_subscript : (m : Text) → IsLookupError (type_error m)

as_raised :
    (x e : Error) → ◌≡◌ {A = Result Value} (err x) (err e) → IsLookupError x → IsLookupError e
as_raised x e h i = subst IsLookupError (err_injective x e h) i

index_key-fails : (k : Text) (v : Value) (e : Error) → index_key k v ≡ err e → IsLookupError e
unfolding index_key
index_key-fails k (object fs) e h = elim (Option-cases (find_field k fs)) [
  | inl n ↦ let g = rw (n, index_key) at h in as_raised _ e g (missing k)
  | inr (v, n) ↦ let g = rw (n, index_key) at h in absurd (cc)
]
index_key-fails k null e h = as_raised _ e h (no_subscript _)
index_key-fails k (bool b) e h = as_raised _ e h (no_subscript _)
index_key-fails k (int n) e h = as_raised _ e h (no_subscript _)
index_key-fails k (str s) e h = as_raised _ e h (no_subscript _)
index_key-fails k (array vs) e h = as_raised _ e h (no_subscript _)

index_zero-fails : (v : Value) (e : Error) → index_zero v ≡ err e → IsLookupError e
unfolding index_zero
index_zero-fails (array nil) e h = as_raised _ e h (outside _)
index_zero-fails (array (cons v vs)) e h = absurd (cc)
index_zero-fails (str []) e h = as_raised _ e h (outside _)
index_zero-fails (str (c ∷ s)) e h = absurd (cc)
index_zero-fails (object fs) e h = as_raised _ e h (missing_number 0)
index_zero-fails null e h = as_raised _ e h (no_subscript _)
index_zero-fails (bool b) e h = as_raised _ e h (no_subscript _)
index_zero-fails (int n) e h = as_raised _ e h (no_subscript _)

-- A chain fails where one of its steps does.
bind_fails :
    (r : Result Value) (f : Value → Result Value) (e : Error)
    → ((x : Error) → r ≡ err x → IsLookupError x)
    → ((v : Value) → f v ≡ err e → IsLookupError e)
    → r >>= f ≡ err e
    → IsLookupError e
bind_fails (ok v) f e h k q = k v q
bind_fails (err x) f e h k q = h e q

pub chosen-fails : (v : Value) (e : Error) → chosen v ≡ err e → IsLookupError e
chosen-fails v e h =
    bind_fails (index_key (lit "choices") v)
      (λ cs. index_zero cs >>= λ ch. index_key (lit "message") ch >>= index_key (lit "content")) e
      (index_key-fails (lit "choices") v)
      (λ cs.
        bind_fails (index_zero cs)
          (λ ch. index_key (lit "message") ch >>= index_key (lit "content")) e (index_zero-fails cs)
          (λ ch.
            bind_fails (index_key (lit "message") ch) (index_key (lit "content")) e
              (index_key-fails (lit "message") ch) (λ m. index_key-fails (lit "content") m e)))
      h
