-- ===== src/Scripts/Init/Placeholders/Filled.antt =====
-- What a template with placeholders becomes.
use whatsapp_sales_saas_temp.Dict.{Dict, lookup}
use whatsapp_sales_saas_temp.Prelude.{
  All, Bool, List, Option, Text, [], ap, append_assoc, arith, drop-length-append, false, is_empty,
  is_space, length, length-append, lit, nat_eq, none, not, refl, some, starts_with, sym,
  take-length-append, true, ℕ, ◌++◌, ◌+◌, ◌∙◌, ◌∷◌, ◌≡◌,
}
use whatsapp_sales_saas_temp.Scripts.Init.Placeholders.{
  front, is_name_char, or_written, placeholder, placeholder_at, substituted,
}
use whatsapp_sales_saas_temp.Sub.{last_of, sub, sub_from, sub_from-match, sub_from-none}

-- A piece of a template: text without an opening brace, or a placeholder with its white space.
pub data Piece : Type 0 where
  plain_text : Text → Piece
  hole : Text → Text → Text → Piece

abbrev pub braced : Text → Text → Text → Text
braced before name after = lit "{{" ++ (before ++ (name ++ (after ++ lit "}}")))

abbrev pub IsPiece : Piece → Type 0
IsPiece (plain_text s) = All (λ c. nat_eq c b'{' ≡ false) s
IsPiece (hole before name after) =
    All (λ c. is_space c ≡ true) before
    × (All (λ c. is_name_char c ≡ true) name × (is_empty name ≡ false))
    × All (λ c. is_space c ≡ true) after

-- The template as it is written.
abbrev pub written : List Piece → Text
written [] = []
written (plain_text s ∷ ps) = s ++ written ps
written (hole before name after ∷ ps) = braced before name after ++ written ps

-- Every placeholder with an answer is the answer; one without stays as it is written.
abbrev pub filled : Dict Text → List Piece → Text
filled answers [] = []
filled answers (plain_text s ∷ ps) = s ++ filled answers ps
filled answers (hole before name after ∷ ps) =
    or_written (braced before name after) (lookup name answers) ++ filled answers ps

-- The first character, if there is one, fails the test.
abbrev pub stops : (ℕ → Bool) → Text → Bool
stops p [] = true
stops p (c ∷ s) = not (p c)

front-append :
    (p : ℕ → Bool) (s rest : Text)
    → All (λ c. p c ≡ true) s
    → stops p rest ≡ true
    → front p (s ++ rest) ≡ s
unfolding front
front-append p [] [] h t = refl
front-append p [] (c ∷ rest) h t = ground arith
front-append p (c ∷ s) rest h t = rw (h.0, front-append p s rest h.1 t) refl

stops-name :
    (name rest : Text)
    → All (λ c. is_name_char c ≡ true) name
    → is_empty name ≡ false
    → stops is_space (name ++ rest) ≡ true
unfolding is_space
stops-name [] rest h f = cc
stops-name (c ∷ name) rest h f = ground arith

stops-space :
    (after rest : Text)
    → All (λ c. is_space c ≡ true) after
    → stops is_name_char (after ++ (lit "}}" ++ rest)) ≡ true
unfolding is_space
stops-space [] rest h = refl
stops-space (c ∷ after) rest h = ground arith

length-braced :
    (before name after : Text)
    → length (braced before name after) ≡ 2 + length before + length name + length after + 2
length-braced before name after = omega (
  arith,
  length-append before (name ++ (after ++ lit "}}")),
  length-append name (after ++ lit "}}"),
  length-append after (lit "}}"),
)

braced-append :
    (before name after rest : Text)
    → braced before name after ++ rest
      ≡ lit "{{" ++ (before ++ (name ++ (after ++ (lit "}}" ++ rest))))
braced-append before name after rest = simp append_assoc

placeholder_at-braced :
    (before name after rest : Text)
    → IsPiece (hole before name after)
    → placeholder_at (braced before name after ++ rest)
      ≡ some (name, length (braced before name after))
unfolding placeholder_at starts_with is_space
placeholder_at-braced before name after rest (b, (n, f), a) =
    rw (braced-append before name after rest) (
      rw
        (front-append is_space before (name ++ (after ++ (lit "}}" ++ rest))) b
          (stops-name name (after ++ (lit "}}" ++ rest)) n f))
        (rw (drop-length-append before (name ++ (after ++ (lit "}}" ++ rest)))) (
          rw
            (front-append is_name_char name (after ++ (lit "}}" ++ rest)) n
              (stops-space after rest a))
            (rw (drop-length-append name (after ++ (lit "}}" ++ rest))) (
              rw (front-append is_space after (lit "}}" ++ rest) a refl) (
                rw (drop-length-append after (lit "}}" ++ rest))
                  (rw f (ap (λ n. some (name, n)) (sym (length-braced before name after))))))))))

placeholder-other :
    (answers : Dict Text) (before : Option ℕ) (c : ℕ) (s : Text)
    → nat_eq c b'{' ≡ false
    → placeholder answers before (c ∷ s) ≡ none
unfolding placeholder placeholder_at starts_with
placeholder-other answers before c s h = rw (h, placeholder) refl

sub_from-plain :
    (answers : Dict Text) (before : Option ℕ) (s rest : Text)
    → All (λ c. nat_eq c b'{' ≡ false) s
    → sub_from (placeholder answers) before 0 (s ++ rest)
      ≡ s ++ sub_from (placeholder answers) (last_of before s) 0 rest
sub_from-plain answers before [] rest h = refl
sub_from-plain answers before (c ∷ s) rest h =
    sub_from-none (placeholder answers) before c (s ++ rest)
      (placeholder-other answers before c (s ++ rest) h.0)
    ∙ ap (◌∷◌ c) (sub_from-plain answers (some c) s rest h.1)

placeholder-braced :
    (answers : Dict Text) (prev : Option ℕ) (before name after rest : Text)
    → IsPiece (hole before name after)
    → placeholder answers prev (braced before name after ++ rest)
      ≡ some (
        length (braced before name after),
        or_written (braced before name after) (lookup name answers),
      )
unfolding placeholder
placeholder-braced answers prev before name after rest h =
    rw (placeholder_at-braced before name after rest h, placeholder)
      (ap (λ s. some (length (braced before name after), or_written s (lookup name answers)))
        (take-length-append (braced before name after) rest))

sub_from-written :
    (answers : Dict Text) (prev : Option ℕ) (ps : List Piece)
    → All IsPiece ps
    → sub_from (placeholder answers) prev 0 (written ps) ≡ filled answers ps
sub_from-written answers prev [] h = unfold sub_from in refl
sub_from-written answers prev (plain_text s ∷ ps) h =
    sub_from-plain answers prev s (written ps) h.0
    ∙ ap (λ t. s ++ t) (sub_from-written answers (last_of prev s) ps h.1)
sub_from-written answers prev (hole before name after ∷ ps) h =
    let inside = b'{' ∷ before ++ (name ++ (after ++ lit "}}")) in
    sub_from-match (placeholder answers) prev b'{' inside (written ps)
      (or_written (braced before name after) (lookup name answers))
      (placeholder-braced answers prev before name after (written ps) h.0)
    ∙ ap (λ t. or_written (braced before name after) (lookup name answers) ++ t)
        (sub_from-written answers (last_of (some b'{') inside) ps h.1)

-- A template of placeholders, with or without white space inside the braces, between texts that hold no
-- opening brace: every placeholder with an answer becomes the answer, and all else stays as it is.
pub substituted-written :
    (answers : Dict Text) (ps : List Piece)
    → All IsPiece ps
    → substituted answers (written ps) ≡ filled answers ps
unfolding substituted sub
substituted-written answers ps h = sub_from-written answers none ps h
