-- ===== src/Memory/History.antt =====
-- The memory against the whole history of what was remembered.
use Prim.Native.Nat.{min}
use whatsapp_sales_saas_temp.Dict.{lookup}
use whatsapp_sales_saas_temp.Dict.Laws.{lookup-insert}
use whatsapp_sales_saas_temp.Memory.{
  BuyerInteraction, Memory, bucket, or_nil, recall, remember, trimmed,
}
use whatsapp_sales_saas_temp.Prelude.{
  Bool-cases, List, Text, [], ap, append-nil, append_assoc, arith, drop, drop-append, drop-drop,
  eq_iff, filter, if◌then◌else◌, inl, inr, length, length-append, length-drop, ltb, map, none, pos,
  refl, some, suc, take_last, ℕ, ◌++◌, ◌-◌, ◌==◌, ◌∙◌, ◌∷◌, ◌≡◌,
}
use whatsapp_sales_saas_temp.Security.LogFilter.{same}

-- `async remember` calls, in order.
unfoldable pub remember_all : List (Text × BuyerInteraction) → Memory → Memory
remember_all [] m = m
remember_all ((b, x) ∷ log) m = remember_all log (remember b x m)

pub remember_all-append :
    (xs ys : List (Text × BuyerInteraction)) (m : Memory)
    → remember_all (xs ++ ys) m ≡ remember_all ys (remember_all xs m)
unfolding remember_all
remember_all-append [] ys m = refl
remember_all-append ((b, x) ∷ xs) ys m = remember_all-append xs ys (remember b x m)

-- What each buyer has said and been told, with one entry more.
abbrev pub extended :
    Text → BuyerInteraction → (Text → List BuyerInteraction) → Text → List BuyerInteraction
extended k x h b = if k == b then h b ++ x ∷ [] else h b

-- What one buyer has said and been told.
abbrev pub said_with : Text → List (Text × BuyerInteraction) → List BuyerInteraction
said_with b log = map (λ e. e.1) (filter (λ e. e.0 == b) log)

pub trimmed-take_last : (n : ℕ) (xs : List BuyerInteraction) → trimmed n xs ≡ take_last n xs
unfolding trimmed
trimmed-take_last n xs = elim (Bool-cases (ltb n (length xs))) [
  | inl long ↦ rw long
  | inr short ↦ let e : length xs - n ≡ 0 = ground arith in rw (short, e)
]

-- The window moves by one.
take_last-concat :
    (n : ℕ) (h : List BuyerInteraction) (x : BuyerInteraction)
    → take_last n (take_last n h ++ x ∷ []) ≡ take_last n (h ++ x ∷ [])
take_last-concat n h x =
    let a = length h - n in
    rw (← drop-append a h (x ∷ []) (omega arith)) (
      rw drop-drop (
        ap (λ k. drop k (h ++ x ∷ []))
          (omega (arith, length-drop a (h ++ x ∷ []), length-append h (x ∷ [])))))

-- The memory keeps, for every buyer, the last `n` entries of a history.
pub record Tracks (n : ℕ) (m : Memory) (h : Text → List BuyerInteraction) : Type 0 where
  pub cap : m.max_items ≡ n
  pub window : (b : Text) → bucket b m ≡ take_last n (h b)

pub bucket-remember :
    (k : Text) (x : BuyerInteraction) (m : Memory) (b : Text)
    → bucket b (remember k x m)
      ≡ (if k == b then trimmed m.max_items (bucket b m ++ x ∷ []) else bucket b m)
unfolding remember bucket
bucket-remember k x m b = ground (
  arith,
  eq_iff k b,
  lookup-insert b k (trimmed m.max_items (or_nil (lookup k m.store) ++ x ∷ [])) m.store,
)

pub Tracks-remember :
    (n : ℕ) (k : Text) (x : BuyerInteraction) {m : Memory} {h : Text → List BuyerInteraction}
    → Tracks n m h
    → Tracks n (remember k x m) (extended k x h)
unfolding remember
Tracks-remember n k x {m} {h} t = record {
  cap = t.cap;
  window = λ b.
      bucket-remember k x m b
      ∙ rw (t.cap, t.window b, trimmed-take_last, take_last-concat) (ground arith);
}

-- The history so far, and then the calls of `log`.
abbrev pub told :
    (Text → List BuyerInteraction) → List (Text × BuyerInteraction) → Text → List BuyerInteraction
told h log b = h b ++ said_with b log

pub told-extended :
    (k : Text) (x : BuyerInteraction) (h : Text → List BuyerInteraction)
    (log : List (Text × BuyerInteraction)) (b : Text)
    → told (extended k x h) log b ≡ told h ((k, x) ∷ log) b
told-extended k x h log b = elim (Bool-cases (k == b)) [
  | inl same ↦ rw same (append_assoc (h b) (x ∷ []) (said_with b log))
  | inr other ↦ rw other
]

remember_all-Tracks :
    (n : ℕ) (log : List (Text × BuyerInteraction)) {m : Memory} {h : Text → List BuyerInteraction}
    → Tracks n m h
    → Tracks n (remember_all log m) (told h log)
unfolding remember_all
remember_all-Tracks n [] t = record { cap = t.cap; window = λ b. rw append-nil (t.window b) }
remember_all-Tracks n ((k, x) ∷ log) {m} {h} t =
    let ih = remember_all-Tracks n log (Tracks-remember n k x t) in
    record {
      cap = ih.cap;
      window = λ b. ih.window b ∙ ap (take_last n) (told-extended k x h log b);
    }

pub take_last-take_last :
    (k n : ℕ) (xs : List BuyerInteraction) → take_last k (take_last n xs) ≡ take_last (min k n) xs
take_last-take_last k n xs =
    rw drop-drop (ap (λ j. drop j xs) (omega (arith, length-drop (length xs - n) xs)))

abbrev pub fresh : ℕ → ℕ → Memory
fresh n depth = record { max_items = n; dialectic_depth = depth; store = [] }

pub fresh-Tracks : (n depth : ℕ) → Tracks n (fresh n depth) (λ _. [])
unfolding bucket lookup
fresh-Tracks n depth = record { cap = refl; window = λ b. ground arith }

-- Whatever interactions are remembered, in whatever order of buyers, a buyer's recall without a
-- limit is the last `max_items` of this buyer's own interactions, oldest first, and with a positive
-- limit the last of those, as many as the smaller of the limit and `max_items`.
pub recall_window :
    (n depth : ℕ) (log : List (Text × BuyerInteraction)) (b : Text) (k : ℕ)
    → let m = remember_all log (fresh n depth) in
      (recall b none m ≡ take_last n (said_with b log))
      × (recall b (some (pos (suc k))) m ≡ take_last (min (suc k) n) (said_with b log))
unfolding recall
recall_window n depth log b k =
    let w = (remember_all-Tracks n log (fresh-Tracks n depth)).window b in
    (w, ap (take_last (suc k)) w ∙ take_last-take_last (suc k) n (said_with b log))
