-- ===== src/Memory.antt =====
-- src/sample/memory/buyer.py: `InMemoryBuyerMemory`; `HonchoBuyerMemory` is in Honcho.antt.
pub mod History
pub mod Honcho
use whatsapp_sales_saas_temp.Dict.{Dict, insert, lookup}
use whatsapp_sales_saas_temp.Prelude.{
  List, Option, Text, [], drop, if◌then◌else◌, join, length, lit, ltb, map, negsuc, none, pos, some,
  suc, take_last, zero, ℕ, ℤ, ◌*◌, ◌++◌, ◌-◌, ◌∷◌,
}
use whatsapp_sales_saas_temp.Whatsapp.Gateway.{text}

pub data Role : Type 0 where
  buyer agent : Role

pub record BuyerInteraction : Type 0 where
  pub text : Text
  pub role : Role
  pub at : ℕ
  pub metadata : List (Text × Text)

pub record Memory : Type 0 where
  pub max_items : ℕ
  pub dialectic_depth : ℕ
  pub store : Dict (List BuyerInteraction)

-- The defaults of the dataclass.
abbrev pub empty_memory : Memory
empty_memory = record { max_items = 50; dialectic_depth = 2; store = [] }

abbrev pub or_nil : Option (List BuyerInteraction) → List BuyerInteraction
or_nil none = []
or_nil (some b) = b

unfoldable pub bucket : Text → Memory → List BuyerInteraction
bucket buyer_id m = or_nil (lookup buyer_id m.store)

-- `if len(bucket) > self.max_items: del bucket[: len(bucket) - self.max_items]`
unfoldable pub trimmed : ℕ → List BuyerInteraction → List BuyerInteraction
trimmed max_items b = if ltb max_items (length b) then drop (length b - max_items) b else b

unfoldable pub remember : Text → BuyerInteraction → Memory → Memory
unfolding bucket trimmed
remember buyer_id x m = record m {
  store = insert buyer_id (trimmed m.max_items (bucket buyer_id m ++ x ∷ [])) m.store;
}

unfoldable pub recall : Text → Option ℤ → Memory → List BuyerInteraction
unfolding bucket
recall buyer_id none m = bucket buyer_id m
recall buyer_id (some (negsuc n)) m = []
recall buyer_id (some (pos zero)) m = []
recall buyer_id (some (pos (suc n))) m = take_last (suc n) (bucket buyer_id m)

abbrev pub role_name : Role → Text
role_name buyer = lit "buyer"
role_name agent = lit "agent"

abbrev pub line : BuyerInteraction → Text
line x = lit "[" ++ role_name x.role ++ lit "] " ++ x.text

abbrev pub summarise : List BuyerInteraction → Text
summarise [] = lit "no prior interactions"
summarise (x ∷ xs) = join (lit " | ") (map line (x ∷ xs))

unfoldable pub summary : Text → Memory → Text
summary buyer_id m = summarise (recall buyer_id (some (pos (m.dialectic_depth * 2))) m)
