-- ===== src/Agent/Soul.antt =====
-- src/sample/agent/soul.py. The template is filled by `str.format`, which does not read the braces of
-- what it puts in.
use whatsapp_sales_saas_temp.Models.{Tenant}
use whatsapp_sales_saas_temp.Prelude.{
  Bool, List, Option, Text, [], if◌then◌else◌, join, lit, map, none, some, true, ◌++◌, ◌∷◌,
}

pub record SoulConfig : Type 0 where
  pub language : Text
  pub tone : Text
  pub mission : Text
  pub rules : List Text
  pub include_skills : Bool

abbrev pub default_config : SoulConfig
default_config = record {
  language = lit "español";
  tone = lit "cercano y profesional";
  mission = lit "Vender los productos del catálogo y cerrar ventas por WhatsApp.";
  rules =
      lit "Nunca inventes stock ni precios."
      ∷ lit "Confirmá el pago antes de dar por cerrada una venta."
      ∷ lit "Si no sabés algo, decilo y ofrecé escalarlo a un humano."
      ∷ [];
  include_skills = true;
}

abbrev pub newline : Text
newline = 10 ∷ []

-- Lines, each with its end.
unfoldable pub block : List Text → Text
block [] = []
block (l ∷ ls) = l ++ (newline ++ block ls)

unfoldable pub skills_section : Text
skills_section = block (
    lit "## Available skills"
    ∷ []
    ∷ lit "You have access to these skills. Call them by name with the required parameters."
    ∷ []
    ∷ lit "### catalog-lookup"
    ∷ lit "Retrieve product facts (name, price, stock) from the catalog."
    ∷ lit "Parameters: `query` (product name or id)."
    ∷ lit "Returns: matching product list with source attribution."
    ∷ []
    ∷ lit "### lead-qualifier"
    ∷ lit "Score an inbound message for buying intent."
    ∷ lit "Parameters: `message` (the customer's text)."
    ∷ lit "Returns: intent_score (0-100), tag (cold/warm/hot), suggested next action."
    ∷ []
    ∷ lit "### sales-closer"
    ∷ lit "Drive a conversation stage by stage toward a closed sale."
    ∷ lit "Parameters: `current_stage`, `message` (customer's latest reply)."
    ∷ lit "Returns: next_stage, prompt for what to say, and whether the conversation is terminal."
    ∷ [])

unfoldable pub goal_protocol : Text
goal_protocol = block (
    lit "## Goal protocol"
    ∷ lit "On every message, pursue: identify the buyer's need, present matching products"
    ∷ lit "from the catalog, handle objections honestly, and drive to a confirmed payment."
    ∷ lit "Never invent stock or prices — look them up."
    ∷ [])

abbrev pub bullet : Text → Text
bullet r = lit "- " ++ r

unfoldable pub build_with : Tenant → SoulConfig → Text
build_with tenant cfg =
    lit "# SOUL — "
    ++ (tenant.name
        ++ (block (
              []
              ∷ []
              ∷ (lit "You are the WhatsApp sales agent for **"
                  ++ (tenant.name ++ (lit "**. Speak in " ++ (cfg.language ++ lit ", in a"))))
              ∷ (cfg.tone
                  ++ lit " tone. You represent the brand; never reveal you are an AI unless asked.")
              ∷ []
              ∷ lit "## Mission"
              ∷ cfg.mission
              ∷ []
              ∷ lit "## Rules"
              ∷ join newline (map bullet cfg.rules)
              ∷ []
              ∷ (if cfg.include_skills then skills_section else [])
              ∷ []
              ∷ [])
            ++ goal_protocol))

unfoldable pub build : Tenant → Option SoulConfig → Text
build tenant none = build_with tenant default_config
build tenant (some cfg) = build_with tenant cfg
