-- ===== src/Lib.antt =====
-- WhatsApp Sales SaaS: the multi-tenant service that answers WhatsApp messages for shops.
--
-- The service receives Meta's signed webhooks (services/api/main.py), finds the tenant that owns
-- the phone number, remembers what the buyer said, asks a language model for an answer built from
-- the tenant's behavioural prompt, the buyer's history and the tenant's facts, sends the answer
-- through a gateway and remembers it too. Tenants are made by an administrator or by the onboarding
-- flow. Skills score a lead, drive a sale and look products up; a goal is judged by their results.
--
-- Which file models which part (paths of the repository, and the functions as they are named there):
--   Models                 src/sample/models.py
--   Tenant/*               src/sample/tenant/*.py; Fleet is the pair of stores that `Client` shares
--   Slug, Slug/Unique      `slugify` and `_unique_slug` of src/sample/onboarding/flow.py
--   Onboarding             the rest of that file, and `TenantManager.render_soul`
--   Events                 src/sample/events/bus.py
--   Memory, Memory/Honcho  src/sample/memory/buyer.py, the in-memory adapter and the SDK's
--   Hindsight              src/sample/ingestion/hindsight.py, the in-memory adapter
--   Hindsight/Postgres     the adapter to a database of that file, its rows and its Calls
--   Llm, Llm/OpenRouter    src/sample/llm/port.py
--   Agent/Soul, Agent/Loop src/sample/agent/soul.py and src/sample/agent/loop.py
--   Whatsapp/*             src/sample/whatsapp/webhook.py and gateway.py
--   Ingestion/*            src/sample/ingestion/preprocessor.py and extractors/*.py, and
--                          services/preprocessor/worker.py, its daemon in Worker/Daemon
--   Skills/*               src/sample/skills/*.py
--   Goal                   src/sample/goal.py, and the /goal handler of services/api/main.py
--   Security/Crypto        src/sample/security/crypto.py; Base64 and Utf8 are what it calls of the
--                          standard library
--   Security/LogFilter     src/sample/security/log_filter.py; Security/Regex is the engine of regular
--                          expressions that it needs, and Sub the standard library's `re.sub`
--   Client, Client/Cli     src/sample/client.py and src/sample/cli.py
--   Scripts/Init           scripts/init.py: Questions, Files, Placeholders, Imports, Tree
--   Api/App                `buyer_id_for` and the stores of src/sample/client.py
--   Api/Service            the origins and the endpoints of the skills in services/api/main.py
--   Api/Tenants            the tenant handlers of services/api/main.py
--   Api/Webhook            the webhook handlers of services/api/main.py; in Api/Webhook/Tasks the
--                          loop of `webhook_receive` as tasks that wait where the code awaits
--   Whatsapp/Envelope      the bodies that Meta sends, field by field, beside the two parsers of
--                          src/sample/whatsapp/webhook.py
--   System                 the whole service as a step relation over the stores of one client: the
--                          requests, the supervisor and the ingestion of files, in any order
-- The other files carry the shared notation (Prelude), the exceptions (Result), methods that change a
-- state and may raise (Exec), dicts (Dict), JSON values (Value) and the interpreter's Unicode tables
-- (Unicode). A child module that stands under one of the files above holds theorems on it; Tests
-- applies the theorems to sample data.
--
-- Conventions. A text is the list of its code points; a dict is an association list in insertion
-- order; a method that may raise returns a result beside the state, and what it wrote before the
-- exception stays written. The clock, `uuid4` and its hex digits are arguments of the operations that
-- read them. Code outside the repository is a parameter: HMAC, the JSON parser, the HTTP clients,
-- the case tables, `int` on a string, the reactions of event handlers, what csv, pypdf and
-- python-docx read from a file, the AES cipher with the laws that it documents, the database connection,
-- Honcho's client, `json` and the printed form of times, `git init`, what argparse reads. Of the standard
-- library, base64, UTF-8 and the substitution of patterns are written out.
--
-- Fuel and bounds. The search for a free slug has one round for each tenant and one more, and a
-- candidate is free by then; printing a number has the number itself as its fuel, of which each
-- further digit takes one. The daemon has one unit for each round; a daemon that is stopped needs
-- one more than the rounds before. A task of the webhook waits four times for each message, and a
-- schedule that gives it as many turns brings it to its end. The question for the slug goes through
-- the lines that will be typed. Scores are natural numbers cut to 100, as in the source; integers
-- of JSON are unbounded as Python's are, and JSON's fractions are left out. Scores of goals, floats
-- in the source, are hundredths, and how such a float stands in an answer is a parameter.
--
-- Not modelled: rate limits and CORS, what scripts/init.py prints after its questions,
-- scripts/ai_assist.py, which drives a module that the repository does not have, and the dashboard.
pub mod Prelude
pub mod Result
pub mod Exec
pub mod Dict
pub mod Unicode
pub mod Models
pub mod Tenant
pub mod Events
pub mod Slug
pub mod Value
pub mod Memory
pub mod Hindsight
pub mod Ingestion
pub mod Llm
pub mod Agent
pub mod Whatsapp
pub mod Onboarding
pub mod Skills
pub mod Sub
pub mod Security
pub mod Scripts
pub mod Goal
pub mod Client
pub mod Api
pub mod System
pub mod Tests
