-- ===== src/Tests/Files.antt =====
-- The ingestion of files, the Kapso gateway and a gateway that fails.
use whatsapp_sales_saas_temp.Api.App.{App, buyer_id_for}
use whatsapp_sales_saas_temp.Api.Webhook.{receive_all}
use whatsapp_sales_saas_temp.Api.Webhook.Undelivered.{buyer_line, receive_all-undelivered}
use whatsapp_sales_saas_temp.Dict.{Dict, lookup}
use whatsapp_sales_saas_temp.Exec.{Exec}
use whatsapp_sales_saas_temp.Hindsight.{Hindsight, needle, query}
use whatsapp_sales_saas_temp.Ingestion.Extractors.{
  ExtractedChunk, Extractor, FilePath, chunk, csv_chunks, csv_extractor,
}
use whatsapp_sales_saas_temp.Ingestion.Preprocessor.{default_extractors, process}
use whatsapp_sales_saas_temp.Ingestion.Preprocessor.Facts.{IsAdded, process-IsAdded}
use whatsapp_sales_saas_temp.Ingestion.Preprocessor.Searched.{is_hit, process-query}
use whatsapp_sales_saas_temp.Ingestion.Worker.{IngestionJob, IngestionQueue, Process, drain}
use whatsapp_sales_saas_temp.Ingestion.Worker.Drained.{IsDrained, drain-IsDrained, never}
use whatsapp_sales_saas_temp.Llm.{echo_llm, echo_template}
use whatsapp_sales_saas_temp.Memory.{empty_memory, remember}
use whatsapp_sales_saas_temp.Models.{InboundMessage}
use whatsapp_sales_saas_temp.Prelude.{
  Bool, List, Text, [], contains, decimal, false, filter, is_empty, is_space, join, leb, lit, map,
  none, pos, refl, some, strip, strip_chars, strip_left, strip_right, take, ℕ, ℤ, ◌++◌, ◌+◌, ◌==◌,
  ◌∷◌, ◌≡◌, ◌≢◌,
}
use whatsapp_sales_saas_temp.Result.{Result, err, gateway_error, ok, value_error}
use whatsapp_sales_saas_temp.Tests.Shop.{facts, shop, shop_fleet}
use whatsapp_sales_saas_temp.Unicode.{ascii}
use whatsapp_sales_saas_temp.Value.{Value, null}
use whatsapp_sales_saas_temp.Whatsapp.Gateway.{GatewayPort}
use whatsapp_sales_saas_temp.Whatsapp.Kapso.{KapsoGateway, KapsoResponse, kapso_gateway}

abbrev one_row : Extractor
one_row = csv_extractor (λ path. ok (((lit "name", lit "Shoes") ∷ []) ∷ []))

abbrev broken : Extractor
broken path = err (value_error (lit "broken"))

abbrev formats : Dict Extractor
formats = default_extractors one_row broken broken

abbrev show_all : List Text → Text
show_all ts = join (lit ", ") ts

abbrev clock : ℕ → ℕ
clock k = k

abbrev price_list : FilePath
price_list = record { name = lit "list.csv"; suffix = lit ".CSV" }

abbrev catalogue : FilePath
catalogue = record { name = lit "old.pdf"; suffix = lit ".pdf" }

abbrev shoes : List ExtractedChunk
shoes = chunk (lit "name: Shoes") (lit "list.csv") (lit "row") 0 ∷ []

csv_known : lookup (ascii.lower price_list.suffix) formats ≡ some one_row
unfolding lookup ◌==◌
csv_known = refl

shoes_read : one_row price_list ≡ ok shoes
unfolding csv_chunks strip strip_chars strip_left strip_right is_space join
shoes_read = refl

process-IsAdded_example :
    IsAdded ascii show_all formats decimal clock
      (lit "t1")
      (lit "list.csv")
      shoes
      facts
      (process ascii show_all formats decimal clock price_list (lit "t1") none facts)
process-IsAdded_example =
    process-IsAdded ascii show_all formats decimal clock price_list (lit "t1") none facts one_row
      shoes csv_known shoes_read

abbrev job_of : FilePath → IngestionJob
job_of path = record { tenant_id = lit "t1"; path = path; source_label = none }

abbrev three_jobs : IngestionQueue
three_jobs = record {
  jobs = job_of price_list ∷ job_of catalogue ∷ job_of price_list ∷ [];
  unfinished = 3;
}

abbrev reader : Process
reader = process ascii show_all formats decimal clock

drain-IsDrained_example :
    (n : ℕ) × IsDrained reader 0 n three_jobs.jobs 3 (drain reader never (three_jobs, facts))
drain-IsDrained_example = drain-IsDrained reader three_jobs facts

abbrev at_two : ℕ → Bool
at_two k = leb 2 k

-- A server that counts its requests and answers 500 to all of them.
abbrev down : Text → Value → ℕ → Exec ℕ KapsoResponse
down url payload timeout n =
    (ok (record { status_code = some 500; text = some (lit "down"); json = ok null }), n + 1)

abbrev local : KapsoGateway
local = kapso_gateway (lit "http://localhost:4000/") 30

abbrev unreachable : GatewayPort Unit
unreachable = record {
  send_text = λ now to_number body tenant_id s. (err (gateway_error (lit "down")), s);
  send_template = λ now to_number id params tenant_id s. (err (gateway_error (lit "down")), s);
}

abbrev cut_off : App Unit Unit
cut_off = record {
  fleet = shop_fleet;
  hindsight = facts;
  memory = empty_memory;
  gateway = tt;
  llm = tt;
}

abbrev hello : InboundMessage
hello = record {
  tenant_id = lit "t1";
  from_number = lit "549";
  text = lit "hola";
  message_id = lit "m1";
  received_at = 7;
}

abbrev lost : Result {0} Unit × App Unit Unit
lost = receive_all ascii unreachable (echo_llm echo_template) 7 shop (hello ∷ []) cut_off

receive_all-undelivered_example :
    (lost.0 ≡ err (gateway_error (lit "down")))
    × (lost.1.memory
        ≡ remember
            (buyer_id_for (lit "shop") (lit "549"))
            (buyer_line ascii unreachable (echo_llm echo_template) 7 shop hello)
            empty_memory)
    × (lost.1.fleet ≡ shop_fleet)
receive_all-undelivered_example =
    receive_all-undelivered ascii unreachable (echo_llm echo_template) 7 shop hello [] cut_off
      (gateway_error (lit "down")) (λ reply g. refl)

a_needle : is_empty (needle ascii (lit " Shoes ")) ≡ false
unfolding strip strip_chars strip_left strip_right is_space
a_needle = refl

abbrev stocked : Hindsight
stocked = (process ascii show_all formats decimal clock price_list (lit "t1") none facts).1

process-query_example :
    (map (λ f. f.content) (query ascii (lit " Shoes ") (some (lit "t1")) (pos 5) stocked)
      ≡ take 5 (
          map (λ f. f.content) (filter (is_hit ascii (lit " Shoes ") (lit "t1")) facts.facts)
          ++ filter
              (λ s. contains (needle ascii (lit " Shoes ")) (ascii.lower s))
              (map (λ c. c.text) shoes)))
    × ((other : Text) (top_k : ℤ)
        → lit "t1" ≢ other
        → query ascii (lit " Shoes ") (some other) top_k stocked
          ≡ query ascii (lit " Shoes ") (some other) top_k facts)
process-query_example =
    process-query ascii show_all formats decimal clock price_list (lit "t1") none facts one_row
      shoes (lit " Shoes ") 5 csv_known shoes_read a_needle
