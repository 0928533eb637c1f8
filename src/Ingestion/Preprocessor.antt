-- ===== src/Ingestion/Preprocessor.antt =====
-- src/sample/ingestion/preprocessor.py. `show_tuple` is `str` of a tuple of strings; `ids k` and
-- `now k` are what `uuid4` and the clock give to the fact that the call makes after `k` others.
pub mod Facts
pub mod Searched
use whatsapp_sales_saas_temp.Dict.{Dict, lookup}
use whatsapp_sales_saas_temp.Exec.{Exec, lift, ◌>>=◌}
use whatsapp_sales_saas_temp.Hindsight.{Hindsight, add_fact}
use whatsapp_sales_saas_temp.Ingestion.Extractors.{
  ExtractedChunk, Extractor, FilePath, mock_audio, mock_image, mock_video,
}
use whatsapp_sales_saas_temp.Models.{Fact}
use whatsapp_sales_saas_temp.Prelude.{
  Bool, List, Option, Text, [], false, if◌then◌else◌, lit, ltb, nat_eq, none, some, true, ℕ, ◌++◌,
  ◌+◌, ◌∷◌,
}
use whatsapp_sales_saas_temp.Result.{err, map_ok, ok, unsupported_format}
use whatsapp_sales_saas_temp.Unicode.{Unicode}

abbrev pub default_extractors : Extractor → Extractor → Extractor → Dict Extractor
default_extractors csv pdf docx =
    (lit ".csv", csv)
    ∷ (lit ".pdf", pdf)
    ∷ (lit ".docx", docx)
    ∷ (lit ".mp3", mock_audio)
    ∷ (lit ".wav", mock_audio)
    ∷ (lit ".m4a", mock_audio)
    ∷ (lit ".ogg", mock_audio)
    ∷ (lit ".mp4", mock_video)
    ∷ (lit ".mov", mock_video)
    ∷ (lit ".webm", mock_video)
    ∷ (lit ".jpg", mock_image)
    ∷ (lit ".jpeg", mock_image)
    ∷ (lit ".png", mock_image)
    ∷ (lit ".webp", mock_image)
    ∷ []

-- `a <= b` on strings
unfoldable pub text_le : Text → Text → Bool
text_le [] t = true
text_le (a ∷ s) [] = false
text_le (a ∷ s) (b ∷ t) = if nat_eq a b then text_le s t else ltb a b

unfoldable pub insert_sorted : Text → List Text → List Text
insert_sorted s [] = s ∷ []
insert_sorted s (t ∷ ts) =
    let rest = insert_sorted s ts in if text_le s t then s ∷ t ∷ ts else t ∷ rest

-- `tuple(sorted(self._extractors))`
unfoldable pub supported_extensions : Dict Extractor → List Text
unfolding insert_sorted
supported_extensions [] = []
supported_extensions ((k, e) ∷ d) = insert_sorted k (supported_extensions d)

-- `source_label or path.name`
abbrev pub source_of : Option Text → FilePath → Text
source_of none path = path.name
source_of (some []) path = path.name
source_of (some (c ∷ s)) path = c ∷ s

abbrev pub fact_of_chunk : Text → ℕ → Text → Text → ExtractedChunk → Fact
fact_of_chunk id now tenant_id source c = record {
  id = id;
  tenant_id = tenant_id;
  source = source;
  content = c.text;
  metadata = c.metadata;
  created_at = now;
}

module _ (u : Unicode) (show_tuple : List Text → Text) (extractors : Dict Extractor) where
  abbrev pub no_extractor : Text → Text
  no_extractor ext =
      lit "no extractor for "
      ++ (u.repr ext
          ++ (lit " (supported: " ++ (show_tuple (supported_extensions extractors) ++ lit ")")))

  module _ (ids : ℕ → Text) (now : ℕ → ℕ) where
    -- `for chunk in chunks: …`
    unfoldable pub store_chunks : Text → Text → ℕ → List ExtractedChunk → Exec Hindsight (List Fact)
    store_chunks tenant_id source k [] h = (ok [], h)
    store_chunks tenant_id source k (c ∷ cs) h =
        let fact = fact_of_chunk (ids k) (now k) tenant_id source c in
        let (r, h') = store_chunks tenant_id source (k + 1) cs (add_fact fact h) in
        (map_ok (λ fs. fact ∷ fs) r, h')

    unfoldable pub process : FilePath → Text → Option Text → Exec Hindsight (List Fact)
    unfolding store_chunks
    process path tenant_id source_label h = elim (lookup (u.lower path.suffix) extractors) [
      | none ↦ (err (unsupported_format (no_extractor (u.lower path.suffix))), h)
      | some extract ↦
          (lift (extract path) >>= store_chunks tenant_id (source_of source_label path) 0) h
    ]
