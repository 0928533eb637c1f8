-- ===== src/Ingestion/Extractors.antt =====
-- src/sample/ingestion/extractors/*.py. What csv, pypdf and python-docx read from a file is a
-- parameter: the fields of each row as an f-string prints them, the text of each page, that of each
-- paragraph. A path is known by pathlib's `name` and `suffix`.
use whatsapp_sales_saas_temp.Prelude.{
  List, Option, Text, [], decimal, if◌then◌else◌, is_empty, join, lit, map, none, some, strip, ℕ,
  ◌++◌, ◌+◌, ◌∷◌,
}
use whatsapp_sales_saas_temp.Result.{Result, map_ok, ok}

pub record FilePath : Type 0 where
  pub name : Text
  pub suffix : Text

pub record ExtractedChunk : Type 0 where
  pub text : Text
  pub source : Text
  pub metadata : List (Text × Text)

-- `ExtractorPort`
abbrev pub Extractor : Type 0
Extractor = FilePath → Result (List ExtractedChunk)

abbrev pub chunk : Text → Text → Text → ℕ → ExtractedChunk
chunk said source key index = record {
  text = said;
  source = source;
  metadata = (key, decimal index) ∷ [];
}

abbrev pub cell : Text × Text → Text
cell (key, value) = key ++ (lit ": " ++ value)

-- `for index, row in enumerate(reader): … if text.strip(): …`
unfoldable pub csv_chunks : Text → ℕ → List (List (Text × Text)) → List ExtractedChunk
csv_chunks source index [] = []
csv_chunks source index (row ∷ rows) =
    let said = join (lit " | ") (map cell row) in
    let rest = csv_chunks source (index + 1) rows in
    if is_empty (strip said) then rest else chunk said source (lit "row") index ∷ rest

abbrev pub csv_extractor : (FilePath → Result (List (List (Text × Text)))) → Extractor
csv_extractor rows path = map_ok (csv_chunks path.name 0) (rows path)

-- `for index, paragraph in enumerate(doc.paragraphs): text = paragraph.text.strip(); if text: …`
unfoldable pub docx_chunks : Text → ℕ → List Text → List ExtractedChunk
docx_chunks source index [] = []
docx_chunks source index (p ∷ ps) =
    let rest = docx_chunks source (index + 1) ps in
    if is_empty (strip p) then rest else chunk (strip p) source (lit "paragraph") index ∷ rest

abbrev pub docx_extractor : (FilePath → Result (List Text)) → Extractor
docx_extractor paragraphs path = map_ok (docx_chunks path.name 0) (paragraphs path)

-- `page.extract_text() or ""`
abbrev pub page_text : Option Text → Text
page_text none = []
page_text (some s) = s

unfoldable pub pdf_chunks : Text → ℕ → List (Option Text) → List ExtractedChunk
pdf_chunks source index [] = []
pdf_chunks source index (p ∷ ps) =
    let said = strip (page_text p) in
    let rest = pdf_chunks source (index + 1) ps in
    if is_empty said then rest else chunk said source (lit "page") (index + 1) ∷ rest

abbrev pub pdf_extractor : (FilePath → Result (List (Option Text))) → Extractor
pdf_extractor pages path = map_ok (pdf_chunks path.name 0) (pages path)

abbrev pub mocked : Text → Text → Extractor
mocked said modality path = ok (
    record {
      text = said;
      source = path.name;
      metadata = (lit "modality", modality) ∷ (lit "mocked", lit "true") ∷ [];
    }
    ∷ [])

abbrev pub mock_audio : Extractor
mock_audio = mocked (lit "[mocked transcript: audio content goes here]") (lit "audio")

abbrev pub mock_video : Extractor
mock_video = mocked (lit "[mocked description: visual content goes here]") (lit "video")

abbrev pub mock_image : Extractor
mock_image = mocked (lit "[mocked caption: image content goes here]") (lit "image")
