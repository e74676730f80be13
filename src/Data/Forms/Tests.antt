-- ===== src/Data/Forms/Tests.antt =====
-- A vector of two doubles, which a move leaves empty.
use module_flow.Prelude.{◌≡◌, true, false, some, [], ◌∷◌, arith}
use module_flow.Data.Samples.{text_doc, documents}
use module_flow.Data.Samples.Laws.{documents-JsonLaws}
use module_flow.Data.Reference.{to}
use module_flow.Data.Reference.Reads.{double_of}
use module_flow.Data.Scalars.{from_basic}
use module_flow.Data.Convert.{from_list}
use module_flow.Data.Forms.{vector_from_json, vector_to_json}
use module_flow.Data.Forms.Vectors.{vector_from_json-vector_to_json}

vector_from_json-vector_to_json_example :
    (from_list documents
        (from_basic (double_of documents))
        true
        0
        (to (vector_to_json documents (7 ∷ 8 ∷ [])))
        (0 ∷ [])
      ≡ (7 ∷ 8 ∷ [], true))
    × (vector_from_json documents (λ d. []) (to (text_doc [])) (9 ∷ []) ≡ some ([], false))
vector_from_json-vector_to_json_example =
    vector_from_json-vector_to_json documents documents-JsonLaws (λ d. []) (7 ∷ 8 ∷ []) (0 ∷ [])
      (9 ∷ []) (to (text_doc [])) (omega arith) (omega arith)
