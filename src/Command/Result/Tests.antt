-- ===== src/Command/Result/Tests.antt =====
-- Results of numbers, written as JSON ints.
use module_flow.Prelude.{◌≡◌, Bool, true, ℤ, pos}
use module_flow.Data.Samples.{int_doc, documents}
use module_flow.Data.Samples.Laws.{documents-JsonLaws}
use module_flow.Data.Reference.{JsonRef, to, to_int, convert, value}
use module_flow.Command.Result.{failed, is_error, json_data, CommandResult, serialize, deserialize}
use module_flow.Command.Result.RoundTrip.{deserialize-serialize}

abbrev read_int : JsonRef documents → ℤ → ℤ × Bool
read_int r x = to_int documents r x

abbrev old : CommandResult ℤ
old = record { code_ = pos 5; data_ = json_data (pos 6) }

-- The code FAILED of the first result is not written: the second keeps its own.
deserialize-serialize_example :
    deserialize documents int_doc read_int
      (to (
        serialize documents int_doc read_int
          (record { code_ = failed; data_ = json_data (pos 7) })))
      old
    ≡ (record { code_ = pos 5; data_ = json_data (pos 7) }, true)
unfolding is_error to_int convert value
deserialize-serialize_example =
    deserialize-serialize documents documents-JsonLaws int_doc read_int failed (json_data (pos 7))
      old
