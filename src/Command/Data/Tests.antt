-- ===== src/Command/Data/Tests.antt =====
-- A data manager at 1 with the number 5 under "speed".
use module_flow.Prelude.{
  ℕ, ◌≡◌, refl, true, false, none, arith, ◌==◌, nat_eq, if◌then◌else◌, not, String, string_eq, ◌≢◌,
}
use module_flow.Container.HashMap.{has, find, valueref, insert_one}
use module_flow.Object.Heap.{done, fault, new_object, write, load, modify, free}
use module_flow.Object.Returns.{Returns}
use module_flow.Object.Signals.{set_parent, emit_with}
use module_flow.Object.Manager.{add, register, name, entries, set_entries, get}
use module_flow.Object.Destroy.{destroy, destroy_with, destroy_base, destroy_derived, leave_parent}
use module_flow.Command.Data.{read_as, get_data_or, get_data, input_data, set_data, set_input_data}
use module_flow.Data.Create.Samples.{
  Sample, number, text, sample_type, sample_initial, alone, speeds, manager_object, desk,
  desk_values,
}
use module_flow.Data.Create.{put_value, kept_name, add_new}
use module_flow.Data.Create.Laws.{Holds}
use module_flow.Command.Data.Laws.{set_data-get_data}

set_data-get_data_example :
    Returns (set_data 1 alone 1 "mode" (text "fast") desk_values desk) (λ r h'.
      (r.0 ≡ not (has speeds (kept_name "mode")))
      × ((T : ℕ) (v : Sample)
          → r.0 ≡ true
          → get_data_or sample_type 1 T (kept_name "mode") v r.1 h'
            ≡ (if 1 == T then done (text "fast", true) h' else fault))
      × ((T : ℕ) (k : String) (v w : Sample)
          → Holds desk desk_values speeds k w
          → get_data_or sample_type 1 T k v r.1 h'
            ≡ (if sample_type w == T then done (w, true) h' else fault))
      × ((T : ℕ) (k : String) (v : Sample)
          → find k speeds ≡ none
          → kept_name "mode" ≢ k
          → get_data_or sample_type 1 T k v r.1 h' ≡ done (v, false) h'))
set_data-get_data_example =
    set_data-get_data 1 alone 0 desk manager_object speeds desk_values
      (record { stands = refl; kind = refl }) (record { next_ne_null = omega arith; unused = refl })
      sample_type "mode" (text "fast")

-- The input that is set first stays.
input_stays : Returns (set_input_data 1 alone 1 (number 7) desk_values desk) (λ r h1.
    Returns (set_input_data 1 alone 1 (number 8) r.1 h1) (λ r' h2.
      (r.0 ≡ true)
      × (r'.0 ≡ false)
      × Returns (input_data sample_type 1 sample_initial 0 r'.1 h2) (λ v h3. v ≡ number 7)))
unfolding set_input_data set_data add_new input_data get_data get_data_or read_as put_value
    new_object write add register name load modify entries set_entries set_parent destroy
    destroy_with destroy_base destroy_derived emit_with leave_parent free get has find valueref
    insert_one
input_stays = (refl, refl, refl)
