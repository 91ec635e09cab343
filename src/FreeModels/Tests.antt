-- ===== src/FreeModels/Tests.antt =====
-- opencode-free-models.mjs: the theorems at concrete inputs.
use tokligence_gateway.Prelude.{
  ◌≡◌, refl, ◌↔◌, true, false, [], ◌∷◌, none, some, arith, Text, codes, text_eq, strip_prefix, In,
}
use tokligence_gateway.Prelude.JsMap
use tokligence_gateway.Prelude.JsMap.{JsMap}
use tokligence_gateway.FreeModels.{Registry, failed, complete, discover, joined, chat_allowed}
use tokligence_gateway.FreeModels.Costs.{
  Json, number, text, object, end, field, zero_value, all_zero, zero_text, Entry, Metadata,
  FreeModel, passes, member, free_models, free_entries, free_entry, is_jev, is_deprecated,
  priced_zero,
}
use tokligence_gateway.FreeModels.Listing.{IsListed, free_models_iff}
use tokligence_gateway.FreeModels.Freshness.{chat_allowed_after_failure, discover_stuck}

abbrev free_cost : Json
free_cost =
    object (field (codes "input") (number true) (field (codes "output") (text (codes " 0.0 ")) end))

abbrev tiered_cost : Json
tiered_cost = object (
    field (codes "input") (number true) (
      field (codes "output") (number true)
        (field (codes "over_200k") (object (field (codes "input") (number false) end)) end)))

abbrev metadata : JsMap Metadata
metadata =
    (codes "kimi", record { status = none; cost = free_cost; name = none; context = some 4096 })
    ∷ (codes "tier", record { status = none; cost = tiered_cost; name = none; context = none })
    ∷ []

abbrev entry : Text → Entry
entry id = record { id = some id; pricing = none }

abbrev kimi : FreeModel
kimi = record { id = codes "kimi"; name = none; context_window = some 4096 }

zero_texts :
    (zero_text (codes "0") ≡ true)
    × (zero_text (codes " 0.00e5 ") ≡ true)
    × (zero_text (codes "0x00") ≡ true)
    × (zero_text (codes "") ≡ false)
    × (zero_text (codes ".") ≡ false)
    × (zero_text (codes "0.01") ≡ false)
    × (zero_text (codes "0 0") ≡ false)
unfolding zero_text
zero_texts = (refl, refl, refl, refl, refl, refl, refl)

-- A tier with a price is no free model, whatever its base prices say.
only_kimi :
    free_models
      (some (entry (codes "kimi") ∷ entry (codes "tier") ∷ entry (codes "jev-1") ∷ []))
      (some metadata)
    ≡ some (kimi ∷ [])
unfolding free_models free_entries free_entry passes member all_zero zero_value zero_text is_jev
    is_deprecated priced_zero JsMap.get text_eq strip_prefix
only_kimi = refl

free_models_iff_example : In kimi (kimi ∷ []) ↔ (
    (e : Entry) × In e (entry (codes "kimi") ∷ entry (codes "tier") ∷ entry (codes "jev-1") ∷ [])
    × IsListed metadata kimi e)
free_models_iff_example =
    free_models_iff (entry (codes "kimi") ∷ entry (codes "tier") ∷ entry (codes "jev-1") ∷ [])
      metadata (kimi ∷ []) kimi only_kimi

abbrev empty : Registry
empty = record { snapshot = none; cached = none; in_flight = false }

chat_allowed_after_failure_example :
    chat_allowed
      (record { discover_free_only = true; registry = complete empty (failed (codes "down")) 7 })
      true
      (codes "kimi" ∷ [])
      (codes "kimi")
      8
    ≡ false
chat_allowed_after_failure_example =
    chat_allowed_after_failure empty (codes "down") 7 8 true (codes "kimi" ∷ []) (codes "kimi")

discover_stuck_example :
    discover (discover empty (some (codes "bad")) 5).0 none 20000
    ≡ ((discover empty (some (codes "bad")) 5).0, joined)
discover_stuck_example = discover_stuck empty (codes "bad") 5 none 20000 refl refl (omega arith)
