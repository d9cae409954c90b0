-- ===== src/Products/Examples.antt =====
-- Half a litre of oil.
use lotzi.Base.{ℕ, ◌≡◌, refl, Bool, true, false, Option, none, some, ◌&&◌, every}
use lotzi.Base.Outcome.{Outcome, returned, thrown}
use lotzi.Base.Int.{pos}
use lotzi.Payments.Money.{round_half_up}
use lotzi.Products.Units.{UnitGroup, MeasurementUnit, PackType, unit_meta}
use lotzi.Products.Presets.{
  SuggestedMeasurement, MeasurementPreset, cooking_oils_preset, fruits_vegetables_preset, presets,
}
use lotzi.Products.Measurement.{
  MeasurementInput, NormalizedMeasurement, ProductMeasurementError, round_measurement,
  check_measurement, normalize_product_measurement,
}
use lotzi.Products.Validity.{bundle-refused}

abbrev half_a_litre : MeasurementInput
half_a_litre = record {
  unit_group = none;
  quantity_value = some (record { numerator = pos 1; denominator = 2 });
  quantity_unit = none;
  pack_type = some PackType.pouch;
}

-- At 90 rupees, which is 180 for a litre.
abbrev measured : NormalizedMeasurement
measured = record {
  unit_group = UnitGroup.volume;
  quantity_value = 5000;
  quantity_unit = MeasurementUnit.litre;
  normalized_value = 5000000;
  normalized_unit = MeasurementUnit.ml;
  pack_type = PackType.pouch;
  price_per_base_unit = 18000;
}

abbrev accepted_of : Outcome ProductMeasurementError NormalizedMeasurement → Bool
accepted_of (returned m) = true
accepted_of (thrown e) = false

abbrev no_input : MeasurementInput
no_input = record {
  unit_group = none;
  quantity_value = none;
  quantity_unit = none;
  pack_type = none;
}

abbrev input_of : SuggestedMeasurement → MeasurementInput
input_of v = record {
  unit_group = some (unit_meta v.quantity_unit).group;
  quantity_value = some v.quantity_value;
  quantity_unit = some v.quantity_unit;
  pack_type = some v.pack_type;
}

abbrev is_accepted : MeasurementPreset → MeasurementInput → Bool
is_accepted preset input = accepted_of (normalize_product_measurement preset input 9000)

-- Each preset takes its own default and what it suggests.
presets_take :
    every
      (λ p. is_accepted p no_input && every (λ v. is_accepted p (input_of v)) p.suggested_variants)
      presets
    ≡ true
unfolding normalize_product_measurement check_measurement unit_meta
presets_take = refl

-- 0.00004 litres.
abbrev a_trace : MeasurementInput
a_trace = record half_a_litre {
  quantity_value = some (record { numerator = pos 4; denominator = 100000 });
}

abbrev quantity_of : Outcome ProductMeasurementError NormalizedMeasurement → Option ℕ
quantity_of (returned m) = some m.quantity_value
quantity_of (thrown e) = none

-- It is accepted, and stored as 0.
trace_stored : quantity_of (normalize_product_measurement cooking_oils_preset a_trace 9000) ≡ some 0
unfolding normalize_product_measurement check_measurement unit_meta round_measurement round_half_up
trace_stored = refl

abbrev bunches : MeasurementInput
bunches = record half_a_litre { unit_group = some UnitGroup.bundle }

bundle-refused_example :
    (e : ProductMeasurementError) × (normalize_product_measurement fruits_vegetables_preset bunches
        9000
      ≡ thrown e)
bundle-refused_example = bundle-refused fruits_vegetables_preset bunches 9000 refl
