-- ===== src/Products/Presets.antt =====
-- The presets of product-measurement.ts.
use lotzi.Base.{ℕ, List, [], ◌∷◌}
use lotzi.Base.Int.{ℤ, pos}
use lotzi.Products.Units.{UnitGroup, MeasurementUnit, PackType}

-- A number of JavaScript as a fraction; with the denominator 0 it is not finite.
pub record Quantity : Type 0 where
  pub numerator : ℤ
  pub denominator : ℕ

pub record SuggestedMeasurement : Type 0 where
  pub quantity_value : Quantity
  pub quantity_unit : MeasurementUnit
  pub pack_type : PackType

pub record MeasurementPreset : Type 0 where
  pub allowed_unit_groups : List UnitGroup
  pub allowed_quantity_units : List MeasurementUnit
  pub allowed_pack_types : List PackType
  pub default_unit_group : UnitGroup
  pub default_measurement : SuggestedMeasurement
  pub suggested_variants : List SuggestedMeasurement

abbrev suggest : ℕ → MeasurementUnit → PackType → SuggestedMeasurement
suggest n u p = record {
  quantity_value = record { numerator = pos n; denominator = 1 };
  quantity_unit = u;
  pack_type = p;
}

abbrev generic_preset : MeasurementPreset
generic_preset = record {
  allowed_unit_groups = UnitGroup.count ∷ UnitGroup.weight ∷ UnitGroup.volume ∷ [];
  allowed_quantity_units =
      MeasurementUnit.piece ∷ MeasurementUnit.g ∷ MeasurementUnit.kg ∷ MeasurementUnit.ml
      ∷ MeasurementUnit.litre ∷ [];
  allowed_pack_types =
      PackType.unit ∷ PackType.pack ∷ PackType.packet ∷ PackType.box ∷ PackType.pouch
      ∷ PackType.bottle ∷ [];
  default_unit_group = UnitGroup.count;
  default_measurement = suggest 1 MeasurementUnit.piece PackType.unit;
  suggested_variants =
      suggest 1 MeasurementUnit.piece PackType.unit
      ∷ suggest 1 MeasurementUnit.kg PackType.pack
      ∷ suggest 1 MeasurementUnit.litre PackType.bottle
      ∷ [];
}

abbrev pub cooking_oils_preset : MeasurementPreset
cooking_oils_preset = record {
  allowed_unit_groups = UnitGroup.volume ∷ [];
  allowed_quantity_units = MeasurementUnit.ml ∷ MeasurementUnit.litre ∷ MeasurementUnit.gallon ∷ [];
  allowed_pack_types =
      PackType.bottle ∷ PackType.pouch ∷ PackType.packet ∷ PackType.can ∷ PackType.jar ∷ [];
  default_unit_group = UnitGroup.volume;
  default_measurement = suggest 1 MeasurementUnit.litre PackType.bottle;
  suggested_variants =
      suggest 500 MeasurementUnit.ml PackType.bottle
      ∷ suggest 1 MeasurementUnit.litre PackType.bottle
      ∷ suggest 2 MeasurementUnit.litre PackType.bottle
      ∷ suggest 5 MeasurementUnit.litre PackType.can
      ∷ [];
}

abbrev staples_weight_preset : MeasurementPreset
staples_weight_preset = record {
  allowed_unit_groups = UnitGroup.weight ∷ [];
  allowed_quantity_units = MeasurementUnit.g ∷ MeasurementUnit.kg ∷ MeasurementUnit.tonne ∷ [];
  allowed_pack_types =
      PackType.bag ∷ PackType.pack ∷ PackType.packet ∷ PackType.pouch ∷ PackType.box ∷ [];
  default_unit_group = UnitGroup.weight;
  default_measurement = suggest 1 MeasurementUnit.kg PackType.bag;
  suggested_variants =
      suggest 1 MeasurementUnit.kg PackType.bag
      ∷ suggest 5 MeasurementUnit.kg PackType.bag
      ∷ suggest 10 MeasurementUnit.kg PackType.bag
      ∷ suggest 25 MeasurementUnit.kg PackType.bag
      ∷ [];
}

abbrev eggs_preset : MeasurementPreset
eggs_preset = record {
  allowed_unit_groups = UnitGroup.count ∷ [];
  allowed_quantity_units = MeasurementUnit.piece ∷ MeasurementUnit.dozen ∷ [];
  allowed_pack_types = PackType.tray ∷ PackType.pack ∷ PackType.packet ∷ PackType.box ∷ [];
  default_unit_group = UnitGroup.count;
  default_measurement = suggest 12 MeasurementUnit.piece PackType.tray;
  suggested_variants =
      suggest 6 MeasurementUnit.piece PackType.pack
      ∷ suggest 12 MeasurementUnit.piece PackType.tray
      ∷ suggest 30 MeasurementUnit.piece PackType.tray
      ∷ [];
}

abbrev milk_juices_water_preset : MeasurementPreset
milk_juices_water_preset = record {
  allowed_unit_groups = UnitGroup.volume ∷ [];
  allowed_quantity_units = MeasurementUnit.ml ∷ MeasurementUnit.litre ∷ [];
  allowed_pack_types = PackType.pouch ∷ PackType.packet ∷ PackType.bottle ∷ PackType.carton ∷ [];
  default_unit_group = UnitGroup.volume;
  default_measurement = suggest 500 MeasurementUnit.ml PackType.pouch;
  suggested_variants =
      suggest 500 MeasurementUnit.ml PackType.pouch
      ∷ suggest 1 MeasurementUnit.litre PackType.bottle
      ∷ suggest 2 MeasurementUnit.litre PackType.bottle
      ∷ [];
}

abbrev tea_coffee_powders_preset : MeasurementPreset
tea_coffee_powders_preset = record {
  allowed_unit_groups = UnitGroup.weight ∷ UnitGroup.count ∷ [];
  allowed_quantity_units = MeasurementUnit.g ∷ MeasurementUnit.kg ∷ MeasurementUnit.piece ∷ [];
  allowed_pack_types =
      PackType.pack ∷ PackType.packet ∷ PackType.pouch ∷ PackType.jar ∷ PackType.box ∷ [];
  default_unit_group = UnitGroup.weight;
  default_measurement = suggest 250 MeasurementUnit.g PackType.pack;
  suggested_variants =
      suggest 100 MeasurementUnit.g PackType.pack
      ∷ suggest 250 MeasurementUnit.g PackType.pack
      ∷ suggest 500 MeasurementUnit.g PackType.pouch
      ∷ [];
}

abbrev pub fruits_vegetables_preset : MeasurementPreset
fruits_vegetables_preset = record {
  allowed_unit_groups = UnitGroup.weight ∷ UnitGroup.count ∷ UnitGroup.bundle ∷ [];
  allowed_quantity_units = MeasurementUnit.g ∷ MeasurementUnit.kg ∷ MeasurementUnit.piece ∷ [];
  allowed_pack_types =
      PackType.bag ∷ PackType.pack ∷ PackType.packet ∷ PackType.bunch ∷ PackType.bundle
      ∷ PackType.unit ∷ [];
  default_unit_group = UnitGroup.weight;
  default_measurement = suggest 1 MeasurementUnit.kg PackType.bag;
  suggested_variants =
      suggest 500 MeasurementUnit.g PackType.bag
      ∷ suggest 1 MeasurementUnit.kg PackType.bag
      ∷ suggest 1 MeasurementUnit.piece PackType.unit
      ∷ [];
}

abbrev personal_household_count_preset : MeasurementPreset
personal_household_count_preset = record {
  allowed_unit_groups = UnitGroup.count ∷ UnitGroup.volume ∷ UnitGroup.weight ∷ [];
  allowed_quantity_units =
      MeasurementUnit.piece ∷ MeasurementUnit.ml ∷ MeasurementUnit.litre ∷ MeasurementUnit.g
      ∷ MeasurementUnit.kg ∷ [];
  allowed_pack_types =
      PackType.unit ∷ PackType.pack ∷ PackType.packet ∷ PackType.box ∷ PackType.bottle
      ∷ PackType.pouch ∷ PackType.sachet ∷ PackType.can ∷ PackType.jar ∷ [];
  default_unit_group = UnitGroup.count;
  default_measurement = suggest 1 MeasurementUnit.piece PackType.unit;
  suggested_variants =
      suggest 1 MeasurementUnit.piece PackType.unit
      ∷ suggest 3 MeasurementUnit.piece PackType.pack
      ∷ suggest 500 MeasurementUnit.ml PackType.bottle
      ∷ [];
}

-- The rules in their order, and the generic preset.
abbrev pub presets : List MeasurementPreset
presets =
    cooking_oils_preset ∷ staples_weight_preset ∷ eggs_preset ∷ milk_juices_water_preset
    ∷ tea_coffee_powders_preset ∷ fruits_vegetables_preset ∷ personal_household_count_preset
    ∷ generic_preset ∷ []
