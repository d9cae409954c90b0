-- ===== src/Products/Validity.antt =====
-- Which measurements are accepted.
use lotzi.Base.{
  ℕ, ◌+◌, ◌*◌, ◌<◌, ◌≤◌, ◌≡◌, refl, inl, inr, true, false, not, some, ◌==◌, if◌then◌else◌,
  Bool-cases,
}
use lotzi.Base.Outcome.{thrown}
use lotzi.Base.Int.{pos_part}
use lotzi.Products.Units.{
  UnitGroup, MeasurementUnit, PackType, group_index, includes_group, includes_unit, includes_pack,
  unit_meta, comparison_unit,
}
use lotzi.Products.Presets.{Quantity, MeasurementPreset}
use lotzi.Products.Measurement.{
  MeasurementInput, NormalizedMeasurement, ProductMeasurementError, quantity_invalid,
  invalid_for_category, or_default, is_positive, check_measurement, normalize_product_measurement,
}

group_at : ℕ → UnitGroup
group_at n =
    if n == 0
    then UnitGroup.weight
    else if n == 1
    then UnitGroup.volume
    else if n == 2
    then UnitGroup.count
    else if n == 3
    then UnitGroup.length
    else if n == 4
    then UnitGroup.area
    else UnitGroup.bundle

-- The whole number `v` is a nearest one to n / d.
abbrev pub IsNearest : ℕ → ℕ → ℕ → Type 0
IsNearest v n d = (2 * (v * d) ≤ 2 * n + d) × (2 * n < 2 * (v * d) + d)

-- What is known of a measurement that is accepted for a preset and a quantity.
abbrev pub IsAllowed : MeasurementPreset → Quantity → NormalizedMeasurement → Type 0
IsAllowed preset q m =
    (includes_group preset.allowed_unit_groups m.unit_group ≡ true)
    × (includes_unit preset.allowed_quantity_units m.quantity_unit ≡ true)
    × (includes_pack preset.allowed_pack_types m.pack_type ≡ true)
    × ((unit_meta m.quantity_unit).group ≡ m.unit_group)
    × (m.normalized_unit ≡ (comparison_unit m.unit_group).0)
    × (0 < q.denominator)
    × (0 < pos_part q.numerator)
    × IsNearest m.quantity_value (pos_part q.numerator * 10000) q.denominator
    × IsNearest m.normalized_value
        (pos_part q.numerator * 10000 * (unit_meta m.quantity_unit).factor)
        (q.denominator * (unit_meta m.quantity_unit).divisor)

-- The quantity that the code tests: the one given, or the default of the preset.
abbrev pub given_quantity : MeasurementPreset → MeasurementInput → Quantity
given_quantity preset input =
    or_default input.quantity_value preset.default_measurement.quantity_value

no_unit :
    (u : MeasurementUnit)
    → (group_index (unit_meta u).group == group_index UnitGroup.bundle) ≡ false
unfolding unit_meta
no_unit MeasurementUnit.mg = refl
no_unit MeasurementUnit.g = refl
no_unit MeasurementUnit.kg = refl
no_unit MeasurementUnit.tonne = refl
no_unit MeasurementUnit.ml = refl
no_unit MeasurementUnit.litre = refl
no_unit MeasurementUnit.gallon = refl
no_unit MeasurementUnit.piece = refl
no_unit MeasurementUnit.pair = refl
no_unit MeasurementUnit.dozen = refl
no_unit MeasurementUnit.cm = refl
no_unit MeasurementUnit.meter = refl
no_unit MeasurementUnit.inch = refl
no_unit MeasurementUnit.feet = refl
no_unit MeasurementUnit.sq_ft = refl
no_unit MeasurementUnit.sq_meter = refl

check_measurement-bundle :
    (preset : MeasurementPreset) (quantity : Quantity) (u : MeasurementUnit) (p : PackType)
    (price : ℕ)
    → check_measurement preset UnitGroup.bundle quantity u p price
      ≡ thrown (if not (is_positive quantity) then quantity_invalid else invalid_for_category)
unfolding check_measurement
check_measurement-bundle preset quantity u p price =
    elim (Bool-cases (not (is_positive quantity))) [
      | inl e ↦ rw e refl
      | inr e ↦ rw (e, no_unit u) refl
    ]

-- A measurement of the unit group BUNDLE, which one preset allows, is refused by every preset.
pub bundle-refused :
    (preset : MeasurementPreset) (input : MeasurementInput) (price : ℕ)
    → input.unit_group ≡ some UnitGroup.bundle
    → (e : ProductMeasurementError) × (normalize_product_measurement preset input price ≡ thrown e)
unfolding normalize_product_measurement
bundle-refused preset input price h =
    let quantity = given_quantity preset input in
    (
      if not (is_positive quantity) then quantity_invalid else invalid_for_category,
      rw h (
          check_measurement-bundle preset quantity
            (or_default input.quantity_unit preset.default_measurement.quantity_unit)
            (or_default input.pack_type preset.default_measurement.pack_type) price),
    )
