-- ===== src/Products/Measurement.antt =====
-- `normalizeProductMeasurement`, for the preset of a product. A quantity that comes in is a fraction, the
-- quantities that `roundMeasurement` has rounded are in ten-thousandths, prices in paise; the arithmetic
-- is exact where the code's is of doubles.
use lotzi.Base.{ℕ, ◌*◌, Bool, not, ◌||◌, Option, none, some, ◌==◌, if◌then◌else◌}
use lotzi.Base.Outcome.{Outcome, returned, ◌>>◌, throw_if}
use lotzi.Payments.Money.{round_half_up}
use lotzi.Products.Units.{
  UnitGroup, MeasurementUnit, PackType, UnitMeta, group_index, includes_group, includes_unit,
  includes_pack, unit_meta, comparison_unit,
}
use lotzi.Base.Int.{pos_part}
use lotzi.Products.Presets.{Quantity, MeasurementPreset}

-- `MeasurementInput` after `normalizeToken`, which makes what it does not know absent.
pub record MeasurementInput : Type 0 where
  pub unit_group : Option UnitGroup
  pub quantity_value : Option Quantity
  pub quantity_unit : Option MeasurementUnit
  pub pack_type : Option PackType

pub record NormalizedMeasurement : Type 0 where
  pub unit_group : UnitGroup
  pub quantity_value : ℕ
  pub quantity_unit : MeasurementUnit
  pub normalized_value : ℕ
  pub normalized_unit : MeasurementUnit
  pub pack_type : PackType
  pub price_per_base_unit : ℕ

pub data ProductMeasurementError : Type 0 where
  quantity_invalid invalid_for_category : ProductMeasurementError

abbrev pub or_default : {A : Type 0} → Option A → A → A
or_default none d = d
or_default (some a) d = a

-- `Number.isFinite(quantityValue) && quantityValue > 0`.
abbrev pub is_positive : Quantity → Bool
is_positive q = not (q.denominator == 0 || pos_part q.numerator == 0)

-- `Math.round` of a fraction that is not negative; a divisor is never 0 behind the check.
abbrev pub rounded : Option ℕ → ℕ
rounded none = 0
rounded (some n) = n

-- `roundMeasurement(quantityValue)`.
unfoldable pub round_measurement : Quantity → ℕ
unfolding round_half_up
round_measurement q = rounded (round_half_up (pos_part q.numerator * 10000) q.denominator)

-- `roundMeasurement(quantityValue * meta.factorToNormalized)`.
unfoldable pub normalized_value_of : Quantity → UnitMeta → ℕ
unfolding round_half_up
normalized_value_of q m =
    rounded (round_half_up (pos_part q.numerator * 10000 * m.factor) (q.denominator * m.divisor))

unfoldable pub compute_price_per_base_unit : ℕ → UnitGroup → ℕ → ℕ
unfolding round_half_up comparison_unit
compute_price_per_base_unit price group normalized =
    if price == 0 || normalized == 0
    then 0
    else rounded (round_half_up (price * (comparison_unit group).1 * 10000) normalized)

abbrev pub measurement_of :
    UnitGroup → Quantity → MeasurementUnit → PackType → ℕ → NormalizedMeasurement
measurement_of group quantity u p price = record {
  unit_group = group;
  quantity_value = round_measurement quantity;
  quantity_unit = u;
  normalized_value = normalized_value_of quantity (unit_meta u);
  normalized_unit = (unit_meta u).normalized_unit;
  pack_type = p;
  price_per_base_unit =
      compute_price_per_base_unit price group (normalized_value_of quantity (unit_meta u));
}

-- The checks, for the values that the defaults have filled.
unfoldable pub check_measurement :
    MeasurementPreset
    → UnitGroup
    → Quantity
    → MeasurementUnit
    → PackType
    → ℕ
    → Outcome ProductMeasurementError NormalizedMeasurement
check_measurement preset group quantity u p price = do
  throw_if (not (is_positive quantity)) quantity_invalid
  throw_if (not (group_index (unit_meta u).group == group_index group)) invalid_for_category
  throw_if
      (not (includes_group preset.allowed_unit_groups group)
        || (not (includes_unit preset.allowed_quantity_units u)
            || not (includes_pack preset.allowed_pack_types p)))
      invalid_for_category
  returned (measurement_of group quantity u p price)

unfoldable pub normalize_product_measurement :
    MeasurementPreset → MeasurementInput → ℕ → Outcome ProductMeasurementError NormalizedMeasurement
unfolding check_measurement
normalize_product_measurement preset input price =
    check_measurement preset (or_default input.unit_group preset.default_unit_group)
      (or_default input.quantity_value preset.default_measurement.quantity_value)
      (or_default input.quantity_unit preset.default_measurement.quantity_unit)
      (or_default input.pack_type preset.default_measurement.pack_type) price
