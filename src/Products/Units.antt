-- ===== src/Products/Units.antt =====
-- The units of product-measurement.ts. A factor is a fraction, as the decimals of the code are.
use lotzi.Base.{ℕ, Bool, List, ◌==◌, any}

pub data UnitGroup : Type 0 where
  weight volume count length area bundle : UnitGroup

pub data MeasurementUnit : Type 0 where
  mg g kg tonne ml litre gallon piece pair dozen : MeasurementUnit
  cm meter inch feet sq_ft sq_meter : MeasurementUnit

pub data PackType : Type 0 where
  unit pack packet box carton bottle pouch jar can sachet : PackType
  strip bag tray bunch bundle set : PackType

abbrev pub group_index : UnitGroup → ℕ
group_index UnitGroup.weight = 0
group_index UnitGroup.volume = 1
group_index UnitGroup.count = 2
group_index UnitGroup.length = 3
group_index UnitGroup.area = 4
group_index UnitGroup.bundle = 5

abbrev unit_index : MeasurementUnit → ℕ
unit_index MeasurementUnit.mg = 0
unit_index MeasurementUnit.g = 1
unit_index MeasurementUnit.kg = 2
unit_index MeasurementUnit.tonne = 3
unit_index MeasurementUnit.ml = 4
unit_index MeasurementUnit.litre = 5
unit_index MeasurementUnit.gallon = 6
unit_index MeasurementUnit.piece = 7
unit_index MeasurementUnit.pair = 8
unit_index MeasurementUnit.dozen = 9
unit_index MeasurementUnit.cm = 10
unit_index MeasurementUnit.meter = 11
unit_index MeasurementUnit.inch = 12
unit_index MeasurementUnit.feet = 13
unit_index MeasurementUnit.sq_ft = 14
unit_index MeasurementUnit.sq_meter = 15

abbrev pack_index : PackType → ℕ
pack_index PackType.unit = 0
pack_index PackType.pack = 1
pack_index PackType.packet = 2
pack_index PackType.box = 3
pack_index PackType.carton = 4
pack_index PackType.bottle = 5
pack_index PackType.pouch = 6
pack_index PackType.jar = 7
pack_index PackType.can = 8
pack_index PackType.sachet = 9
pack_index PackType.strip = 10
pack_index PackType.bag = 11
pack_index PackType.tray = 12
pack_index PackType.bunch = 13
pack_index PackType.bundle = 14
pack_index PackType.set = 15

-- `includes`.
abbrev pub includes_group : List UnitGroup → UnitGroup → Bool
includes_group groups group = any (λ x. group_index x == group_index group) groups

abbrev pub includes_unit : List MeasurementUnit → MeasurementUnit → Bool
includes_unit units u = any (λ x. unit_index x == unit_index u) units

abbrev pub includes_pack : List PackType → PackType → Bool
includes_pack packs p = any (λ x. pack_index x == pack_index p) packs

pub record UnitMeta : Type 0 where
  pub group : UnitGroup
  pub factor : ℕ
  pub divisor : ℕ
  pub normalized_unit : MeasurementUnit

abbrev meta : UnitGroup → ℕ → ℕ → MeasurementUnit → UnitMeta
meta group f d u = record { group = group; factor = f; divisor = d; normalized_unit = u }

unfoldable pub unit_meta : MeasurementUnit → UnitMeta
unit_meta MeasurementUnit.mg = meta UnitGroup.weight 1 1000 MeasurementUnit.g
unit_meta MeasurementUnit.g = meta UnitGroup.weight 1 1 MeasurementUnit.g
unit_meta MeasurementUnit.kg = meta UnitGroup.weight 1000 1 MeasurementUnit.g
unit_meta MeasurementUnit.tonne = meta UnitGroup.weight 1000000 1 MeasurementUnit.g
unit_meta MeasurementUnit.ml = meta UnitGroup.volume 1 1 MeasurementUnit.ml
unit_meta MeasurementUnit.litre = meta UnitGroup.volume 1000 1 MeasurementUnit.ml
unit_meta MeasurementUnit.gallon = meta UnitGroup.volume 3785411784 1000000 MeasurementUnit.ml
unit_meta MeasurementUnit.piece = meta UnitGroup.count 1 1 MeasurementUnit.piece
unit_meta MeasurementUnit.pair = meta UnitGroup.count 2 1 MeasurementUnit.piece
unit_meta MeasurementUnit.dozen = meta UnitGroup.count 12 1 MeasurementUnit.piece
unit_meta MeasurementUnit.cm = meta UnitGroup.length 1 1 MeasurementUnit.cm
unit_meta MeasurementUnit.meter = meta UnitGroup.length 100 1 MeasurementUnit.cm
unit_meta MeasurementUnit.inch = meta UnitGroup.length 254 100 MeasurementUnit.cm
unit_meta MeasurementUnit.feet = meta UnitGroup.length 3048 100 MeasurementUnit.cm
unit_meta MeasurementUnit.sq_ft = meta UnitGroup.area 9290304 100000000 MeasurementUnit.sq_meter
unit_meta MeasurementUnit.sq_meter = meta UnitGroup.area 1 1 MeasurementUnit.sq_meter

-- `comparisonUnits`: the normalized unit and the factor of the unit that prices are compared in.
unfoldable pub comparison_unit : UnitGroup → MeasurementUnit × ℕ
comparison_unit UnitGroup.weight = (MeasurementUnit.g, 1000)
comparison_unit UnitGroup.volume = (MeasurementUnit.ml, 1000)
comparison_unit UnitGroup.count = (MeasurementUnit.piece, 1)
comparison_unit UnitGroup.length = (MeasurementUnit.cm, 100)
comparison_unit UnitGroup.area = (MeasurementUnit.sq_meter, 1)
comparison_unit UnitGroup.bundle = (MeasurementUnit.piece, 1)
