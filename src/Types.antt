-- ===== src/Types.antt =====
-- Which class derives from which: FastTypeHelper of sources/core/FastIsType.cpp, on the classes of
-- metadata.json. A name is a number. A class's number is one more than its place, and 0 is Object. IsBase
-- runs on fuel, and a base that the classes do not have, for which the code never ends, is `none`.
pub mod Bases
use griefly.Prelude.{
  ℕ, zero, suc, ◌+◌, ◌-◌, ◌==◌, Bool, true, false, if◌then◌else◌, Option, none, some, List, [], ◌∷◌,
  length, get_elem?,
}

pub record ClassData : Type 0 where
  pub name : ℕ
  pub base_class : ℕ

-- GetIndexOfClass, the loop
unfoldable pub index_from : ℕ → ℕ → List ClassData → Option ℕ
index_from i class_name [] = none
index_from i class_name (c ∷ classes) =
    if c.name == class_name then some (i + 1) else index_from (i + 1) class_name classes

-- GetIndexOfClass
abbrev pub get_index_of_class : ℕ → List ClassData → Option ℕ
get_index_of_class class_name classes = index_from 0 class_name classes

module _ (object_name : ℕ) (classes : List ClassData) where
  -- IsBase
  unfoldable pub is_base : ℕ → ℕ → ℕ → Option Bool
  is_base zero class_num base_num = none
  is_base (suc fuel) class_num base_num =
      if base_num == 0
      then some true
      else if class_num == base_num
      then some true
      else if class_num == 0
      then some false
      else elim (get_elem? classes (class_num - 1)) [
        | none ↦ none
        | some c ↦
            if c.base_class == object_name
            then some false
            else elim (get_index_of_class c.base_class classes) [
              | none ↦ none
              | some i ↦ is_base fuel i base_num
            ]
      ]

  -- A row of the table, from a base on.
  unfoldable pub row_from : ℕ → ℕ → ℕ → List (Option Bool)
  row_from zero j class_num = []
  row_from (suc n) j class_num =
      is_base (suc (length classes)) class_num j ∷ row_from n (j + 1) class_num

  unfoldable pub rows_from : ℕ → ℕ → List (List (Option Bool))
  rows_from zero i = []
  rows_from (suc n) i = row_from (length classes + 1) 0 i ∷ rows_from n (i + 1)

  -- InitTable
  unfoldable pub init_table : List (List (Option Bool))
  init_table = rows_from (length classes + 1) 0
