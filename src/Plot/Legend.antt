-- ===== src/Plot/Legend.antt =====
-- utils.rs, Marker and Legend: the entries of a legend and the ids that fix their look.
pub mod Fresh
use multi_fuzz_benchmarks.Prelude.{
  ℕ, zero, suc, ◌+◌, ◌%◌, ◌≡◌, refl, max, Option, none, some, Bool, true, false, List, [], ◌∷◌,
  ◌++◌, Text, ◌==◌, text_eq, length, get_elem?, if◌then◌else◌,
}
use multi_fuzz_benchmarks.Prelude.Dict.{Dict, lookup}

pub data Marker : Type 0 where
  circle cross triangle square : Marker

abbrev pub all_markers : List Marker
all_markers = circle ∷ triangle ∷ cross ∷ []

-- `Marker::pick`; `None` stands for an index out of range.
unfoldable pub pick : ℕ → Option Marker
pick index = get_elem? all_markers (index % length all_markers)

-- `Iterator::max` on the values of a map.
unfoldable pub max_value : Dict Text ℕ → Option ℕ
max_value [] = none
max_value ((name, id) ∷ mapping) = elim (max_value mapping) [
  | none ↦ some id
  | some other ↦ some (max id other)
]

-- `LegendEntry`; its color is given by the id.
pub record Entry (Color : Type 0) : Type 0 where
  pub name : Text
  pub color : Color
  pub marker : Option Marker
  pub bold : Bool

pub record Legend (Color : Type 0) : Type 0 where
  pub entries : List (Entry Color)
  pub mapping : Dict Text ℕ
  pub next_id : ℕ

module _ {Color : Type 0} where
  -- `Legend::new_with_mapping`: `max().map_or(0, |id| id + 1)`.
  unfoldable pub new_with_mapping : Dict Text ℕ → Legend Color
  unfolding max_value
  new_with_mapping mapping = record {
    entries = [];
    mapping = mapping;
    next_id = elim (max_value mapping) [ none ↦ 0 | some id ↦ id + 1 ];
  }

  -- `Iterator::position` by the name.
  unfoldable pub position : Text → List (Entry Color) → Option ℕ
  position name [] = none
  position name (entry ∷ entries) =
      let rest = position name entries in
      if entry.name == name then some 0 else elim rest [ none ↦ none | some i ↦ some (suc i) ]

-- Over `CustomPalette::pick`.
module _ {Color : Type 0} (pick_color : ℕ → Color) where
  -- The id of a new entry, with the counter behind it.
  unfoldable pub id_of : Text → Legend Color → ℕ × ℕ
  id_of name self = elim (lookup name self.mapping) [
    | some id ↦ (id, self.next_id)
    | none ↦ (self.next_id, self.next_id + 1)
  ]

  unfoldable pub entry_of : Text → ℕ → Entry Color
  unfolding pick
  entry_of name id = record { name = name; color = pick_color id; marker = pick id; bold = false }

  -- `Legend::get_or_insert`: the legend and the position of the entry that it returns.
  unfoldable pub get_or_insert : Text → Legend Color → Legend Color × ℕ
  unfolding position id_of entry_of
  get_or_insert name self = elim (position name self.entries) [
    | some i ↦ (self, i)
    | none ↦ (
      record self {
        entries = self.entries ++ entry_of name (id_of name self).0 ∷ [];
        next_id = (id_of name self).1;
      },
      length self.entries,
    )
  ]
