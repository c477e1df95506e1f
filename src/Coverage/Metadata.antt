-- ===== src/Coverage/Metadata.antt =====
-- metadata.rs, Metadata: the block maps of the binaries, loaded once for each file. A file's
-- content does not change while it is loaded.
pub mod Shared
use multi_fuzz_benchmarks.Prelude.{
  ℕ, Bool, true, false, Option, none, some, List, [], ◌∷◌, ◌++◌, Text, codes, text_eq, length,
  get_elem?, if◌then◌else◌,
}
use multi_fuzz_benchmarks.Prelude.Dict.{Dict, lookup}
use multi_fuzz_benchmarks.Prelude.Outcome.{Result, ok, err, ok_or, ◌>>=◌}

-- `MetadataSource`, by the name of the binary; paths are texts.
abbrev pub Source : Type 0
Source = Dict Text Text

pub record Metadata (BlockMap : Type 0) : Type 0 where
  pub block_maps : List BlockMap
  pub binary_mapping : Dict Text ℕ

-- `Metadata::get_block_map_for`; an index out of range, a panic in the code, is also `None`.
unfoldable pub get_block_map_for : {BlockMap : Type 0} → Text → Metadata BlockMap → Option BlockMap
get_block_map_for binary self = elim (lookup binary self.binary_mapping) [
  | none ↦ none
  | some idx ↦ get_elem? self.block_maps idx
]

-- Over the files that there are, the joining of paths and `BlockMap::parse_from_path`.
module _ {BlockMap : Type 0} (exists_file : Text → Bool) (join : Text → Text → Text)
    (parse_from_path : Text → Result Text BlockMap) where
  unfoldable pub try_find_file : Text → Text → Option Text
  try_find_file relative_to path =
      if exists_file path
      then some path
      else if exists_file (join relative_to path)
      then some (join relative_to path)
      else none

  unfoldable pub parse_block_map : Text → Text → Result Text BlockMap
  unfolding try_find_file
  parse_block_map config_path path = do
    block_map_path ← ok_or (try_find_file config_path path) (codes "failed to find: " ++ path)
    parse_from_path block_map_path

  -- The match on `mapping.entry(path)`.
  unfoldable pub block_map_id :
      Text → Text → Dict Text ℕ × List BlockMap → Result Text (ℕ × (Dict Text ℕ × List BlockMap))
  block_map_id metadata_root path (mapping, block_maps) = elim (lookup path mapping) [
    | some id ↦ ok (id, (mapping, block_maps))
    | none ↦ do
      block_map ← parse_block_map metadata_root path
      let id = length block_maps
      ok (id, ((path, id) ∷ mapping, block_maps ++ block_map ∷ []))
  ]

  -- The entries of the configuration, in any order, from what has been loaded before.
  unfoldable pub load_all :
      Text → Source → Dict Text ℕ × List BlockMap → Result Text (Metadata BlockMap)
  load_all metadata_root [] (mapping, block_maps) =
      ok (record { block_maps = block_maps; binary_mapping = [] })
  load_all metadata_root ((key, path) ∷ entries) loaded = do
    found ← block_map_id metadata_root path loaded
    rest ← load_all metadata_root entries found.1
    ok (record rest { binary_mapping = (key, found.0) ∷ rest.binary_mapping })

  unfoldable pub from_source : Text → Source → Result Text (Metadata BlockMap)
  unfolding load_all
  from_source metadata_root config = load_all metadata_root config ([], [])
