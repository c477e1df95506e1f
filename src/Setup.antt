-- ===== src/Setup.antt =====
-- bench-harness/bench-harness/src/setup.rs: the binaries that the harness downloads into its cache,
-- over the file system of the host and what curl and the archive give.
pub mod Cached
pub mod Checked
pub mod Hex
pub mod Origin
pub mod Scheme
pub mod Stored
pub mod Written
use multi_fuzz_benchmarks.Prelude.{
  ℕ, zero, suc, ◌+◌, ◌/◌, ◌%◌, Bool, true, false, ◌||◌, Option, none, some, List, [], ◌∷◌, ◌++◌,
  Text, codes, ◌==◌, nat_eq, text_eq, if◌then◌else◌, get_elem?, split_once, rsplit_once_on,
  strip_suffix,
}
use multi_fuzz_benchmarks.Prelude.Outcome.{Result, ok, err}
use multi_fuzz_benchmarks.Prelude.Exec.{Exec, pure, raise, lift, with_context, ◌>>=◌, ◌>>◌}
use multi_fuzz_benchmarks.Rpc.{Bytes, FilePath}
use multi_fuzz_benchmarks.Env.{Failure, cause, within}

-- config.rs.
pub record CacheConfig : Type 0 where
  pub dir : FilePath
  pub skip_validation : Bool
  pub disable_image_cache : Bool

abbrev is_some : {A : Type 0} → Option A → Bool
is_some none = false
is_some (some a) = true

-- `str::ends_with`, and `str::contains` of a text.
abbrev pub ends_with : Text → Text → Bool
ends_with t suffix = is_some (strip_suffix suffix t)

abbrev contains_text : Text → Text → Bool
contains_text t part = is_some (split_once part t)

-- `Path::extension` of a file name: behind the last point, unless the name starts with it.
abbrev extension : Text → Text
extension name = elim (rsplit_once_on b'.' name) [ some (c ∷ stem, ext) ↦ ext | _ ↦ [] ]

-- What to download, and which file of the archive is meant.
unfoldable pub split_target : Text → Text → Text × Text
split_target url name = elim (rsplit_once_on b':' url) [ some parts ↦ parts | none ↦ (url, name) ]

unfoldable pub extension_of : Text → Text
extension_of url = elim (rsplit_once_on b'/' url) [
  | some (before, name) ↦ extension name
  | none ↦ []
]

unfoldable pub is_archive : Text → Bool
is_archive ext = contains_text ext (codes "tar") || contains_text ext (codes "tgz")

-- The test of `auto_decompress`.
unfoldable pub is_compressed : Text → Bool
is_compressed ext = ends_with ext (codes "gz") || ends_with ext (codes "gzip")

abbrev digits_4bits : List ℕ
digits_4bits = codes "0123456789abcdef"

-- An index of four bits is always there.
unfoldable pub digit_4bits : ℕ → ℕ
digit_4bits i = elim (get_elem? digits_4bits i) [ some c ↦ c | none ↦ b'0' ]

unfoldable pub hex : Bytes → Text
unfolding digit_4bits
hex [] = []
hex (byte ∷ bytes) = digit_4bits (byte / 16 % 16) ∷ digit_4bits (byte % 16) ∷ hex bytes

-- `sha2::Sha256`.
pub record Hasher : Type 1 where
  pub State : Type 0
  pub new : State
  pub update : State → Bytes → State
  pub finalize : State → Bytes

-- What the code calls of the host: `std::fs`, curl, and the archive.
pub record Host (World : Type 0) : Type 0 where
  pub join : FilePath → Text → FilePath
  pub with_extension : FilePath → Text → FilePath
  pub exists_path : FilePath → World → Bool
  pub current_dir : Exec World Failure FilePath
  pub create : FilePath → Exec World Failure (Unit {0})
  -- The buffers that curl hands to the writer, and how the transfer ends if they are all taken.
  pub transfer : Text → Exec World Failure (List Bytes × Result Failure (Unit {0}))
  -- A write to a file, through the decoder of gzip or not.
  pub write_all : Bool → FilePath → Bytes → Exec World Text (Unit {0})
  pub rename : FilePath → FilePath → Exec World Failure (Unit {0})
  pub remove_file : FilePath → Exec World Failure (Unit {0})
  -- The entries of an archive: an error, or the path, which may not be readable.
  pub entries : FilePath → Exec World Failure (List (Result Failure (Option FilePath)))
  -- Unpack the entry at a position of an archive.
  pub unpack : FilePath → ℕ → FilePath → Exec World Failure (Unit {0})
  -- Open a file: what the reads will give, an empty piece at the end.
  pub open_reads : FilePath → Exec World Failure (List (Result Failure Bytes))
  pub mode : FilePath → Exec World Failure ℕ
  pub set_mode : FilePath → ℕ → Exec World Failure (Unit {0})

module _ (hasher : Hasher) where
  -- The loop of `sha256_for_path`, over what the reads give. A file that ends has an empty read.
  unfoldable pub hash_reads : hasher.State → List (Result Failure Bytes) → Result Failure Text
  hash_reads state [] = ok (hex (hasher.finalize state))
  hash_reads state (ok [] ∷ reads) = ok (hex (hasher.finalize state))
  hash_reads state (ok (b ∷ bs) ∷ reads) = hash_reads (hasher.update state (b ∷ bs)) reads
  hash_reads state (err e ∷ reads) = err e

module _ {World : Type 0} (hasher : Hasher) (host : Host World) where
  open host use {
    join, with_extension, exists_path, current_dir, create, transfer, write_all, rename,
    remove_file, entries, unpack, open_reads, mode, set_mode,
  }

  unfoldable pub sha256_for_path : FilePath → Exec World Failure Text
  unfolding hash_reads
  sha256_for_path path = do
    reads ← with_context (within (codes "failed to open: " ++ path)) (open_reads path)
    with_context (within (codes "error reading from: " ++ path))
        (lift (hash_reads hasher hasher.new reads))

  -- curl ends with an error if the writer takes less than it is given; the writer takes nothing
  -- after an error of its own.
  unfoldable pub write_buffers :
      Bool
      → FilePath
      → Result Failure (Unit {0})
      → List Bytes
      → Option Text
      → World
      → (Result Failure (Unit {0}) × Option Text) × World
  write_buffers gz path done [] error w = ((done, error), w)
  write_buffers gz path done (buf ∷ bufs) error w =
      let (written, w') = write_all gz path buf w in
      elim written [
        | ok _ ↦ write_buffers gz path done bufs error w'
        | err e ↦ elim buf [
          | [] ↦ write_buffers gz path done bufs (some e) w'
          | b ∷ bs ↦ ((err (cause (codes "write error")), some e), w')
        ]
      ]

  -- The error of the writer is the context of curl's.
  abbrev pub report : Result Failure (Unit {0}) → Option Text → Exec World Failure (Unit {0})
  report (ok _) error = pure tt
  report (err e) (some inner) = raise (within inner e)
  report (err e) none = raise e

  unfoldable pub download_url : Text → Bool → FilePath → Exec World Failure (Unit {0})
  unfolding write_buffers
  download_url url gz path = do
    given ← transfer url
    λ w.
        let (written, w') = write_buffers gz path given.1 given.0 none w in
        report written.0 written.1 w'

  -- The first entry whose path ends like the target.
  unfoldable pub extract_entries :
      FilePath
      → FilePath
      → Text
      → ℕ
      → List (Result Failure (Option FilePath))
      → Exec World Failure (Unit {0})
  extract_entries archive dst target position [] =
      raise (cause (codes "target not found in the archive"))
  extract_entries archive dst target position (err e ∷ rest) =
      raise (within (codes "corrupted archive") e)
  extract_entries archive dst target position (ok none ∷ rest) =
      extract_entries archive dst target (suc position) rest
  extract_entries archive dst target position (ok (some path) ∷ rest) =
      elim (ends_with path target) [
        | true ↦ unpack archive position dst
        | false ↦ extract_entries archive dst target (suc position) rest
      ]

  unfoldable pub extract_from : FilePath → FilePath → Text → Exec World Failure (Unit {0})
  unfolding extract_entries
  extract_from archive dst target = do
    found ← with_context (within (codes "error reading downloaded archive")) (entries archive)
    extract_entries archive dst target 0 found

  -- `DeleteOnDrop`: the file is removed when the block is left, with or without an error.
  abbrev pub deleting : {A : Type 0} → FilePath → Exec World Failure A → Exec World Failure A
  deleting path body w = let (r, w') = body w in (r, (remove_file path w').1)

  -- An error of the call is ignored.
  abbrev pub ignoring : Exec World Failure (Unit {0}) → Exec World Failure (Unit {0})
  ignoring m w = (ok tt, (m w).1)

  -- The downloaded file becomes the binary, or the archive that has it.
  unfoldable pub place : Bool → FilePath → FilePath → Text → Text → Exec World Failure (Unit {0})
  unfolding extract_from
  place true tmp path target name = do
    with_context (within (codes "error extracting " ++ (name ++ codes " from archive")))
        (extract_from tmp path target)
    ignoring (remove_file tmp)
  place false tmp path target name =
      with_context (within (codes "error moving binary to " ++ path)) (rename tmp path)

  -- What is done with a file by the test of its digest.
  abbrev pub keep_or_reject : FilePath → Text → Text → Bool → Exec World Failure (Unit {0})
  keep_or_reject path expected sha256 true = pure tt
  keep_or_reject path expected sha256 false = do
    ignoring (rename path (with_extension path (codes "bad")))
    raise (cause (codes "SHA256 mismatch: " ++ (sha256 ++ (codes " != " ++ expected))))

  unfoldable pub check_digest : FilePath → Option Text → Exec World Failure (Unit {0})
  unfolding sha256_for_path
  check_digest path none = pure tt
  check_digest path (some expected) = do
    sha256 ← with_context (within (codes "error computing digest")) (sha256_for_path path)
    keep_or_reject path expected sha256 (expected == sha256)
