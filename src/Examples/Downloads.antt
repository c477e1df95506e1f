-- ===== src/Examples/Downloads.antt =====
-- Binaries that are downloaded, on a small host.
use mathlib.Core.Path.{subst}
use multi_fuzz_benchmarks.Prelude.{
  ℕ, ◌≡◌, refl, true, false, none, some, [], ◌∷◌, ◌++◌, map, Text, codes, append-nil, append_assoc,
  arith, flatten, rsplit_once_on, split_once, text_beq,
}
use multi_fuzz_benchmarks.Prelude.Outcome.{ok, err}
use multi_fuzz_benchmarks.Prelude.Returns.{ok_injective}
use multi_fuzz_benchmarks.Rpc.{Bytes}
use multi_fuzz_benchmarks.Env.{Failure, cause}
use multi_fuzz_benchmarks.Setup.{CacheConfig, Hasher, Host, hex, hash_reads}
use multi_fuzz_benchmarks.Setup.Cached.{get_path_to_cached_binary}
use multi_fuzz_benchmarks.Setup.Hex.{from_hex, from_hex-hash_reads}
use multi_fuzz_benchmarks.Setup.Origin.{IsFrom, get_path_to_cached_binary-IsFrom}
use multi_fuzz_benchmarks.Setup.Scheme.{get_path_to_cached_binary-scheme}

-- A digest that is the file itself.
abbrev plain : Hasher
plain = record { State = Bytes; new = []; update = λ s b. s ++ b; finalize = λ s. s }

from_hex-hash_reads_example :
    (text : Text) × (hash_reads plain []
        (map (λ p. ok p) ((1 ∷ []) ∷ (171 ∷ []) ∷ []) ++ ok [] ∷ [])
      ≡ ok text)
    × (from_hex text ≡ some (1 ∷ 171 ∷ []))
unfolding flatten
from_hex-hash_reads_example =
    from_hex-hash_reads plain ((λ s. append-nil s), (λ s a b. append_assoc s a b))
      ((1 ∷ []) ∷ (171 ∷ []) ∷ []) tt (omega arith, (omega arith, tt))

-- A host that can get every URL but `https`.
abbrev small_host : Host ℕ
small_host = record {
  join = λ a b. a ++ (b'/' ∷ b);
  with_extension = λ path ext. path ++ (b'.' ∷ ext);
  exists_path = λ path n. false;
  current_dir = λ n. (ok (codes "/tmp"), n);
  create = λ path n. (ok tt, n);
  transfer = λ url n. (
    elim (text_beq url (codes "https")) [
      | true ↦ ok ([], err (cause (codes "could not resolve host")))
      | false ↦ ok ((1 ∷ 171 ∷ []) ∷ [], ok tt)
    ],
    n,
  );
  write_all = λ gz path bytes n. (ok tt, n);
  rename = λ from to n. (ok tt, n);
  remove_file = λ path n. (ok tt, n);
  entries = λ path n. (ok [], n);
  unpack = λ path position dst n. (ok tt, n);
  open_reads = λ path n. (ok (ok (1 ∷ 171 ∷ []) ∷ ok [] ∷ []), n);
  mode = λ path n. (ok 420, n);
  set_mode = λ path mode n. (ok tt, mode);
}

abbrev cache : CacheConfig
cache = record { dir = codes "cache"; skip_validation = false; disable_image_cache = false }

abbrev kernel_url : Text
kernel_url = codes "ftp://host/vmlinux:vmlinux"

kernel_lem :
    (get_path_to_cached_binary plain small_host cache
      (codes "vmlinux")
      none
      (some kernel_url)
      (some (codes "01ab"))
      0).0
    ≡ ok (codes "cache/vmlinux")
unfolding get_path_to_cached_binary rsplit_once_on split_once hex
kernel_lem = refl

get_path_to_cached_binary-IsFrom_example :
    IsFrom plain small_host cache
      (codes "vmlinux")
      none
      (some kernel_url)
      (some (codes "01ab"))
      0
      (codes "cache/vmlinux")
      (get_path_to_cached_binary plain small_host cache
        (codes "vmlinux")
        none
        (some kernel_url)
        (some (codes "01ab"))
        0).1
get_path_to_cached_binary-IsFrom_example =
    get_path_to_cached_binary-IsFrom plain small_host cache (codes "vmlinux") none (some kernel_url)
      (some (codes "01ab")) 0 (codes "cache/vmlinux") kernel_lem

-- The URL of the kernel in the configuration of the repository.
get_path_to_cached_binary-scheme_example :
    (e : Failure) × ((get_path_to_cached_binary plain small_host cache
        (codes "vmlinux")
        none
        (some (
          codes "https"
          ++ b':' ∷ codes "//github.com/mchesser/linux/releases/download/4.20/vmlinux"))
        none
        0).0
      ≡ err e)
get_path_to_cached_binary-scheme_example =
    get_path_to_cached_binary-scheme plain small_host cache (codes "vmlinux") (codes "https")
      (codes "//github.com/mchesser/linux/releases/download/4.20/vmlinux") none 0 refl
      (λ n given h.
        subst (λ g. (e : Failure) × (g.1 ≡ err e)) (ok_injective h)
          (cause (codes "could not resolve host"), refl))
      refl
