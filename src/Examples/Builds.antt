-- ===== src/Examples/Builds.antt =====
-- Disk images and cached directories, on small hosts; the columns of a table.
use multi_fuzz_benchmarks.Prelude.{
  ℕ, zero, suc, ◌≤◌, ◌≡◌, refl, ◌⊎◌, arith, true, false, none, some, List, [], ◌∷◌, ◌++◌, map,
  codes, strip_suffix,
}
use multi_fuzz_benchmarks.Prelude.Dict.{lookup}
use multi_fuzz_benchmarks.Prelude.Outcome.{ok, err}
use multi_fuzz_benchmarks.Env.{cause}
use multi_fuzz_benchmarks.Setup.{CacheConfig}
use multi_fuzz_benchmarks.Firecracker.{read_only}
use multi_fuzz_benchmarks.Firecracker.Instances.{Mount}
use multi_fuzz_benchmarks.Coverage.Columns.{sort_columns_by_element}
use multi_fuzz_benchmarks.Coverage.Columns.Pairs.{
  average, percent, pairs, sort_columns_by_element-pairs,
}
use multi_fuzz_benchmarks.Images.{ImageSource, copy_zeros, measure, build_image}
use multi_fuzz_benchmarks.Images.Sources.{
  Host, PathToCopy, host, build, get_total_size_and_modified_time, deleting_on_error,
}
use multi_fuzz_benchmarks.Images.Sizes.{get_size, IsAligned, base_size, get_size-IsAligned}
use multi_fuzz_benchmarks.Images.Built.{
  NotMeasured, StartFailed, IsDeleted, copy_zeros-total, build_image-error, build_image-cached,
}
use multi_fuzz_benchmarks.Images.Mounts.{host_paths, copy_to_cache_dir, copy_to_cache_dir-again}

get_size-IsAligned_example : IsAligned (base_size none 5000) 6144 × (5000 ≤ 6144)
unfolding get_size
get_size-IsAligned_example = get_size-IsAligned none 5000 6144 (omega arith) refl

copy_zeros-total_example : copy_zeros 6000 1024 5000 ≡ some 5000
copy_zeros-total_example = copy_zeros-total 6000 1023 5000 (omega arith)

-- A host that counts the commands; the second and later ones fail.
abbrev tired_host : Host ℕ
tired_host = record {
  join = λ a b. a ++ (b'/' ∷ b);
  temp_dir = codes "/tmp";
  exists_path = λ path n. elim n [ zero ↦ false | suc m ↦ true ];
  metadata = λ path n. ok (record { len = 7168; modified = ok 7; blksize = 512; blocks = 8 });
  walk_dir = λ path n. ok (record { len = 3000; modified = ok 5; blksize = 512; blocks = 6 }) ∷ [];
  create = λ path n. (ok tt, n);
  fill_zeros = λ path size n. (ok tt, n);
  create_dir_all = λ path n. (ok tt, n);
  remove_file = λ path n. (ok tt, n);
  unpack_archive = λ from to n. (ok tt, n);
  run = λ words n. (elim n [ zero ↦ ok tt | suc m ↦ err (cause (codes "failed")) ], suc n);
  output = λ words n. (err (cause (codes "failed")), n);
  output_to = λ path words n. (err (cause (codes "failed")), n);
  parse_time = λ text. none;
}

abbrev two_paths : List PathToCopy
two_paths =
    record { dst = codes "a"; src = codes "/src/a" }
    ∷ record { dst = codes "b"; src = codes "/src/b" }
    ∷ []

abbrev image : ImageSource
image = record { kind = host two_paths; size = none }

abbrev cache : CacheConfig
cache = record { dir = codes "cache"; skip_validation = false; disable_image_cache = false }

-- The file system is made, and then the image can not be mounted.
abbrev fresh : CacheConfig
fresh = record { dir = codes "cache"; skip_validation = false; disable_image_cache = true }

failed_lem : (build_image tired_host (codes "root") image fresh 0).0 ≡ err (cause (codes "failed"))
unfolding build_image get_size deleting_on_error build get_total_size_and_modified_time
failed_lem = refl

build_image-error_example :
    NotMeasured tired_host image fresh 0 (build_image tired_host (codes "root") image fresh 0).1
    ⊎ (((size : ℕ) × StartFailed tired_host
            (codes "cache/root.ext4")
            size
            (build_image tired_host (codes "root") image fresh 0).1)
        ⊎ IsDeleted tired_host
            (codes "cache/root.ext4")
            (build_image tired_host (codes "root") image fresh 0).1)
build_image-error_example =
    build_image-error tired_host (codes "root") image fresh 0 (cause (codes "failed")) failed_lem

measured_lem : (measure tired_host image cache 0).0 ≡ ok (7168, 5)
unfolding measure get_size build get_total_size_and_modified_time
measured_lem = refl

build_image-cached_example :
    ((build_image tired_host (codes "root") image cache 0).0 ≡ ok (codes "cache/root.ext4"))
    × (((build_image tired_host (codes "root") image cache 0).1 ≡ 0)
        ⊎ ((build_image tired_host (codes "root") image cache 0).1
            ≡ (measure tired_host image cache 0).1))
build_image-cached_example =
    build_image-cached tired_host (codes "root") image cache 0
      (record { len = 7168; modified = ok 7; blksize = 512; blocks = 8 }) 7168 5 7 refl refl refl
      refl measured_lem (omega arith)

abbrev data_mount : Mount
data_mount = record { name = codes "/data"; image = codes "data"; mount_as = read_only }

known_lem : host_paths tired_host ((codes "data", image) ∷ []) (codes "data") ≡ ok two_paths
unfolding host_paths lookup
known_lem = refl

copy_to_cache_dir-again_example :
    copy_to_cache_dir tired_host cache
      ((codes "data", image) ∷ [])
      data_mount
      (copy_to_cache_dir tired_host cache ((codes "data", image) ∷ []) data_mount 0).1
    ≡ (
      ok (codes "cache/data"),
      (copy_to_cache_dir tired_host cache ((codes "data", image) ∷ []) data_mount 0).1,
    )
copy_to_cache_dir-again_example =
    copy_to_cache_dir-again tired_host cache ((codes "data", image) ∷ []) data_mount
      (record { dst = codes "a"; src = codes "/src/a" })
      (record { dst = codes "b"; src = codes "/src/b" } ∷ []) 0 (λ src dst n h. (refl, refl)) refl
      known_lem refl

sort_columns_by_element-pairs_example :
    sort_columns_by_element (
      codes "binary"
      ∷ (map average (codes "_fuzzer_MultiFuzz" ∷ codes "_fuzzer_Ember" ∷ [])
          ++ map percent (codes "_fuzzer_MultiFuzz" ∷ codes "_fuzzer_Ember" ∷ [])))
    ≡ codes "binary" ∷ pairs (codes "_fuzzer_MultiFuzz" ∷ codes "_fuzzer_Ember" ∷ [])
unfolding strip_suffix
sort_columns_by_element-pairs_example =
    sort_columns_by_element-pairs (codes "_fuzzer_MultiFuzz" ∷ codes "_fuzzer_Ember" ∷ [])
      ((refl, tt), tt, (tt, (refl, tt), tt))
