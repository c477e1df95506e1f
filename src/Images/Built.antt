-- ===== src/Images/Built.antt =====
-- image_builder/mod.rs, build_image: what is left when it fails.
use multi_fuzz_benchmarks.Prelude.{
  ◌&&◌, ℕ, zero, suc, ◌-◌, min, ◌≤◌, ◌<◌, ◌≡◌, refl, ◌∙◌, ◌⊎◌, inl, inr, arith, Bool, true, false,
  some, ◌++◌, Text, codes, Bool-cases,
}
use multi_fuzz_benchmarks.Prelude.Outcome.{Result, ok, err}
use multi_fuzz_benchmarks.Prelude.Exec.{Exec, pure, with_context}
use multi_fuzz_benchmarks.Prelude.Returns.{
  Raises, pure-Raises, context-Raises, bind-raised, bind-Raises,
}
use multi_fuzz_benchmarks.Rpc.{FilePath}
use multi_fuzz_benchmarks.Env.{Failure, within}
use multi_fuzz_benchmarks.Setup.{CacheConfig}
use multi_fuzz_benchmarks.Images.Sources.{Host, Metadata, on_error, deleting_on_error}
use multi_fuzz_benchmarks.Images.{
  ImageSource, read_zeros, copy_zeros, init_fs, rebuild, measure, rebuild_unless, validate,
  build_image, is_ok, existing_size, image_time, is_up_to_date,
}

-- With a buffer of at least one byte, copying a file of zeros ends after one read for each byte and
-- one more, at most, and has copied as many bytes as the file has.
pub copy_zeros-total :
    (rounds k left : ℕ) → left < rounds → copy_zeros rounds (suc k) left ≡ some left
unfolding copy_zeros read_zeros
copy_zeros-total zero k left h = absurd (omega arith)
copy_zeros-total (suc rounds) k zero h = ground arith
copy_zeros-total (suc rounds) k (suc left) h =
    rw (copy_zeros-total rounds k (suc left - min (suc k) (suc left)) (omega arith)) (ground arith)

module _ {World : Type 0} (env : Host World) where
  -- The start of the file system has failed, and what it has made is still there.
  abbrev pub StartFailed : FilePath → ℕ → World → Type 0
  StartFailed path size v =
      (u : World) × (e : Failure) × ((init_fs env path size u).0 ≡ err e)
      × (v ≡ (init_fs env path size u).1)

  -- The image has just been deleted.
  abbrev pub IsDeleted : FilePath → World → Type 0
  IsDeleted path v = (u : World) × (v ≡ (env.remove_file path u).1)

  deleting_on_error-IsDeleted :
      {A : Type 0} (path : FilePath) (m : Exec World Failure A)
      → Raises (IsDeleted path) (deleting_on_error env path m)
  unfolding deleting_on_error
  deleting_on_error-IsDeleted {A} path m w e h = go (m w).0 h
    where
      go :
          (r : Result Failure A)
          → (on_error env path r (m w).1).0 ≡ err e
          → IsDeleted path (on_error env path r (m w).1).1
      go (ok a) q = absurd (cc)
      go (err e') q = ((m w).1, refl)

  abbrev IsUnfinished : FilePath → World → Type 0
  IsUnfinished path v = ((size : ℕ) × StartFailed path size v) ⊎ IsDeleted path v

  rebuild_unless-IsUnfinished :
      (keep : Bool) (path : FilePath) (name : Text) (source : ImageSource) (size : ℕ)
      → Raises (IsUnfinished path) (rebuild_unless env keep path name source size)
  unfolding rebuild_unless rebuild
  rebuild_unless-IsUnfinished true path name source size = pure-Raises (IsUnfinished path) path
  rebuild_unless-IsUnfinished false path name source size =
      bind-Raises (IsUnfinished path) (rebuild env path name source size) (λ _. pure path)
        (bind-Raises (IsUnfinished path)
          (with_context (within (codes "failed to initialize file system")) (init_fs env path size))
          _
          (context-Raises (IsUnfinished path) _ (init_fs env path size)
            (λ w e h. inl (size, (w, e, h, refl))))
          (λ _ w e h. inr (deleting_on_error-IsDeleted path _ w e h)))
        (λ _. pure-Raises (IsUnfinished path) path)

  -- The source could not be built or measured, and nothing was done after that.
  abbrev pub NotMeasured : ImageSource → CacheConfig → World → World → Type 0
  NotMeasured source cache w v =
      (e : Failure) × ((measure env source cache w).0 ≡ err e)
      × (v ≡ (measure env source cache w).1)

  -- When the build of an image fails, its source could not be built or measured, and the image is
  -- untouched; or the file system could not be made in it, and what there is of it stays; or the image
  -- has been deleted, as the last thing that was done.
  pub build_image-error :
      (name : Text) (source : ImageSource) (cache : CacheConfig) (w : World) (e : Failure)
      → (build_image env name source cache w).0 ≡ err e
      → NotMeasured source cache w (build_image env name source cache w).1
        ⊎ (((size : ℕ) × StartFailed
                (env.join cache.dir (name ++ codes ".ext4"))
                size
                (build_image env name source cache w).1)
            ⊎ IsDeleted
                (env.join cache.dir (name ++ codes ".ext4"))
                (build_image env name source cache w).1)
  unfolding build_image validate
  build_image-error name source cache w e h =
      let path = env.join cache.dir (name ++ codes ".ext4") in
      let found = env.metadata path w in
      elim (Bool-cases (is_ok found && cache.skip_validation)) [
        | inl b ↦ let bad : ok path ≡ err e = rw (b, build_image) at h in absurd (cc bad)
        | inr b ↦
            rw (b, build_image)
              (bind-raised (λ v. NotMeasured source cache w v ⊎ IsUnfinished path v)
                (measure env source cache) _ w (λ e' q. inl (e', q, refl))
                (λ measured v e'' q.
                  inr (rebuild_unless-IsUnfinished _ path name source measured.0 v e'' q))
                e (rw (b, build_image) at h))
      ]

  validate-cached :
      (name : Text) (source : ImageSource) (cache : CacheConfig) (w : World)
      (found : Result Failure Metadata) (path : FilePath) (size source_time : ℕ)
      → (measure env source cache w).0 ≡ ok (size, source_time)
      → is_up_to_date (image_time cache found) source_time (existing_size found) size ≡ true
      → ((validate env name source cache path found w).0 ≡ ok path)
        × ((validate env name source cache path found w).1 ≡ (measure env source cache w).1)
  unfolding validate rebuild_unless
  validate-cached name source cache w found path size source_time measured current =
      rw (measured, validate) (rw (current, rebuild_unless) (refl, refl))

  -- An image of the right size that is not older than its source is taken for it, whatever it holds,
  -- and nothing is done to it.
  pub build_image-cached :
      (name : Text) (source : ImageSource) (cache : CacheConfig) (w : World) (found : Metadata)
      (size source_time time : ℕ)
      → env.metadata (env.join cache.dir (name ++ codes ".ext4")) w ≡ ok found
      → found.modified ≡ ok time
      → found.len ≡ size
      → cache.disable_image_cache ≡ false
      → (measure env source cache w).0 ≡ ok (size, source_time)
      → source_time ≤ time
      → ((build_image env name source cache w).0 ≡ ok (env.join cache.dir (name ++ codes ".ext4")))
        × (((build_image env name source cache w).1 ≡ w)
            ⊎ ((build_image env name source cache w).1 ≡ (measure env source cache w).1))
  unfolding build_image validate
  build_image-cached name source cache w found size source_time time there date len no_flag measured
        h =
      let seen = env.metadata (env.join cache.dir (name ++ codes ".ext4")) w in
      let current : is_up_to_date (image_time cache seen) source_time (existing_size seen) size
          ≡ true =
        rw (there, image_time, no_flag, date, existing_size, len) (ground arith) in
      let tested : (is_ok seen && cache.skip_validation) ≡ cache.skip_validation = rw there refl in
      elim (Bool-cases cache.skip_validation) [
        | inl skip ↦
            let test : (is_ok seen && cache.skip_validation) ≡ true = tested ∙ skip in
            rw (test, build_image) (refl, inl refl)
        | inr check ↦
            let test : (is_ok seen && cache.skip_validation) ≡ false = tested ∙ check in
            let valid =
              validate-cached name source cache w seen (env.join cache.dir (name ++ codes ".ext4"))
                size source_time measured current in
            rw (test, build_image) (valid.0, inr valid.1)
      ]
