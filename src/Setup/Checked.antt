-- ===== src/Setup/Checked.antt =====
-- setup.rs, the digest of a downloaded file.
use multi_fuzz_benchmarks.Prelude.{
  ◌≡◌, refl, sym, ap, ◌∙◌, Bool, true, false, Option, none, some, Text, codes, ◌==◌, text_eq,
  text_beq_iff,
}
use multi_fuzz_benchmarks.Prelude.Outcome.{ok}
use multi_fuzz_benchmarks.Prelude.Exec.{with_context}
use multi_fuzz_benchmarks.Rpc.{FilePath}
use multi_fuzz_benchmarks.Env.{within}
use multi_fuzz_benchmarks.Setup.{Hasher, Host, sha256_for_path, keep_or_reject, check_digest}
use multi_fuzz_benchmarks.Prelude.Does.{Runs, Does, run-Does, context-Does, bind-Does}

module _ {World : Type 0} (hasher : Hasher) (host : Host World) where
  -- The file has the expected digest, if there is one.
  abbrev pub IsChecked : FilePath → Option Text → World → World → Type 0
  IsChecked path none w v = v ≡ w
  IsChecked path (some expected) w v = Runs (sha256_for_path hasher host path) w expected v

  keep_or_reject-ok :
      (path : FilePath) (expected sha256 : Text) (same : Bool) (w : World) (a : Unit {0})
      → (keep_or_reject hasher host path expected sha256 same w).0 ≡ ok a
      → (same ≡ true) × ((keep_or_reject hasher host path expected sha256 same w).1 ≡ w)
  keep_or_reject-ok path expected sha256 true w a h = (refl, refl)
  keep_or_reject-ok path expected sha256 false w a h = absurd (cc)

  pub check_digest-Does :
      (path : FilePath) (sha256 : Option Text)
      → Does (λ w _ v. IsChecked path sha256 w v) (check_digest hasher host path sha256)
  unfolding check_digest
  check_digest-Does path none w a h = refl
  check_digest-Does path (some expected) w a h =
      let digest = sha256_for_path hasher host path in
      let (sha256, u, run, (same, kept)) =
        bind-Does (Runs digest) (λ sha256 u _ v. (expected ≡ sha256) × (v ≡ u))
          (with_context (within (codes "error computing digest")) digest)
          (λ sha256. keep_or_reject hasher host path expected sha256 (expected == sha256))
          (context-Does (Runs digest) (within (codes "error computing digest")) digest
            (run-Does digest))
          (λ sha256 u b q.
            let (equal, end) = keep_or_reject-ok path expected sha256 (expected == sha256) u b q in
            ((text_beq_iff expected sha256).0 equal, end))
          w a h in
      (run.0 ∙ ap (λ t. ok t) (sym same), kept ∙ run.1)
