-- ===== src/Setup/Written.antt =====
-- setup.rs, download_url: what has been written when it succeeds.
use multi_fuzz_benchmarks.Prelude.{
  ◌≡◌, refl, sym, ◌⊎◌, inl, inr, Bool, Option, none, some, List, [], ◌∷◌, Text, text_eq,
}
use mathlib.Core.Path.{subst}
use multi_fuzz_benchmarks.Prelude.Outcome.{Result, ok, err, Result-cases}
use multi_fuzz_benchmarks.Rpc.{Bytes, FilePath}
use multi_fuzz_benchmarks.Env.{Failure}
use multi_fuzz_benchmarks.Setup.{Hasher, Host, write_buffers, report, download_url}
use multi_fuzz_benchmarks.Prelude.Does.{Runs, Does, run-Does, bind-Does}

module _ {World : Type 0} (hasher : Hasher) (host : Host World) where
  -- Every piece has been written, in order; of an empty one it does not matter.
  abbrev pub IsWritten : Bool → FilePath → List Bytes → World → World → Type 0
  IsWritten gz path [] w v = v ≡ w
  IsWritten gz path (buf ∷ bufs) w v =
      ((buf ≡ []) ⊎ ((host.write_all gz path buf w).0 ≡ ok tt))
      × IsWritten gz path bufs (host.write_all gz path buf w).1 v

  -- curl has given the whole of the URL, and that was written.
  abbrev pub IsTransferred : Text → Bool → FilePath → World → World → Type 0
  IsTransferred url gz path w v =
      (bufs : List Bytes) × (u : World) × Runs (host.transfer url) w (bufs, ok tt) u
      × IsWritten gz path bufs u v

  write_buffers-IsWritten :
      (gz : Bool) (path : FilePath) (done : Result Failure (Unit {0})) (bufs : List Bytes)
      (error : Option Text) (w : World)
      → (write_buffers hasher host gz path done bufs error w).0.0 ≡ ok tt
      → (done ≡ ok tt)
        × IsWritten gz path bufs w (write_buffers hasher host gz path done bufs error w).1
  unfolding write_buffers
  write_buffers-IsWritten gz path done [] error w h = (h, refl)
  write_buffers-IsWritten gz path done ([] ∷ bufs) error w h =
      elim (Result-cases (host.write_all gz path [] w).0) [
        | inl (a, q) ↦
            let (ended, rest) =
              write_buffers-IsWritten gz path done bufs error (host.write_all gz path [] w).1
                (rw (q, write_buffers) at h) in
            (ended, rw (q, write_buffers) (inl refl, rest))
        | inr (e, q) ↦
            let (ended, rest) =
              write_buffers-IsWritten gz path done bufs (some e) (host.write_all gz path [] w).1
                (rw (q, write_buffers) at h) in
            (ended, rw (q, write_buffers) (inl refl, rest))
      ]
  write_buffers-IsWritten gz path done ((b ∷ bs) ∷ bufs) error w h =
      elim (Result-cases (host.write_all gz path (b ∷ bs) w).0) [
        | inl (a, q) ↦
            let (ended, rest) =
              write_buffers-IsWritten gz path done bufs error (host.write_all gz path (b ∷ bs) w).1
                (rw (q, write_buffers) at h) in
            (ended, rw (q, write_buffers) (inr refl, rest))
        | inr (e, q) ↦ let bad : err _ ≡ ok tt = rw (q, write_buffers) at h in absurd (cc bad)
      ]

  report-ok :
      (done : Result Failure (Unit {0})) (error : Option Text) (w : World) (a : Unit {0})
      → (report hasher host done error w).0 ≡ ok a
      → (done ≡ ok tt) × ((report hasher host done error w).1 ≡ w)
  report-ok (ok _) error w a h = (refl, refl)
  report-ok (err e) (some inner) w a h = absurd (cc)
  report-ok (err e) none w a h = absurd (cc)

  pub download_url-Does :
      (url : Text) (gz : Bool) (path : FilePath)
      → Does (λ w _ v. IsTransferred url gz path w v) (download_url hasher host url gz path)
  unfolding download_url
  download_url-Does url gz path w a h =
      let (given, u, run, last) =
        bind-Does (Runs (host.transfer url))
          (λ given u _ v. (given.1 ≡ ok tt) × IsWritten gz path given.0 u v) (host.transfer url) _
          (run-Does (host.transfer url))
          (λ given u b q.
            let end = report-ok _ _ _ b q in
            let (done, written) = write_buffers-IsWritten gz path given.1 given.0 none u end.0 in
            (done, subst (IsWritten gz path given.0 u) (sym end.1) written))
          w a h in
      (given.0, u, subst (λ r. Runs (host.transfer url) w (given.0, r) u) last.0 run, last.1)
