-- ===== src/Firecracker/Drives.antt =====
-- firecracker.rs: which images a machine can write to.
use mathlib.Core.Path.{subst}
use multi_fuzz_benchmarks.Prelude.{
  ◌≡◌, refl, sym, ap, ◌∙◌, ◌⊎◌, inl, inr, Bool, true, false, Bool-cases, List, [], ◌∷◌, ◌++◌,
  append_assoc, append-nil, codes,
}
use multi_fuzz_benchmarks.Prelude.Outcome.{Result, ok, err}
use multi_fuzz_benchmarks.Prelude.Exec.{Exec, relabel, pure, continue, with_context, ◌>>=◌}
use multi_fuzz_benchmarks.Prelude.Returns.{bind-ok}
use multi_fuzz_benchmarks.Rpc.{FilePath}
use multi_fuzz_benchmarks.Env.{Failure, within}
use multi_fuzz_benchmarks.Firecracker.{
  MountKind, read_only, duplicate, reuse_duplicate, in_place, DriveConfig, Drive, VmConfig, Host,
  copy_path, missing, path_of, add_drive, add_drives, all_drives,
}

-- What holds of the value of a call if it succeeds.
abbrev pub Gives : {World A : Type 0} → (A → Type 0) → Exec World Failure A → Type 0
Gives {World} {A} P m = (w : World) (a : A) → (m w).0 ≡ ok a → P a

bind-Gives :
    {World A B : Type 0} (P : A → Type 0) (Q : B → Type 0) (m : Exec World Failure A)
    (f : A → Exec World Failure B)
    → Gives P m
    → ((a : A) → P a → Gives Q (f a))
    → Gives Q (m >>= f)
bind-Gives {World} {A} {B} P Q m f p q w b h = go (m w).0 (m w).1 (p w) h
  where
    go :
        (r : Result Failure A) (v : World)
        → ((a : A) → r ≡ ok a → P a)
        → (continue r f v).0 ≡ ok b
        → Q b
    go (ok a) v k e = q a (k a refl) v b e
    go (err e) v k h = absurd (cc)

ok_injective : {A : Type 0} {a b : A} → ◌≡◌ {A = Result Failure A} (ok a) (ok b) → a ≡ b
ok_injective h = cc

pure-Gives : {World A : Type 0} (P : A → Type 0) (a : A) → P a → Gives {World = World} P (pure a)
pure-Gives P a p w b h = subst P (ok_injective h) p

choose-Gives :
    {World A : Type 0} (P : A → Type 0) (test : Bool) (m n : Exec World Failure A)
    → Gives P m
    → Gives P n
    → (w : World) (a : A)
    → (elim test as (λ _. Result Failure A × World) [ true ↦ m w | false ↦ n w ]).0 ≡ ok a
    → P a
choose-Gives P true m n p q w a h = p w a h
choose-Gives P false m n p q w a h = q w a h

err-Gives :
    {World A : Type 0} (P : A → Type 0) (e : Failure) → Gives {World = World} P (λ w. (err e, w))
err-Gives P e w a h = absurd (cc)

module _ {World : Type 0} (host : Host World) (workdir : FilePath) where
  -- The copy in the working directory was there.
  abbrev IsReused : DriveConfig → FilePath → Type 0
  IsReused config path =
      (w : World) × (host.exists_path (copy_path host workdir config) w ≡ true)
      × ((host.canonicalize (copy_path host workdir config) w).0 ≡ ok path)

  -- It was not there, and the image has been copied.
  abbrev IsCopied : DriveConfig → FilePath → Type 0
  IsCopied config path =
      (w : World) × (host.exists_path (copy_path host workdir config) w ≡ false)
      × ((host.copy config.path (copy_path host workdir config) w).0 ≡ ok tt)
      × ((host.canonicalize (copy_path host workdir config)
            (host.copy config.path (copy_path host workdir config) w).1).0
          ≡ ok path)

  -- Whether the machine can write to it, and what is mounted: the image, or its copy.
  abbrev IsMounted : DriveConfig → MountKind → Bool × FilePath → Type 0
  IsMounted config read_only (is_read_only, path) = (is_read_only ≡ true) × (path ≡ config.path)
  IsMounted config in_place (is_read_only, path) = (is_read_only ≡ false) × (path ≡ config.path)
  IsMounted config duplicate (is_read_only, path) =
      (is_read_only ≡ false) × (IsReused config path ⊎ IsCopied config path)
  IsMounted config reuse_duplicate (is_read_only, path) =
      (is_read_only ≡ false) × IsReused config path

  -- The drive of a configuration.
  abbrev pub IsDrive : Bool → DriveConfig → Drive → Type 0
  IsDrive is_root config drive =
      (drive.drive_id ≡ config.name)
      × (drive.is_root_device ≡ is_root)
      × IsMounted config config.mount (drive.is_read_only, drive.path_on_host)

  abbrev pub AreDrives : List DriveConfig → List Drive → Type 0
  AreDrives [] [] = Unit
  AreDrives (config ∷ configs) (drive ∷ drives) =
      IsDrive false config drive × AreDrives configs drives
  AreDrives _ _ = ⊥

  -- The root device first.
  abbrev pub HasDrives : VmConfig → List Drive → Type 0
  HasDrives config [] = ⊥
  HasDrives config (drive ∷ drives) =
      IsDrive true config.rootfs drive × AreDrives config.drives drives

  canonical-ok :
      (config : DriveConfig) (w : World) (r : Bool × FilePath)
      → ((host.canonicalize (copy_path host workdir config) >>= λ path.
            pure {A = Bool × FilePath} (false, path))
          w).0
        ≡ ok r
      → (r.0 ≡ false) × ((host.canonicalize (copy_path host workdir config) w).0 ≡ ok r.1)
  canonical-ok config w r h =
      let (path, found, end) =
        bind-ok (host.canonicalize (copy_path host workdir config))
          (λ path. pure {A = Bool × FilePath} (false, path)) w h in
      let same = ok_injective end in (ap (λ q. q.0) (sym same), found ∙ ap (λ q. ok q.1) same)

  relabel-ok :
      {A : Type 0} (f : Failure → Failure) (r : Result Failure A) (a : A)
      → relabel f r ≡ ok a
      → r ≡ ok a
  relabel-ok f (ok b) a h = h
  relabel-ok f (err e) a h = absurd (cc)

  path_of-Gives :
      (config : DriveConfig) (mount : MountKind)
      → Gives (IsMounted config mount) (path_of host workdir config mount)
  unfolding path_of
  path_of-Gives config read_only w =
      λ r h. subst (IsMounted config read_only) (ok_injective h) (refl, refl)
  path_of-Gives config in_place w =
      λ r h. subst (IsMounted config in_place) (ok_injective h) (refl, refl)
  path_of-Gives config duplicate w = λ r h.
      elim (Bool-cases (host.exists_path (copy_path host workdir config) w)) [
        | inl b ↦
            let (writable, found) = canonical-ok config w r (rw (b, path_of) at h) in
            (writable, inl (w, b, found))
        | inr b ↦
            let message = within (
              codes "error copying "
              ++ (config.path ++ (codes " to " ++ copy_path host workdir config))) in
            let (_, copied, rest) =
              bind-ok (with_context message (host.copy config.path (copy_path host workdir config)))
                (λ _. host.canonicalize (copy_path host workdir config) >>= λ path.
                  pure {A = Bool × FilePath} (false, path))
                w (rw (b, path_of) at h) in
            let (writable, found) = canonical-ok config _ r rest in
            (
              writable,
              inr (
                w,
                b,
                relabel-ok message (host.copy config.path (copy_path host workdir config) w).0 tt
                    copied,
                found,
              ),
            )
      ]
  path_of-Gives config reuse_duplicate w = λ r h.
      elim (Bool-cases (host.exists_path (copy_path host workdir config) w)) [
        | inl b ↦
            let (writable, found) = canonical-ok config w r (rw (b, path_of) at h) in
            (writable, (w, b, found))
        | inr b ↦ let bad : err _ ≡ ok r = rw (b, path_of) at h in absurd (cc bad)
      ]

  abbrev Adds : Bool → DriveConfig → List Drive → List Drive → Type 0
  Adds is_root config drives more =
      (drive : Drive) × (more ≡ drives ++ drive ∷ []) × IsDrive is_root config drive

  add_drive-Gives :
      (config : DriveConfig) (is_root : Bool) (drives : List Drive)
      → Gives (Adds is_root config drives) (add_drive host workdir config is_root drives)
  unfolding add_drive
  add_drive-Gives config is_root drives w =
      choose-Gives (Adds is_root config drives) (host.exists_path config.path w)
        (path_of host workdir config config.mount >>= λ mounted. pure (
          drives
          ++ record {
            drive_id = config.name;
            path_on_host = mounted.1;
            is_root_device = is_root;
            is_read_only = mounted.0;
          }
            ∷ []))
        (λ v. (err (missing config), v))
        (bind-Gives (IsMounted config config.mount) (Adds is_root config drives)
          (path_of host workdir config config.mount) _ (path_of-Gives config config.mount)
          (λ mounted p. pure-Gives (Adds is_root config drives) _ (_, refl, (refl, refl, p))))
        (err-Gives (Adds is_root config drives) (missing config)) w

  abbrev AddsAll : List DriveConfig → List Drive → List Drive → Type 0
  AddsAll configs drives all = (more : List Drive) × (all ≡ drives ++ more) × AreDrives configs more

  add_drives-Gives :
      (configs : List DriveConfig) (drives : List Drive)
      → Gives (AddsAll configs drives) (add_drives host workdir configs drives)
  unfolding add_drives
  add_drives-Gives [] drives =
      pure-Gives (AddsAll [] drives) drives ([], sym (append-nil drives), tt)
  add_drives-Gives (config ∷ configs) drives =
      bind-Gives (Adds false config drives) (AddsAll (config ∷ configs) drives)
        (add_drive host workdir config false drives) (add_drives host workdir configs)
        (add_drive-Gives config false drives)
        (λ next added w all h.
          let rest = add_drives-Gives configs next w all h in
          (
            added.0 ∷ rest.0,
            rest.1 ∙ ap (λ d. d ++ rest.0) added.1 ∙ append_assoc drives (added.0 ∷ []) rest.0,
            (added.2, rest.2),
          ))

  -- The drives of a machine whose configuration succeeds are those of the configuration, in order
  -- and under their names; the first, that of the root file system, is the only root device. A
  -- drive that is mounted read_only or in_place is its image, which the machine can write to only
  -- in_place; the others are the copy of it in the working directory, which for duplicate was made
  -- if it was not there, and for reuse_duplicate was there.
  pub all_drives-HasDrives :
      (config : VmConfig) (w : World) (drives : List Drive)
      → (all_drives host workdir config w).0 ≡ ok drives
      → HasDrives config drives
  unfolding all_drives
  all_drives-HasDrives config =
      bind-Gives (Adds true config.rootfs []) (HasDrives config)
        (add_drive host workdir config.rootfs true []) (add_drives host workdir config.drives)
        (add_drive-Gives config.rootfs true [])
        (λ root added w all h.
          let rest = add_drives-Gives config.drives root w all h in
          subst (HasDrives config) (sym (rest.1 ∙ ap (λ d. d ++ rest.0) added.1)) (added.2, rest.2))
