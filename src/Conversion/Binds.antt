-- ===== src/Conversion/Binds.antt =====
-- The disk scope of a rootfs and the bind mounts of volume mounts, as independent descriptions
-- (diskScopeForRootFS, convertVolumeMount).
use rep.Base.{
  String, ◌==◌, eq_iff, ◌≡◌, refl, sym, subst, inl, inr, List, [], ◌∷◌, Option, none, some, arith,
}
use rep.Base.Tests.{Bool-cases, Option-cases}
use rep.Base.Result.{ok, ok-injective, Result-cases}
use rep.Rootfs.{Url}
use rep.Models.{
  DiskLimitScope, exclusive_disk_limit, total_disk_limit, VolumeMount, BindMount, BindMountMode,
  mode_ro, mode_rw, Message,
}
use rep.Services.{Library}
use rep.Conversion.Tags.{ConversionError, preloaded_root_fs_scheme}
use rep.Conversion.Mounts.{Converted}
use rep.Conversion.Runs.{
  disk_scope_for_root_fs, mount_config_of, mount_mode_of, convert_volume_mount,
}

-- The disk limit of a preloaded rootfs is exclusive, that of any other counts the rootfs too.
pub data IsScope (lib : Library) (root_fs : String) : DiskLimitScope → Type 0 where
  of_preloaded :
      (url : Url)
      → lib.parse_url root_fs ≡ some url
      → url.scheme ≡ preloaded_root_fs_scheme
      → IsScope lib root_fs exclusive_disk_limit
  of_other :
      (url : Url)
      → lib.parse_url root_fs ≡ some url
      → ¬ (url.scheme ≡ preloaded_root_fs_scheme)
      → IsScope lib root_fs total_disk_limit

pub data IsMode : String → BindMountMode → Type 0 where
  read_only : IsMode "r" mode_ro
  read_write : IsMode "rw" mode_rw

pub data IsConfig (lib : Library) (text : String) : Option Message → Type 0 where
  no_config : text ≡ "" → IsConfig lib text none
  some_config :
      (config : Message)
      → ¬ (text ≡ "")
      → lib.unmarshal_config text ≡ some config
      → IsConfig lib text (some config)

pub record IsMount (lib : Library) (mount : VolumeMount) (bind : BindMount) : Type 0 where
  pub driver : bind.driver ≡ mount.driver
  pub volume : bind.volume_id ≡ mount.volume_id
  pub path : bind.container_path ≡ mount.container_dir
  pub mode : IsMode mount.mode bind.mode
  pub config : IsConfig lib mount.mount_config bind.config

-- The bind mounts are for the mounts, one for each and in their order.
abbrev pub AreMounts : Library → List VolumeMount → List BindMount → Type 0
AreMounts lib [] [] = Unit
AreMounts lib [] (b ∷ bs) = ⊥
AreMounts lib (m ∷ ms) [] = ⊥
AreMounts lib (m ∷ ms) (b ∷ bs) = IsMount lib m b × AreMounts lib ms bs

module _ (lib : Library) where
  pub disk_scope_for_root_fs-IsScope :
      (root_fs : String) (scope : DiskLimitScope)
      → disk_scope_for_root_fs lib root_fs ≡ ok scope
      → IsScope lib root_fs scope
  unfolding disk_scope_for_root_fs
  disk_scope_for_root_fs-IsScope root_fs scope h = elim (Option-cases (lib.parse_url root_fs)) [
    | inl bad ↦ absurd (ground arith)
    | inr (url, parsed) ↦ elim (Bool-cases (url.scheme == preloaded_root_fs_scheme)) [
      | inl same ↦
          subst (IsScope lib root_fs)
            (ok-injective {E = ConversionError} exclusive_disk_limit scope (ground arith))
            (of_preloaded url parsed ((eq_iff url.scheme preloaded_root_fs_scheme).0 same))
      | inr other ↦
          subst (IsScope lib root_fs)
            (ok-injective {E = ConversionError} total_disk_limit scope (ground arith))
            (of_other url parsed
              (λ s. ground (arith, (eq_iff url.scheme preloaded_root_fs_scheme).1 s)))
    ]
  ]

  pub IsScope-disk_scope_for_root_fs :
      (root_fs : String) (scope : DiskLimitScope)
      → IsScope lib root_fs scope
      → disk_scope_for_root_fs lib root_fs ≡ ok scope
  unfolding disk_scope_for_root_fs
  IsScope-disk_scope_for_root_fs root_fs _ (of_preloaded url parsed same) =
      ground (arith, (eq_iff url.scheme preloaded_root_fs_scheme).1 same)
  IsScope-disk_scope_for_root_fs root_fs _ (of_other url parsed other) =
      ground (arith, eq_iff url.scheme preloaded_root_fs_scheme)

  mount_mode_of-IsMode :
      (text : String) (mode : BindMountMode) → mount_mode_of text ≡ ok mode → IsMode text mode
  unfolding mount_mode_of
  mount_mode_of-IsMode text mode h = elim (Bool-cases (text == "r")) [
    | inl first ↦
        subst (λ t. IsMode t mode) (sym ((eq_iff text "r").0 first))
          (subst (IsMode "r") (ok-injective {E = ConversionError} mode_ro mode (ground arith))
            read_only)
    | inr not_first ↦ elim (Bool-cases (text == "rw")) [
      | inl second ↦
          subst (λ t. IsMode t mode) (sym ((eq_iff text "rw").0 second))
            (subst (IsMode "rw") (ok-injective {E = ConversionError} mode_rw mode (ground arith))
              read_write)
      | inr not_second ↦ absurd (ground arith)
    ]
  ]

  IsMode-mount_mode_of :
      (text : String) (mode : BindMountMode) → IsMode text mode → mount_mode_of text ≡ ok mode
  unfolding mount_mode_of
  IsMode-mount_mode_of _ _ read_only = refl
  IsMode-mount_mode_of _ _ read_write = refl

  mount_config_of-IsConfig :
      (text : String) (config : Option Message)
      → mount_config_of lib text ≡ ok config
      → IsConfig lib text config
  unfolding mount_config_of
  mount_config_of-IsConfig text config h = elim (Bool-cases (text == "")) [
    | inl empty ↦
        subst (IsConfig lib text) (ok-injective {E = ConversionError} none config (ground arith))
          (no_config ((eq_iff text "").0 empty))
    | inr given ↦ elim (Option-cases (lib.unmarshal_config text)) [
      | inl bad ↦ absurd (ground arith)
      | inr (read, found) ↦
          subst (IsConfig lib text)
            (ok-injective {E = ConversionError} (some read) config (ground arith))
            (some_config read (λ e. ground (arith, (eq_iff text "").1 e)) found)
    ]
  ]

  IsConfig-mount_config_of :
      (text : String) (config : Option Message)
      → IsConfig lib text config
      → mount_config_of lib text ≡ ok config
  unfolding mount_config_of
  IsConfig-mount_config_of text _ (no_config empty) = ground (arith, (eq_iff text "").1 empty)
  IsConfig-mount_config_of text _ (some_config config given found) =
      ground (arith, found, eq_iff text "")

  convert_volume_mount-IsMount :
      (m : VolumeMount) (b : BindMount) → convert_volume_mount lib m ≡ ok b → IsMount lib m b
  unfolding convert_volume_mount
  convert_volume_mount-IsMount m b h = elim (Result-cases (mount_config_of lib m.mount_config)) [
    | inr (e, bad) ↦ absurd (ground arith)
    | inl (config, configured) ↦ elim (Result-cases (mount_mode_of m.mode)) [
      | inr (e, bad) ↦ absurd (ground arith)
      | inl (mode, has_mode) ↦
          subst (IsMount lib m) (ok-injective _ b (rw (configured, has_mode) at h)) (record {
            driver = refl;
            volume = refl;
            path = refl;
            mode = mount_mode_of-IsMode m.mode mode has_mode;
            config = mount_config_of-IsConfig m.mount_config config configured;
          })
    ]
  ]

  IsMount-convert_volume_mount :
      (m : VolumeMount) (b : BindMount) → IsMount lib m b → convert_volume_mount lib m ≡ ok b
  unfolding convert_volume_mount
  IsMount-convert_volume_mount m b h =
      let configured = IsConfig-mount_config_of m.mount_config b.config h.config in
      let has_mode = IsMode-mount_mode_of m.mode b.mode h.mode in
      rw (configured, has_mode) (ground (arith, h.driver, h.volume, h.path))

  pub Converted-AreMounts :
      (ms : List VolumeMount) (bs : List BindMount) → Converted lib ms bs → AreMounts lib ms bs
  Converted-AreMounts [] [] h = tt
  Converted-AreMounts [] (b ∷ bs) h = absurd h
  Converted-AreMounts (m ∷ ms) [] h = absurd h
  Converted-AreMounts (m ∷ ms) (b ∷ bs) h =
      (convert_volume_mount-IsMount m b h.0, Converted-AreMounts ms bs h.1)

  pub AreMounts-Converted :
      (ms : List VolumeMount) (bs : List BindMount) → AreMounts lib ms bs → Converted lib ms bs
  AreMounts-Converted [] [] h = tt
  AreMounts-Converted [] (b ∷ bs) h = absurd h
  AreMounts-Converted (m ∷ ms) [] h = absurd h
  AreMounts-Converted (m ∷ ms) (b ∷ bs) h =
      (IsMount-convert_volume_mount m b h.0, AreMounts-Converted ms bs h.1)
