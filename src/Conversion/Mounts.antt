-- ===== src/Conversion/Mounts.antt =====
-- Volume mounts (convertVolumeMounts, convertVolumeMount).
use rep.Base.{◌≡◌, refl, ◌↔◌, List, [], ◌∷◌, arith}
use rep.Base.Result.{ok}
use rep.Models.{VolumeMount, BindMount}
use rep.Services.{Library}
use rep.Conversion.Runs.{convert_volume_mount, convert_volume_mounts}

-- The bind mounts are the mounts, converted one by one and in order.
abbrev pub Converted : Library → List VolumeMount → List BindMount → Type 0
Converted lib [] [] = Unit
Converted lib [] (b ∷ bs) = ⊥
Converted lib (m ∷ ms) [] = ⊥
Converted lib (m ∷ ms) (b ∷ bs) = (convert_volume_mount lib m ≡ ok b) × Converted lib ms bs

mounts→Converted :
    (lib : Library) (ms : List VolumeMount) (bs : List BindMount)
    → convert_volume_mounts lib ms ≡ ok bs
    → Converted lib ms bs
unfolding convert_volume_mounts
mounts→Converted lib [] [] h = tt
mounts→Converted lib [] (b ∷ bs) h = cc
mounts→Converted lib (m ∷ ms) [] h = ground arith
mounts→Converted lib (m ∷ ms) (b ∷ bs) h = (ground arith, mounts→Converted lib ms bs (ground arith))

Converted→mounts :
    (lib : Library) (ms : List VolumeMount) (bs : List BindMount)
    → Converted lib ms bs
    → convert_volume_mounts lib ms ≡ ok bs
unfolding convert_volume_mounts
Converted→mounts lib [] [] h = refl
Converted→mounts lib [] (b ∷ bs) h = absurd h
Converted→mounts lib (m ∷ ms) [] h = absurd h
Converted→mounts lib (m ∷ ms) (b ∷ bs) h = rw (h.0, Converted→mounts lib ms bs h.1)

-- The conversion of a list of mounts succeeds with `bs` exactly when each mount converts, in order,
-- to the entry of `bs` at its place.
pub convert_volume_mounts_iff :
    (lib : Library) (ms : List VolumeMount) (bs : List BindMount)
    → (convert_volume_mounts lib ms ≡ ok bs) ↔ Converted lib ms bs
convert_volume_mounts_iff lib ms bs = (mounts→Converted lib ms bs, Converted→mounts lib ms bs)
