-- ===== src/AuctionRep/Perform/Requested.antt =====
-- What Perform asks of the executor for an LRP: the fields of the request, and the path of its rootfs
-- (PathForRootFS).
use rep.Base.{String, ◌==◌, eq_iff, false, ◌≡◌, refl, inl, inr, some, arith}
use Prim.Native.String.{◌++◌}
use rep.Base.Tests.{Bool-cases, Option-cases}
use rep.Base.GoMap.{lookup, put}
use rep.Base.Result.{ok}
use rep.Rootfs.{Url}
use rep.Cell.{Lrp}
use rep.Models.{AllocationRequest}
use rep.Conversion.Tags.{
  lifecycle_tag, domain_tag, process_guid_tag, process_index_tag, instance_guid_tag, lrp_lifecycle,
  preloaded_root_fs_scheme, preloaded_oci_root_fs_scheme,
}
use rep.Services.{Library}
use rep.AuctionRep.{StackPathMap, path_for_root_fs}
use rep.AuctionRep.Perform.{lrp_request}

-- The path of a rootfs: none for none; the directory of its stack, for a preloaded one; the directory
-- with the scheme and the query around it, for a preloaded one with layers; any other rootfs is its
-- own path.
pub data IsPathOf (lib : Library) (stacks : StackPathMap) (root_fs path : String) : Type 0 where
  unset : root_fs ≡ "" → path ≡ "" → IsPathOf lib stacks root_fs path
  preloaded :
      (url : Url)
      → lib.parse_url root_fs ≡ some url
      → url.scheme ≡ preloaded_root_fs_scheme
      → lookup url.path_opaque stacks ≡ some path
      → IsPathOf lib stacks root_fs path
  layered :
      (url : Url) (directory : String)
      → lib.parse_url root_fs ≡ some url
      → url.scheme ≡ preloaded_oci_root_fs_scheme
      → lookup url.path_opaque stacks ≡ some directory
      → path ≡ preloaded_oci_root_fs_scheme ++ ":" ++ directory ++ "?" ++ url.raw_query
      → IsPathOf lib stacks root_fs path
  other :
      (url : Url)
      → lib.parse_url root_fs ≡ some url
      → ¬ (url.scheme ≡ preloaded_root_fs_scheme)
      → ¬ (url.scheme ≡ preloaded_oci_root_fs_scheme)
      → path ≡ root_fs
      → IsPathOf lib stacks root_fs path

module _ (lib : Library) (stacks : StackPathMap) (root_fs path : String)
    (h : path_for_root_fs lib root_fs stacks ≡ ok path) where
  path_of_url :
      (url : Url)
      → (root_fs == "") ≡ false
      → lib.parse_url root_fs ≡ some url
      → IsPathOf lib stacks root_fs path
  unfolding path_for_root_fs
  path_of_url url given parsed = elim (Bool-cases (url.scheme == preloaded_root_fs_scheme)) [
    | inl first ↦
        preloaded url parsed ((eq_iff url.scheme preloaded_root_fs_scheme).0 first)
          (elim (Option-cases (lookup url.path_opaque stacks)) [
            | inl missing ↦ absurd (ground arith)
            | inr (directory, found) ↦ ground arith
          ])
    | inr not_first ↦ elim (Bool-cases (url.scheme == preloaded_oci_root_fs_scheme)) [
      | inl second ↦ elim (Option-cases (lookup url.path_opaque stacks)) [
        | inl missing ↦ absurd (ground arith)
        | inr (directory, found) ↦
            let same = (eq_iff url.scheme preloaded_oci_root_fs_scheme).0 second in
            layered url directory parsed same found (ground arith)
      ]
      | inr not_second ↦
          other url parsed
            (λ same. ground (arith, (eq_iff url.scheme preloaded_root_fs_scheme).1 same))
            (λ same. ground (arith, (eq_iff url.scheme preloaded_oci_root_fs_scheme).1 same))
            (ground arith)
    ]
  ]

  pub path_for_root_fs-IsPathOf : IsPathOf lib stacks root_fs path
  unfolding path_for_root_fs
  path_for_root_fs-IsPathOf = elim (Bool-cases (root_fs == "")) [
    | inl empty ↦ let none_given = (eq_iff root_fs "").0 empty in unset none_given (ground arith)
    | inr given ↦ elim (Option-cases (lib.parse_url root_fs)) [
      | inl bad ↦ absurd (ground arith)
      | inr (url, parsed) ↦ path_of_url url given parsed
    ]
  ]

-- The request asks for a container for the LRP: with the resources of the LRP, at the path of its rootfs,
-- and with tags that name the LRP's key, its lifecycle and, as the instance, the guid of the container.
pub record IsRequestFor (lib : Library) (stacks : StackPathMap) (lrp : Lrp) (r : AllocationRequest)
    : Type 0 where
  pub memory : r.resource.memory_mb ≡ lrp.resource.memory_mb
  pub disk : r.resource.disk_mb ≡ lrp.resource.disk_mb
  pub pids : r.resource.max_pids ≡ lrp.resource.max_pids
  pub path : IsPathOf lib stacks lrp.constraint.root_fs r.resource.root_fs_path
  pub lifecycle : lookup lifecycle_tag r.tags ≡ some lrp_lifecycle
  pub domain : lookup domain_tag r.tags ≡ some lrp.key.domain
  pub process : lookup process_guid_tag r.tags ≡ some lrp.key.process_guid
  pub index : lookup process_index_tag r.tags ≡ some (lib.itoa lrp.key.index)
  pub instance_guid : lookup instance_guid_tag r.tags ≡ some r.guid

pub lrp_request-IsRequestFor :
    (lib : Library) (stacks : StackPathMap) (lrp : Lrp) (instance_guid path : String)
    → path_for_root_fs lib lrp.constraint.root_fs stacks ≡ ok path
    → IsRequestFor lib stacks lrp (lrp_request lib lrp instance_guid path)
unfolding lrp_request lookup put
lrp_request-IsRequestFor lib stacks lrp instance_guid path h = record {
  memory = refl;
  disk = refl;
  pids = refl;
  path = path_for_root_fs-IsPathOf lib stacks lrp.constraint.root_fs path h;
  lifecycle = refl;
  domain = refl;
  process = refl;
  index = refl;
  instance_guid = refl;
}
