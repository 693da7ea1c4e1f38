-- ===== src/Services/Volumes.antt =====
-- What stands behind the mounts of a service of packages/k8s/src/service.ts.
use jaritanet.Base.{
  ◌≡◌, refl, Bool, true, false, some, List, [], ◌∷◌, map, if◌then◌else◌, Text, codes, In, All,
  All_of_In, In-map,
}
use jaritanet.Base.Members.{In_of_map}
use jaritanet.Services.{
  ServiceArgs, PersistentVolume, PersistentVolumeClaim, Mount, Volume, Container, Objects,
}
use jaritanet.Services.Create.{
  volume, claim, mount, pod_volume, container, deployment, create_service, objects_of, is_repeated,
}

abbrev mode : Bool → List Text
mode read_only = if read_only then codes "ReadOnlyMany" ∷ [] else codes "ReadWriteMany" ∷ []

-- The mount's volume is bound to a claim, and the claim to a persistent volume of the same size and
-- mode, both kept when the service goes.
pub record IsBacked (generated : Text → Text) (o : Objects) (m : Mount) : Type 0 where
  pub pod_volume : Volume
  pub claim : PersistentVolumeClaim
  pub disk : PersistentVolume
  pub volume_declared : In pod_volume o.deployment.volumes
  pub volume_named : pod_volume.name ≡ m.name
  pub claim_declared : In claim o.claims
  pub claim_bound : pod_volume.claim_name ≡ generated claim.resource
  pub disk_declared : In disk o.volumes
  pub disk_bound : claim.volume_name ≡ generated disk.resource
  pub same_storage : claim.storage ≡ disk.storage
  pub same_class : claim.storage_class_name ≡ disk.storage_class_name
  pub claim_mode : claim.access_modes ≡ mode m.read_only
  pub disk_mode : disk.access_modes ≡ mode m.read_only
  pub kept :
      (disk.reclaim_policy ≡ codes "Retain")
      × (disk.retain_on_delete ≡ true)
      × (claim.retain_on_delete ≡ true)

module _ (generated : Text → Text) (service : Text) (args : ServiceArgs) where
  -- Unless two volumes share a name, the service is created, and behind each mount of each of its
  -- containers is a claim on a persistent volume of the same mode, which outlives the service.
  pub create_service-IsBacked :
      is_repeated args.persistence ≡ false
      → (o : Objects) × (create_service generated service args ≡ some o)
        × All
            (λ (c : Container). All (IsBacked generated o) c.volume_mounts)
            o.deployment.containers
  unfolding create_service objects_of deployment container mount volume claim pod_volume
  create_service-IsBacked h = (
    objects_of generated service args,
    rw h refl,
    (
      All_of_In (IsBacked generated (objects_of generated service args))
          (map mount args.persistence)
          (λ m n.
            let (p, listed, e) = In_of_map mount args.persistence n in
            rw (← e) (record {
              pod_volume = pod_volume generated service p;
              claim = claim generated service p;
              disk = volume service p;
              volume_declared = In-map (pod_volume generated service) listed;
              volume_named = refl;
              claim_declared = In-map (claim generated service) listed;
              claim_bound = refl;
              disk_declared = In-map (volume service) listed;
              disk_bound = refl;
              same_storage = refl;
              same_class = refl;
              claim_mode = refl;
              disk_mode = refl;
              kept = (refl, refl, refl);
            })),
      tt,
    ),
  )
