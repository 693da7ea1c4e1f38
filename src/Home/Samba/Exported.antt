-- ===== src/Home/Samba/Exported.antt =====
-- What a share of packages/home/src/samba.ts comes to: the directory that is behind its path.
use mathlib.Core.Path.{subst}
use mathlib.Core.List.{append_assoc, append-nil}
use jaritanet.Base.{
  codes, join, sym, ◌≡◌, refl, ap, ◌∙◌, inl, inr, Bool, true, Bool-cases, Option, none, some, List,
  [], ◌∷◌, ◌++◌, map, Text, In, here, there, In-map, find?, text_eq, text_eq_iff, text_eq_refl,
}
use jaritanet.Base.Sets.{Unique}
use jaritanet.Home.Samba.{
  SambaShare, SambaConf, SambaMount, SambaVolume, SambaObjects, config_map, host, share_block,
  smb_conf, global_lines, mount_path, share_mount, share_volume, samba_container, samba_volumes,
  create_samba,
}

abbrev directory_of : SambaVolume → Option Text
directory_of v = elim v.source [ config_map name ↦ none | host path kind ↦ some path ]

abbrev directory : SambaMount → Option SambaVolume → Option (Text × Bool)
directory m none = none
directory m (some v) = elim (directory_of v) [ none ↦ none | some d ↦ some (d, m.read_only) ]

abbrev volume_of : List SambaVolume → Option SambaMount → Option (Text × Bool)
volume_of volumes none = none
volume_of volumes (some m) =
    directory m (find? (λ (v : SambaVolume). text_eq v.name m.name) volumes)

-- The machine's directory that the server sees at a path, and whether it is mounted read-only.
abbrev pub exported : SambaObjects → Text → Option (Text × Bool)
exported o path =
    volume_of o.daemon_set.volumes
      (find? (λ (m : SambaMount). text_eq m.mount_path path) o.daemon_set.container.volume_mounts)

-- A text stands in another one.
abbrev pub Within : Text → Text → Type 0
Within t s = (before : Text) × (after : Text) × (s ≡ before ++ (t ++ after))

-- A section that shares a path read-only, to guests.
abbrev pub section : Text → Text → Text
section name path =
    codes "\n["
    ++ (name
        ++ (codes "]\n  path = "
            ++ (path
                ++ codes
                    "\n  browseable = yes\n  read only = yes\n  guest ok = yes\n  guest only = yes\n")))

-- The file that the server reads has a section of the name, with the path.
abbrev pub HasSection : SambaObjects → Text → Text → Type 0
HasSection o name path =
    (s : Text) × In (codes "smb.conf", s) o.config.data_of × Within (section name path) s

-- Among elements with different keys, a test for the key of one finds that one.
find-Unique {ℓ κ} :
    {A : Type ℓ} {B : Type κ} (f : A → B) (key : A → Text) (p : B → Bool) (x : A) (xs : List A)
    → ((y : A) → p (f y) ≡ text_eq (key y) (key x))
    → Unique (map key xs)
    → In x xs
    → find? p (map f xs) ≡ some (f x)
unfolding find?
find-Unique f key p x [] same u m = elim m [ ]
find-Unique f key p _ (x ∷ ys) same u here = rw (same x, text_eq_refl (key x)) refl
find-Unique f key p x (y ∷ ys) same u (there m) = elim (Bool-cases (text_eq (key y) (key x))) [
  | inl e ↦
      elim (u.0 (
        subst (λ k. In k (map key ys)) (sym ((text_eq_iff (key y) (key x)).0 e))
          (In-map key m))) [ ]
  | inr e ↦ rw (same y, e) (find-Unique f key p x ys same u.1 m)
]

-- A part of a text that is put together.
In-join : (ts : List Text) {t : Text} → In t ts → Within t (join [] ts)
unfolding join
In-join [] m = elim m [ ]
In-join (t ∷ []) (there m) = elim m [ ]
In-join (t ∷ []) here = ([], [], sym (append-nil t))
In-join (t ∷ u ∷ ts) here = ([], join [] (u ∷ ts), refl)
In-join (t ∷ u ∷ ts) (there m) =
    let (before, after, e) = In-join (u ∷ ts) m in
    (t ++ before, after, ap (λ s. t ++ s) e ∙ sym (append_assoc t before _))

module _ (namespace : Text) (samba : SambaConf) (label : Text) where
  mounted :
      Unique (map (λ (s : SambaShare). s.name) samba.shares)
      → (share : SambaShare) → In share samba.shares
      → exported (create_samba namespace samba label) (mount_path share.name)
        ≡ some (share.host_path, true)
  unfolding create_samba samba_container samba_volumes share_mount share_volume mount_path find?
      text_eq
  mounted u share m =
      let name : SambaShare → Text = λ s. s.name in
      let volumes = samba_volumes (codes "samba") samba in
      ap (volume_of volumes) (
        find-Unique share_mount name
          (λ (v : SambaMount). text_eq v.mount_path (mount_path share.name)) share samba.shares
          (λ s. refl) u m)
      ∙ ap (directory (share_mount share)) (
          find-Unique share_volume name
            (λ (v : SambaVolume). text_eq v.name (share_mount share).name) share samba.shares
            (λ s. refl) u m)

  -- Among shares without a repeated name, each has its read-only section in the server's file, and
  -- behind the path that the section gives is the share's directory, mounted read-only.
  pub create_samba-shares :
      Unique (map (λ (s : SambaShare). s.name) samba.shares)
      → (share : SambaShare) → In share samba.shares
      → (path : Text) × HasSection (create_samba namespace samba label) share.name path
        × (exported (create_samba namespace samba label) path ≡ some (share.host_path, true))
  unfolding create_samba smb_conf share_block join
  create_samba-shares u share m =
      let (before, after, e) = In-join (map share_block samba.shares) (In-map share_block m) in
      let head = join (codes "\n") (global_lines samba) in
      (
        mount_path share.name,
        (
          smb_conf samba,
          here,
          (head ++ before, after, ap (λ s. head ++ s) e ∙ sym (append_assoc head before _)),
        ),
        mounted u share m,
      )
