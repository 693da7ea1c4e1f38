-- ===== src/Home/Examples.antt =====
-- The file server at concrete shares, and its theorem there.
use jaritanet.Base.{
  Text, ◌≡◌, refl, true, some, [], ◌∷◌, map, codes, here, there, join, filter, text_eq,
}
use jaritanet.Base.Sets.{Unique, dedup, length-dedup_iff}
use jaritanet.Home.Samba.{SambaShare, SambaConf, share_block, mount_path, create_samba}
use jaritanet.Home.Samba.Exported.{exported, HasSection, create_samba-shares}

abbrev music : SambaShare
music = record { name = codes "music"; host_path = codes "/mnt/kontent/music" }

abbrev tv : SambaShare
tv = record { name = codes "tv"; host_path = codes "/mnt/kontent/tv" }

abbrev samba : SambaConf
samba = record {
  image = codes "samba:a3";
  lan_interface = codes "eno1";
  allowed_networks = codes "100.64.0.0/10" ∷ codes "127.0.0.1" ∷ [];
  guest_account = codes "jc";
  guest_uid = 1000;
  guest_gid = 1000;
  server_string = codes "jaritanet";
  shares = music ∷ tv ∷ [];
  workgroup = codes "WORKGROUP";
}

music_section :
    share_block music
    ≡ codes
        "\n[music]\n  path = /shares/music\n  browseable = yes\n  read only = yes\n  guest ok = yes\n  guest only = yes\n"
unfolding share_block mount_path join
music_section = refl

names-Unique : Unique (map (λ (s : SambaShare). s.name) samba.shares)
unfolding dedup filter text_eq
names-Unique = (length-dedup_iff (map (λ (s : SambaShare). s.name) samba.shares)).0 refl

create_samba-shares_example :
    (path : Text) × HasSection (create_samba (codes "home") samba (codes "media")) (codes "tv") path
    × (exported (create_samba (codes "home") samba (codes "media")) path
        ≡ some (codes "/mnt/kontent/tv", true))
create_samba-shares_example =
    create_samba-shares (codes "home") samba (codes "media") names-Unique tv (there here)
