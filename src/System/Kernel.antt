-- ===== src/System/Kernel.antt =====
-- system-linux.c: the files of the kernel that belong to a device, and the ioctl calls. The kernel
-- is a parameter. The model is about one device: `own` stands for its name, `all` for the name of
-- that directory.
use netifd.Prelude.{
  ℕ, List, Bool, false, not, ◌&&◌, ◌||◌, Option, none, some, ◌==◌, ◌-◌, if◌then◌else◌,
}
use netifd.Prelude.Int.{ℤ, negsuc, pos_part, neg_part}
use netifd.Utils.Netmask.{Text}
use netifd.Utils.Pid.{take}
use netifd.System.Text.{print_int, atoi}

pub data Owner : Type 0 where
  own all : Owner

-- The directories under /proc/sys/net, and the one of a bridge port under /sys/class/net.
pub data Directory : Type 0 where
  ipv4_conf ipv6_conf ipv4_neigh ipv6_neigh brport : Directory

pub data File : Type 0 where
  disable_ipv6 seg6_enabled rp_filter accept_local force_igmp_version force_mld_version : File
  base_reachable_time_ms gc_stale_time locktime dad_transmits send_redirects : File
  drop_unicast_in_l2_multicast drop_gratuitous_arp drop_unsolicited_na arp_accept : File
  forwarding hop_limit accept_source_route mtu : File
  multicast_to_unicast multicast_fast_leave hairpin_mode proxyarp_wifi bpdu_filter : File
  isolated multicast_router learning unicast_flood : File

-- The names are told apart by numbers.
abbrev owner_no : Owner → ℕ
owner_no own = 0
owner_no all = 1

abbrev directory_no : Directory → ℕ
directory_no ipv4_conf = 0
directory_no ipv6_conf = 1
directory_no ipv4_neigh = 2
directory_no ipv6_neigh = 3
directory_no brport = 4

abbrev file_no : File → ℕ
file_no disable_ipv6 = 0
file_no seg6_enabled = 1
file_no rp_filter = 2
file_no accept_local = 3
file_no force_igmp_version = 4
file_no force_mld_version = 5
file_no base_reachable_time_ms = 6
file_no gc_stale_time = 7
file_no locktime = 8
file_no dad_transmits = 9
file_no send_redirects = 10
file_no drop_unicast_in_l2_multicast = 11
file_no drop_gratuitous_arp = 12
file_no drop_unsolicited_na = 13
file_no arp_accept = 14
file_no forwarding = 15
file_no hop_limit = 16
file_no accept_source_route = 17
file_no mtu = 18
file_no multicast_to_unicast = 19
file_no multicast_fast_leave = 20
file_no hairpin_mode = 21
file_no proxyarp_wifi = 22
file_no bpdu_filter = 23
file_no isolated = 24
file_no multicast_router = 25
file_no learning = 26
file_no unicast_flood = 27

pub record FilePath : Type 0 where
  pub directory : Directory
  pub owner : Owner
  pub file : File

abbrev pub same_path : FilePath → FilePath → Bool
same_path p q =
    owner_no p.owner == owner_no q.owner
    && directory_no p.directory == directory_no q.directory
    && file_no p.file == file_no q.file

-- dev_sysctl_path, and dev_sysfs_path for the files of a bridge port.
abbrev pub dev_sysctl_path : Directory → Owner → File → FilePath
dev_sysctl_path prefix ifname file = record { directory = prefix; owner = ifname; file = file }

abbrev pub dev_sysfs_path : Owner → File → FilePath
dev_sysfs_path ifname file = record { directory = brport; owner = ifname; file = file }

-- The flags of a link, by name, and what of a link's speed settings the kernel shows.
pub data IfFlag : Type 0 where
  iff_up iff_promisc iff_multicast iff_noarp : IfFlag

abbrev pub flag_no : IfFlag → ℕ
flag_no iff_up = 0
flag_no iff_promisc = 1
flag_no iff_multicast = 2
flag_no iff_noarp = 3

abbrev pub IfFlags : Type 0
IfFlags = IfFlag → Bool

pub record EthtoolCmd : Type 0 where
  pub supported : ℕ
  pub autoneg : Bool
  pub advertising : ℕ

-- The kernel's side: `read` gives none where the file cannot be opened or read, and `write` and the
-- other setters the kernel after the call, with true where the call succeeded.
pub record Kernel (K : Type 0) : Type 0 where
  pub read : FilePath → K → Option Text
  pub write : FilePath → Text → K → K × Bool
  pub mtu : K → Option ℕ
  pub set_mtu : ℕ → K → K × Bool
  pub txqlen : K → Option ℕ
  pub set_txqlen : ℕ → K → K × Bool
  pub hwaddr : K → Option (List ℕ)
  pub set_hwaddr : List ℕ → K → K × Bool
  pub if_flags : K → Option IfFlags
  pub set_if_flags : IfFlags → K → K × Bool
  pub ethtool : K → Option EthtoolCmd
  pub set_ethtool : EthtoolCmd → K → K

abbrev pub fitting : ℕ → Option Text → Option Text
fitting n none = none
fitting n (some t) = some (take n t)

module _ {K : Type 0} (kern : Kernel K) where
  -- A call at a missing file comes back without having written.
  abbrev pub write_file : FilePath → Text → K → K
  write_file path val k = elim (kern.read path k) [ none ↦ k | some t ↦ (kern.write path val k).0 ]

  -- As much as fits into a buffer of the given size with a closing zero.
  abbrev pub read_file : FilePath → ℕ → K → Option Text
  read_file path buf_sz k = fitting (buf_sz - 1) (kern.read path k)

  -- ioctl SIOCGIFFLAGS, then SIOCSIFFLAGS with flags added and removed.
  unfoldable pub system_if_flags : IfFlags → IfFlags → K → K × Bool
  system_if_flags add rem k = elim (kern.if_flags k) [
    | none ↦ (k, false)
    | some f ↦ kern.set_if_flags (λ i. (f i || add i) && not (rem i)) k
  ]

  -- With 0 the MTU is read, else it is written; -1 if that fails.
  unfoldable pub system_update_ipv6_mtu : ℤ → K → K × ℤ
  system_update_ipv6_mtu val k =
      let path = dev_sysctl_path ipv6_conf own File.mtu in
      let done = kern.write path (print_int val) k in
      elim (kern.read path k) [
        | none ↦ (k, negsuc 0)
        | some t ↦
            if pos_part val == 0 && neg_part val == 0
            then (k, atoi (take 63 t))
            else (done.0, if done.1 then val else negsuc 0)
      ]
