-- ===== src/Examples/Kernels.antt =====
-- A small kernel for one device, and settings written to it and read back.
use netifd.Prelude.{
  ℕ, List, [], ◌∷◌, ◌++◌, Bool, true, false, ◌||◌, Option, some, none, ◌≡◌, refl, ap, ◌∙◌, arith,
  if◌then◌else◌,
}
use netifd.Settings.Defs.{Settings, Flags, DevOpt, no_flags, flag_if}
use netifd.Examples.Stores.{no_settings}
use netifd.Utils.Netmask.{Text}
use netifd.System.Text.{print_uint, strtoul}
use netifd.System.Printed.{with_line_break}
use netifd.System.Kernel.{
  FilePath, same_path, own, Kernel, IfFlags, dev_sysctl_path, ipv4_conf, rp_filter,
  force_igmp_version,
}
use netifd.System.Cells.{
  Cell, file, link_mtu, link_txqlen, link_hwaddr, link_flag, same_cell, is_flag, Stays, KernelLaws,
}
use netifd.System.Apply.{perform, system_if_apply_settings}
use netifd.System.Get.{system_if_get_settings}
use netifd.System.Agree.{Agrees}
use netifd.System.Applied.{settings-Agrees}
use netifd.System.Unasked.{unasked-Agrees}

record Box : Type 0 where
  files : FilePath → Option Text
  mtu : ℕ
  qlen : ℕ
  mac : List ℕ
  link : IfFlags

-- A file that is there takes every text.
abbrev written : FilePath → Text → Box → FilePath → Option Text
written p t b q = if same_path p q then some (with_line_break t) else b.files q

abbrev box_kernel : Kernel Box
box_kernel = record {
  read = λ p b. b.files p;
  write = λ p t b. (record b { files = written p t b }, true);
  mtu = λ b. some b.mtu;
  set_mtu = λ n b. (record b { mtu = n }, true);
  txqlen = λ b. some b.qlen;
  set_txqlen = λ n b. (record b { qlen = n }, true);
  hwaddr = λ b. some b.mac;
  set_hwaddr = λ m b. (record b { mac = m }, true);
  if_flags = λ b. some b.link;
  set_if_flags = λ f b. (record b { link = f }, true);
  ethtool = λ b. none;
  set_ethtool = λ e b. b;
}

abbrev takes_all : FilePath → Text → Bool
takes_all p t = true

same_path_refl : (p : FilePath) → same_path p p ≡ true
same_path_refl p = ground arith

box_write_frame :
    (c : Cell) (p : FilePath) (t : Text) (k : Box)
    → same_cell (file p) c ≡ false
    → Stays box_kernel c k (record k { files = written p t k })
box_write_frame (file q) p t k h v e =
    ap (λ b. if b then some (with_line_break t) else k.files q) h ∙ e
box_write_frame link_mtu p t k h v e = e
box_write_frame link_txqlen p t k h v e = e
box_write_frame link_hwaddr p t k h v e = e
box_write_frame (link_flag f) p t k h v e = e

box_mtu_frame :
    (c : Cell) (n : ℕ) (k : Box)
    → same_cell link_mtu c ≡ false
    → Stays box_kernel c k (record k { mtu = n })
box_mtu_frame (file p) n k h v e = e
box_mtu_frame link_mtu n k h v e = ground arith
box_mtu_frame link_txqlen n k h v e = e
box_mtu_frame link_hwaddr n k h v e = e
box_mtu_frame (link_flag f) n k h v e = e

box_txqlen_frame :
    (c : Cell) (n : ℕ) (k : Box)
    → same_cell link_txqlen c ≡ false
    → Stays box_kernel c k (record k { qlen = n })
box_txqlen_frame (file p) n k h v e = e
box_txqlen_frame link_mtu n k h v e = e
box_txqlen_frame link_txqlen n k h v e = ground arith
box_txqlen_frame link_hwaddr n k h v e = e
box_txqlen_frame (link_flag f) n k h v e = e

box_hwaddr_frame :
    (c : Cell) (m : List ℕ) (k : Box)
    → same_cell link_hwaddr c ≡ false
    → Stays box_kernel c k (record k { mac = m })
box_hwaddr_frame (file p) m k h v e = e
box_hwaddr_frame link_mtu m k h v e = e
box_hwaddr_frame link_txqlen m k h v e = e
box_hwaddr_frame link_hwaddr m k h v e = ground arith
box_hwaddr_frame (link_flag f) m k h v e = e

box_flags_frame :
    (c : Cell) (g : IfFlags) (k : Box)
    → is_flag c ≡ false
    → Stays box_kernel c k (record k { link = g })
box_flags_frame (file p) g k h v e = e
box_flags_frame link_mtu g k h v e = e
box_flags_frame link_txqlen g k h v e = e
box_flags_frame link_hwaddr g k h v e = e
box_flags_frame (link_flag f) g k h v e = ground arith

not_first : (a b : Bool) → (a || b) ≡ false → a ≡ false
not_first a b h = ground arith

box_laws : KernelLaws box_kernel takes_all
box_laws = record {
  write_sticks = λ p t u k r ok.
      ap (λ b. if b then some (with_line_break t) else k.files p) (same_path_refl p);
  mtu_sticks = λ n k ok. refl;
  txqlen_sticks = λ n k ok. refl;
  hwaddr_sticks = λ m k ok. refl;
  flags_stick = λ f k ok. refl;
  flags_kept = λ f k bad. ground arith;
  write_frame = box_write_frame;
  mtu_frame = λ c n k h safe. box_mtu_frame c n k (not_first (same_cell link_mtu c) _ h);
  txqlen_frame = box_txqlen_frame;
  hwaddr_frame = box_hwaddr_frame;
  flags_frame = box_flags_frame;
  ethtool_frame = λ c e k v r. r;
}

-- An interface that is up, with the reverse path filter and a file that holds a large number.
abbrev large : Text
large = print_uint 4294967295 ++ 10 ∷ []

abbrev rp_path : FilePath
rp_path = dev_sysctl_path ipv4_conf own rp_filter

abbrev igmp_path : FilePath
igmp_path = dev_sysctl_path ipv4_conf own force_igmp_version

abbrev box : Box
box = record {
  files = λ p.
      if same_path rp_path p
      then some (b'1' ∷ 10 ∷ [])
      else if same_path igmp_path p
      then some large
      else none;
  mtu = 1500;
  qlen = 1000;
  mac = 2 ∷ 0 ∷ 0 ∷ 0 ∷ 0 ∷ 1 ∷ [];
  link = λ f. false;
}

abbrev wish : Settings
wish = record no_settings {
  flags = flag_if true DevOpt.rpfilter (flag_if true DevOpt.mtu no_flags);
  rpfilter = 2;
  mtu = 1400;
}

abbrev all_options : Flags
all_options o = true

abbrev applied : Box × Settings
applied = system_if_apply_settings box_kernel false [] wish all_options box

filter_written : (system_if_get_settings box_kernel applied.0 no_settings).rpfilter ≡ 2
unfolding system_if_apply_settings system_if_get_settings perform strtoul print_uint
filter_written = refl

-- A number of ten digits loses its last one, since the buffer holds nine.
large_read : (system_if_get_settings box_kernel box no_settings).igmpversion ≡ 429496729
unfolding system_if_get_settings strtoul print_uint
large_read = refl

-- No IPv6 MTU can be read, but the flag is set, and the value is the one of -1.
mtu6_claimed :
    let s = system_if_get_settings box_kernel box no_settings in
    (s.flags DevOpt.mtu6 ≡ true) × (s.mtu6 ≡ 4294967295)
unfolding system_if_get_settings
mtu6_claimed = (refl, refl)

kept : applied.1.flags DevOpt.rpfilter ≡ true
unfolding system_if_apply_settings perform
kept = refl

settings-Agrees_example :
    Agrees DevOpt.rpfilter (system_if_get_settings box_kernel applied.0 no_settings) wish
settings-Agrees_example =
    settings-Agrees box_laws false [] wish all_options box no_settings (λ _. omega arith)
      DevOpt.rpfilter refl kept (((b'1' ∷ 10 ∷ [], refl), refl), omega arith)

unasked-Agrees_example :
    Agrees DevOpt.txqueuelen
      (system_if_get_settings box_kernel applied.0 no_settings)
      (system_if_get_settings box_kernel box no_settings)
unasked-Agrees_example =
    unasked-Agrees box_laws false [] wish all_options box no_settings (λ _. omega arith)
      DevOpt.txqueuelen refl (1000 ∷ [], refl)
