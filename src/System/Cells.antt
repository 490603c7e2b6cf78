-- ===== src/System/Cells.antt =====
-- system-linux.c: what the calls for a device's settings change in the kernel. A cell is one thing that
-- can be read there.
use netifd.Prelude.{
  ℕ, List, [], ◌∷◌, Bool, true, false, not, ◌&&◌, ◌||◌, Option, none, some, ◌==◌, ◌≡◌, ◌≤◌, refl,
  sym, ap, ◌∙◌, if◌then◌else◌, Bool-cases, match_keeps, if_keeps, inl, inr, arith,
}
use netifd.Prelude.Int.{ℤ, pos_part, neg_part}
use netifd.Utils.Netmask.{Text}
use netifd.System.Text.{print_int}
use netifd.System.Printed.{with_line_break}
use netifd.System.Kernel.{
  FilePath, same_path, dev_sysctl_path, ipv6_conf, own, File, Kernel, IfFlag, IfFlags, flag_no,
  EthtoolCmd, write_file, system_if_flags, system_update_ipv6_mtu,
}
use netifd.System.Apply.{
  Action, write_option, ioctl_mtu, update_mtu6, ioctl_txqlen, ioctl_hwaddr, change_flag, only,
  perform,
}

pub data Cell : Type 0 where
  file : FilePath → Cell
  link_mtu link_txqlen link_hwaddr : Cell
  link_flag : IfFlag → Cell

abbrev pub same_cell : Cell → Cell → Bool
same_cell (file p) (file q) = same_path p q
same_cell link_mtu link_mtu = true
same_cell link_txqlen link_txqlen = true
same_cell link_hwaddr link_hwaddr = true
same_cell (link_flag f) (link_flag g) = flag_no f == flag_no g
same_cell _ _ = false

abbrev pub mtu6_path : FilePath
mtu6_path = dev_sysctl_path ipv6_conf own File.mtu

-- The cells that a call may change.
abbrev pub touches : Action → Cell → Bool
touches (write_option w) c = same_cell (file w.path) c
touches (ioctl_mtu n) c = same_cell link_mtu c || same_cell (file mtu6_path) c
touches (update_mtu6 n) c = same_cell (file mtu6_path) c
touches (ioctl_txqlen n) c = same_cell link_txqlen c
touches (ioctl_hwaddr mac) c = same_cell link_hwaddr c
touches (change_flag f b) c = same_cell (link_flag f) c

abbrev pub is_flag : Cell → Bool
is_flag (link_flag f) = true
is_flag _ = false

-- IPv6 needs an MTU of 1280: below it, the kernel takes the IPv6 options of a device away.
abbrev pub SafeMtu : Action → Type 0
SafeMtu (ioctl_mtu n) = 1280 ≤ n
SafeMtu _ = Unit

abbrev number : ℕ → List ℕ
number n = n ∷ []

abbrev pub flag_value : Bool → List ℕ
flag_value b = if b then 1 ∷ [] else 0 ∷ []

abbrev pub seen : {A : Type 0} → (A → List ℕ) → Option A → Option (List ℕ)
seen f none = none
seen f (some a) = some (f a)

module _ {K : Type 0} (kern : Kernel K) where
  abbrev pub look : Cell → K → Option (List ℕ)
  look (file p) k = kern.read p k
  look link_mtu k = seen number (kern.mtu k)
  look link_txqlen k = seen number (kern.txqlen k)
  look link_hwaddr k = kern.hwaddr k
  look (link_flag f) k = seen (λ g. flag_value (g f)) (kern.if_flags k)

  -- What can be read of the cell in `k` is also what `k'` shows.
  abbrev pub Stays : Cell → K → K → Type 0
  Stays c k k' = (v : List ℕ) → look c k ≡ some v → look c k' ≡ some v

  -- What netifd relies on. `accepts` says which texts the kernel takes for a file; it gives a text
  -- back with a line break. A successful call is seen by the next reader, a failed one changes
  -- nothing that it was not about, and no call is seen in another cell.
  pub record KernelLaws (accepts : FilePath → Text → Bool) : Type 0 where
    pub write_sticks :
        (p : FilePath) (t u : Text) (k : K)
        → kern.read p k ≡ some u
        → accepts p t ≡ true
        → kern.read p (kern.write p t k).0 ≡ some (with_line_break t)
    pub mtu_sticks :
        (n : ℕ) (k : K) → (kern.set_mtu n k).1 ≡ true → kern.mtu (kern.set_mtu n k).0 ≡ some n
    pub txqlen_sticks :
        (n : ℕ) (k : K)
        → (kern.set_txqlen n k).1 ≡ true
        → kern.txqlen (kern.set_txqlen n k).0 ≡ some n
    pub hwaddr_sticks :
        (mac : List ℕ) (k : K)
        → (kern.set_hwaddr mac k).1 ≡ true
        → kern.hwaddr (kern.set_hwaddr mac k).0 ≡ some mac
    pub flags_stick :
        (f : IfFlags) (k : K)
        → (kern.set_if_flags f k).1 ≡ true
        → kern.if_flags (kern.set_if_flags f k).0 ≡ some f
    pub flags_kept :
        (f : IfFlags) (k : K)
        → (kern.set_if_flags f k).1 ≡ false
        → kern.if_flags (kern.set_if_flags f k).0 ≡ kern.if_flags k
    pub write_frame :
        (c : Cell) (p : FilePath) (t : Text) (k : K)
        → same_cell (file p) c ≡ false
        → Stays c k (kern.write p t k).0
    pub mtu_frame :
        (c : Cell) (n : ℕ) (k : K)
        → (same_cell link_mtu c || same_cell (file mtu6_path) c) ≡ false
        → 1280 ≤ n
        → Stays c k (kern.set_mtu n k).0
    pub txqlen_frame :
        (c : Cell) (n : ℕ) (k : K)
        → same_cell link_txqlen c ≡ false
        → Stays c k (kern.set_txqlen n k).0
    pub hwaddr_frame :
        (c : Cell) (mac : List ℕ) (k : K)
        → same_cell link_hwaddr c ≡ false
        → Stays c k (kern.set_hwaddr mac k).0
    pub flags_frame :
        (c : Cell) (f : IfFlags) (k : K) → is_flag c ≡ false → Stays c k (kern.set_if_flags f k).0
    pub ethtool_frame : (c : Cell) (e : EthtoolCmd) (k : K) → Stays c k (kern.set_ethtool e k)

  module _ {accepts : FilePath → Text → Bool} (laws : KernelLaws accepts) where
    write_file-Stays :
        (c : Cell) (p : FilePath) (t : Text) (k : K)
        → same_cell (file p) c ≡ false
        → Stays c k (write_file kern p t k)
    write_file-Stays c p t k h v e =
        match_keeps (λ k'. look c k' ≡ some v) (kern.read p k) (λ _. e)
          (λ u r. laws.write_frame c p t k h v e)

    update_mtu6-Stays :
        (c : Cell) (n : ℤ) (k : K)
        → same_cell (file mtu6_path) c ≡ false
        → Stays c k (system_update_ipv6_mtu kern n k).0
    unfolding system_update_ipv6_mtu
    update_mtu6-Stays c n k h v e =
        match_keeps (λ (r : K × ℤ). look c r.0 ≡ some v) (kern.read mtu6_path k) (λ _. e)
          (λ t r.
            if_keeps (λ (q : K × ℤ). look c q.0 ≡ some v) (pos_part n == 0 && neg_part n == 0)
              (λ _. e) (λ _. laws.write_frame c mtu6_path (print_int n) k h v e))

    -- A flag that the call does not name stays.
    other_flag :
        (f g : IfFlag) (b : Bool) (fs : IfFlags)
        → (flag_no f == flag_no g) ≡ false
        → ((fs g || only f b g) && not (only f (not b) g)) ≡ fs g
    other_flag f g b fs h = ground arith

    flags-Stay :
        (f g : IfFlag) (b : Bool) (fs : IfFlags) (k : K)
        → (flag_no f == flag_no g) ≡ false
        → kern.if_flags k ≡ some fs
        → (look (link_flag g) k
            ≡ look
                (link_flag g)
                (kern.set_if_flags (λ i. (fs i || only f b i) && not (only f (not b) i)) k).0)
    flags-Stay f g b fs k h r =
        let new : IfFlags = λ i. (fs i || only f b i) && not (only f (not b) i) in
        elim (Bool-cases (kern.set_if_flags new k).1) [
          | inl ok ↦
              ap (seen (λ q. flag_value (q g))) r
              ∙ ap (λ x. some (flag_value x)) (sym (other_flag f g b fs h))
              ∙ ap (seen (λ q. flag_value (q g))) (sym (laws.flags_stick new k ok))
          | inr bad ↦ ap (seen (λ q. flag_value (q g))) (sym (laws.flags_kept new k bad))
        ]

    set_flag-Stays :
        (f : IfFlag) (b : Bool) (c : Cell) (fs : IfFlags) (k : K)
        → same_cell (link_flag f) c ≡ false
        → kern.if_flags k ≡ some fs
        → Stays c k (kern.set_if_flags (λ i. (fs i || only f b i) && not (only f (not b) i)) k).0
    set_flag-Stays f b (link_flag g) fs k h r v e = sym (flags-Stay f g b fs k h r) ∙ e
    set_flag-Stays f b (file p) fs k h r v e = laws.flags_frame (file p) _ k refl v e
    set_flag-Stays f b link_mtu fs k h r v e = laws.flags_frame link_mtu _ k refl v e
    set_flag-Stays f b link_txqlen fs k h r v e = laws.flags_frame link_txqlen _ k refl v e
    set_flag-Stays f b link_hwaddr fs k h r v e = laws.flags_frame link_hwaddr _ k refl v e

    change_flag-Stays :
        (f : IfFlag) (b : Bool) (c : Cell) (k : K)
        → same_cell (link_flag f) c ≡ false
        → Stays c k (system_if_flags kern (only f b) (only f (not b)) k).0
    unfolding system_if_flags
    change_flag-Stays f b c k h v e =
        match_keeps (λ (r : K × Bool). look c r.0 ≡ some v) (kern.if_flags k) (λ _. e)
          (λ fs r. set_flag-Stays f b c fs k h r v e)

    pub perform-Stays :
        (a : Action) (c : Cell) (k : K)
        → touches a c ≡ false
        → SafeMtu a
        → Stays c k (perform kern a k).0
    unfolding perform
    perform-Stays (write_option w) c k h safe = write_file-Stays c w.path w.text k h
    perform-Stays (ioctl_mtu n) c k h safe = laws.mtu_frame c n k h safe
    perform-Stays (update_mtu6 n) c k h safe = update_mtu6-Stays c n k h
    perform-Stays (ioctl_txqlen n) c k h safe = laws.txqlen_frame c n k h
    perform-Stays (ioctl_hwaddr mac) c k h safe = laws.hwaddr_frame c mac k h
    perform-Stays (change_flag f b) c k h safe = change_flag-Stays f b c k h
