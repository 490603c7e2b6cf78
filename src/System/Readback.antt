-- ===== src/System/Readback.antt =====
-- system-linux.c: what is read of one option after it has been written.
use netifd.Prelude.{
  ℕ, List, [], ◌∷◌, Bool, true, false, not, ◌&&◌, ◌||◌, Option, none, some, ◌≡◌, ◌<◌, ◌^◌, refl,
  sym, ap, ◌∙◌, match_keeps, arith,
}
use netifd.Prelude.Int.{ℤ, pos}
use netifd.Settings.Defs.{Flags, DevOpt}
use netifd.Utils.Netmask.{Text}
use netifd.Utils.Pid.{take}
use netifd.System.Text.{strtoul, to_uint, to_int, to_bool, print_uint, print_int}
use netifd.System.Printed.{with_line_break, strtoul-print_uint}
use netifd.System.Kernel.{FilePath, Kernel, fitting, IfFlag, IfFlags, system_if_flags}
use netifd.System.Setters.{Write}
use netifd.System.Apply.{
  Call, ask, set_option, flag_text, ioctl_mtu, ioctl_txqlen, ioctl_hwaddr, change_flag, perform,
  make_calls, only,
}
use netifd.System.Get.{uint_of, int_of, bool_of, not_of, taken}
use netifd.System.Cells.{
  Cell, file, link_mtu, link_txqlen, link_hwaddr, link_flag, look, Stays, KernelLaws, seen,
  flag_value,
}
use netifd.System.Sole.{SafeCalls, sole, sole-Made}

strtoul-flag_text : (b : Bool) → to_bool (strtoul (take 9 (with_line_break (flag_text b)))) ≡ b
unfolding strtoul
strtoul-flag_text true = refl
strtoul-flag_text false = refl

pub seen-some :
    {A : Type 0} (f : A → List ℕ) (o : Option A) (v : List ℕ)
    → seen f o ≡ some v
    → (a : A) × (o ≡ some a) × (f a ≡ v)
seen-some f none v h = ground arith
seen-some f (some a) v h = (a, refl, ground arith)

pub flag_value-inj : (a b : Bool) → flag_value a ≡ flag_value b → a ≡ b
flag_value-inj a b h = ground arith

module _ {K : Type 0} (kern : Kernel K) where
  pub uint_of-read :
      (k : K) (p : FilePath) (old n : ℕ)
      → kern.read p k ≡ some (with_line_break (print_uint n))
      → n < 10 ^ 9
      → uint_of kern k p old ≡ n
  uint_of-read k p old n r lt =
      ap (λ q. taken (λ buf. to_uint (strtoul buf)) old (fitting 9 q)) r
      ∙ ap to_uint (strtoul-print_uint n lt)
      ∙ omega arith

  pub int_of-read :
      (k : K) (p : FilePath) (old : ℤ) (n : ℕ)
      → kern.read p k ≡ some (with_line_break (print_int (pos n)))
      → n < 10 ^ 9
      → int_of kern k p old ≡ pos n
  unfolding print_int
  int_of-read k p old n r lt =
      ap (λ q. taken (λ buf. to_int (strtoul buf)) old (fitting 9 q)) r
      ∙ ap to_int (strtoul-print_uint n lt)
      ∙ ground arith

  pub bool_of-read :
      (k : K) (p : FilePath) (old b : Bool)
      → kern.read p k ≡ some (with_line_break (flag_text b))
      → bool_of kern k p old ≡ b
  bool_of-read k p old b r =
      ap (λ q. taken (λ buf. to_bool (strtoul buf)) old (fitting 9 q)) r ∙ strtoul-flag_text b

  pub not_of-read :
      (k : K) (p : FilePath) (old b : Bool)
      → kern.read p k ≡ some (with_line_break (flag_text (not b)))
      → not_of kern k p old ≡ b
  not_of-read k p old b r =
      ap (λ q. taken (λ buf. not (to_bool (strtoul buf))) old (fitting 9 q)) r
      ∙ ap not (strtoul-flag_text (not b))
      ∙ ground arith

  module _ {accepts : FilePath → Text → Bool} (laws : KernelLaws kern accepts) where
    set_flag :
        (f : IfFlag) (b : Bool) (fs : IfFlags)
        → ((fs f || only f b f) && not (only f (not b) f)) ≡ b
    set_flag f b fs = ground arith

    abbrev changed : IfFlag → Bool → K → Option IfFlags → K × Bool
    changed f b q none = (q, false)
    changed f b q (some fs) =
        kern.set_if_flags (λ i. (fs i || only f b i) && not (only f (not b) i)) q

    changed-sets :
        (f : IfFlag) (b : Bool) (q : K) (o : Option IfFlags)
        → (changed f b q o).1 ≡ true
        → look kern (link_flag f) (changed f b q o).0 ≡ some (flag_value b)
    changed-sets f b q none ok = ground arith
    changed-sets f b q (some fs) ok =
        ap (seen (λ g. flag_value (g f)))
          (laws.flags_stick (λ i. (fs i || only f b i) && not (only f (not b) i)) q ok)
        ∙ ap (λ x. some (flag_value x)) (set_flag f b fs)

    same_change :
        (f : IfFlag) (b : Bool) (q : K) (o : Option IfFlags)
        → elim o [
          | none ↦ (q, false)
          | some fs ↦ kern.set_if_flags (λ i. (fs i || only f b i) && not (only f (not b) i)) q
        ]
          ≡ changed f b q o
    same_change f b q none = refl
    same_change f b q (some fs) = refl

    change_flag-changed :
        (f : IfFlag) (b : Bool) (q : K)
        → perform kern (change_flag f b) q ≡ changed f b q (kern.if_flags q)
    unfolding perform system_if_flags
    change_flag-changed f b q = same_change f b q (kern.if_flags q)

  module _ {accepts : FilePath → Text → Bool} (laws : KernelLaws kern accepts) (l : List Call)
      (safe : SafeCalls l) (mask : Flags) (o : DevOpt) (on : mask o ≡ true) (k : K) (flags : Flags)
      (k2 : K) (stay : (c : Cell) → Stays kern c (make_calls kern l (k, flags)).0 k2) where
    pub text_back :
        (w : Write) (u : Text)
        → sole (file w.path) l ≡ some (set_option mask o w)
        → kern.read w.path k ≡ some u
        → accepts w.path w.text ≡ true
        → kern.read w.path k2 ≡ some (with_line_break w.text)
    unfolding perform
    text_back w u h r ok =
        let made = sole-Made kern laws (file w.path) (set_option mask o w) l (k, flags) h safe on in
        let there = made.as_before u r in
        stay (file w.path) (with_line_break w.text) (
          made.to_the_end (with_line_break w.text) (
            match_keeps (λ k'. kern.read w.path k' ≡ some (with_line_break w.text))
              (kern.read w.path made.at) (λ gone. ground arith)
              (λ t _. laws.write_sticks w.path w.text u made.at there ok)))

    -- Of an ioctl call that has succeeded.
    pub mtu_back :
        (n : ℕ)
        → sole link_mtu l ≡ some (ask mask o (ioctl_mtu n))
        → (make_calls kern l (k, flags)).1 o ≡ true
        → kern.mtu k2 ≡ some n
    unfolding perform
    mtu_back n h kept =
        let made = sole-Made kern laws link_mtu (ask mask o (ioctl_mtu n)) l (k, flags) h safe on in
        let set = laws.mtu_sticks n made.at (made.succeeded kept) in
        let (m, e, same) =
          seen-some (λ m. m ∷ []) (kern.mtu k2) (n ∷ [])
            (stay link_mtu (n ∷ []) (made.to_the_end (n ∷ []) (ap (seen (λ m. m ∷ [])) set))) in
        e ∙ ground arith

    pub txqlen_back :
        (n : ℕ)
        → sole link_txqlen l ≡ some (ask mask o (ioctl_txqlen n))
        → (make_calls kern l (k, flags)).1 o ≡ true
        → kern.txqlen k2 ≡ some n
    unfolding perform
    txqlen_back n h kept =
        let made =
          sole-Made kern laws link_txqlen (ask mask o (ioctl_txqlen n)) l (k, flags) h safe on in
        let set = laws.txqlen_sticks n made.at (made.succeeded kept) in
        let (m, e, same) =
          seen-some (λ m. m ∷ []) (kern.txqlen k2) (n ∷ [])
            (stay link_txqlen (n ∷ []) (made.to_the_end (n ∷ []) (ap (seen (λ m. m ∷ [])) set))) in
        e ∙ ground arith

    -- The address is set for either of two options, and not on an external device.
    pub hwaddr_back :
        (mac : List ℕ) (x : Call)
        → x.wanted ≡ true
        → x.action ≡ ioctl_hwaddr mac
        → sole link_hwaddr l ≡ some x
        → (make_calls kern l (k, flags)).1 x.opt ≡ true
        → kern.hwaddr k2 ≡ some mac
    unfolding perform
    hwaddr_back mac x w e h kept =
        let made = sole-Made kern laws link_hwaddr x l (k, flags) h safe w in
        let ok = sym (ap (λ a. (perform kern a made.at).1) e) ∙ made.succeeded kept in
        stay link_hwaddr mac (
          made.to_the_end mac (
            ap (λ a. kern.hwaddr (perform kern a made.at).0) e ∙ laws.hwaddr_sticks mac made.at ok))

    pub flag_back :
        (f : IfFlag) (b : Bool)
        → sole (link_flag f) l ≡ some (ask mask o (change_flag f b))
        → (make_calls kern l (k, flags)).1 o ≡ true
        → (g : IfFlags) × (kern.if_flags k2 ≡ some g) × (g f ≡ b)
    flag_back f b h kept =
        let made =
          sole-Made kern laws (link_flag f) (ask mask o (change_flag f b)) l (k, flags) h safe on in
        let same = change_flag-changed laws f b made.at in
        let ok = ap (λ (r : K × Bool). r.1) (sym same) ∙ made.succeeded kept in
        let set = changed-sets laws f b made.at (kern.if_flags made.at) ok in
        let (g, e, same_value) =
          seen-some (λ g. flag_value (g f)) (kern.if_flags k2) (flag_value b)
            (stay (link_flag f) (flag_value b) (
              made.to_the_end (flag_value b)
                (ap (λ (r : K × Bool). look kern (link_flag f) r.0) same ∙ set))) in
        (g, e, flag_value-inj (g f) b same_value)
