-- ===== src/System/Sole.antt =====
-- system-linux.c: of the calls of system_if_apply_settings at most one is about a cell, and what it
-- leaves there stays.
use netifd.Prelude.{
  List, [], ◌∷◌, Bool, true, false, not, ◌&&◌, Option, none, some, ◌==◌, ◌≡◌, refl, sym, ap, ◌∙◌,
  subst, if◌then◌else◌, Bool-cases, if_keeps, inl, inr, arith,
}
use netifd.Settings.Defs.{Flags, DevOpt, bit}
use netifd.Utils.Netmask.{Text}
use netifd.System.Kernel.{FilePath, Kernel}
use netifd.System.Apply.{
  Action, write_option, ioctl_mtu, update_mtu6, ioctl_txqlen, ioctl_hwaddr, change_flag, Call,
  perform, make_call, make_calls, without,
}
use netifd.System.Cells.{Cell, link_mtu, touches, SafeMtu, look, Stays, KernelLaws, perform-Stays}

abbrev pub SafeCalls : List Call → Type 0
SafeCalls [] = Unit
SafeCalls (c ∷ l) = (c.wanted ≡ true → SafeMtu c.action) × SafeCalls l

abbrev clear : Cell → List Call → Bool
clear c [] = true
clear c (x ∷ l) = let rest = clear c l in not (touches x.action c) && rest

-- The one call about a cell.
abbrev pub sole : Cell → List Call → Option Call
sole c [] = none
sole c (x ∷ l) =
    let rest = sole c l in if touches x.action c then (if clear c l then some x else none) else rest

absurd {ℓ} : {A : Type ℓ} → true ≡ false → A
absurd h = ground arith

clear-cons :
    (c : Cell) (x : Call) (l : List Call)
    → clear c (x ∷ l) ≡ true
    → (touches x.action c ≡ false) × (clear c l ≡ true)
clear-cons c x l h = ground arith

-- Only the call for the MTU has to be safe.
touches-SafeMtu : (a : Action) → touches a link_mtu ≡ false → SafeMtu a
touches-SafeMtu (write_option w) h = tt
touches-SafeMtu (ioctl_mtu n) h = absurd h
touches-SafeMtu (update_mtu6 n) h = tt
touches-SafeMtu (ioctl_txqlen n) h = tt
touches-SafeMtu (ioctl_hwaddr mac) h = tt
touches-SafeMtu (change_flag f b) h = tt

pub clear-SafeCalls : (l : List Call) → clear link_mtu l ≡ true → SafeCalls l
clear-SafeCalls [] h = tt
clear-SafeCalls (x ∷ l) h =
    let (other, rest) = clear-cons link_mtu x l h in
    ((λ _. touches-SafeMtu x.action other), clear-SafeCalls l rest)

sole-here :
    (c : Cell) (x y : Call) (l : List Call)
    → touches y.action c ≡ true
    → sole c (y ∷ l) ≡ some x
    → (clear c l ≡ true) × (y ≡ x)
sole-here c x y l t h = ground arith

sole-there :
    (c : Cell) (x y : Call) (l : List Call)
    → touches y.action c ≡ false
    → sole c (y ∷ l) ≡ some x
    → sole c l ≡ some x
sole-there c x y l t h = ground arith

module _ {K : Type 0} (kern : Kernel K) {accepts : FilePath → Text → Bool}
    (laws : KernelLaws kern accepts) where
  call-Stays :
      (c : Cell) (x : Call) (s : K × Flags)
      → touches x.action c ≡ false
      → (x.wanted ≡ true → SafeMtu x.action)
      → Stays kern c s.0 (make_call kern x s).0
  unfolding make_call
  call-Stays c x s h safe v e =
      if_keeps (λ (r : K × Flags). look kern c r.0 ≡ some v) x.wanted
        (λ w. perform-Stays kern laws x.action c s.0 h (safe w) v e) (λ _. e)

  calls-Stay :
      (c : Cell) (l : List Call) (s : K × Flags)
      → clear c l ≡ true
      → SafeCalls l
      → Stays kern c s.0 (make_calls kern l s).0
  calls-Stay c [] s h safe v e = e
  calls-Stay c (x ∷ l) s h safe v e =
      let (other, rest) = clear-cons c x l h in
      calls-Stay c l (make_call kern x s) rest safe.1 v (call-Stays c x s other safe.0 v e)

  -- A flag that is off stays off.
  call-off :
      (x : Call) (s : K × Flags) (o : DevOpt) → s.1 o ≡ false → (make_call kern x s).1 o ≡ false
  unfolding make_call
  call-off x s o e =
      if_keeps (λ (r : K × Flags). r.1 o ≡ false) x.wanted
        (λ w.
          if_keeps (λ (f : Flags). f o ≡ false) (perform kern x.action s.0).1 (λ _. e)
            (λ _. if_keeps (λ b. b ≡ false) (bit x.opt == bit o) (λ _. refl) (λ _. e)))
        (λ _. e)

  calls-off :
      (l : List Call) (s : K × Flags) (o : DevOpt)
      → s.1 o ≡ false
      → (make_calls kern l s).1 o ≡ false
  calls-off [] s o e = e
  calls-off (x ∷ l) s o e = calls-off l (make_call kern x s) o (call-off x s o e)

  -- The call about a cell is made where the cell is still as it was, and what is found then is found
  -- in the end; if the option's flag is set in the end, the call has succeeded.
  pub record Made (c : Cell) (x : Call) (before after : K) (flags : Flags) : Type 0 where
    pub at : K
    pub as_before : Stays kern c before at
    pub to_the_end : Stays kern c (perform kern x.action at).0 after
    pub succeeded : flags x.opt ≡ true → (perform kern x.action at).1 ≡ true

  idle-Stays :
      (c : Cell) (x : Call) (s : K × Flags)
      → x.wanted ≡ false
      → Stays kern c s.0 (make_call kern x s).0
  unfolding make_call
  idle-Stays c x s h v e =
      if_keeps (λ (r : K × Flags). look kern c r.0 ≡ some v) x.wanted (λ w. ground arith) (λ _. e)

  make_call-wanted :
      (x : Call) (s : K × Flags)
      → x.wanted ≡ true
      → let r = perform kern x.action s.0 in
        make_call kern x s ≡ (r.0, if r.1 then s.1 else without x.opt s.1)
  unfolding make_call
  make_call-wanted x s w =
      let r = perform kern x.action s.0 in
      ap (λ b. if b then (r.0, if r.1 then s.1 else without x.opt s.1) else s) w

  failed-off :
      (x : Call) (s : K × Flags)
      → x.wanted ≡ true
      → (perform kern x.action s.0).1 ≡ false
      → (make_call kern x s).1 x.opt ≡ false
  failed-off x s w bad =
      ap (λ (r : K × Flags). r.1 x.opt) (make_call-wanted x s w)
      ∙ ap (λ b. (if b then s.1 else without x.opt s.1) x.opt) bad
      ∙ ground arith

  make_call-Made :
      (c : Cell) (x : Call) (l : List Call) (s : K × Flags)
      → clear c l ≡ true
      → SafeCalls l
      → x.wanted ≡ true
      → let s1 = make_calls kern l (make_call kern x s) in Made c x s.0 s1.0 s1.1
  make_call-Made c x l s h safe w = record {
    at = s.0;
    as_before = λ v e. e;
    to_the_end = λ v e.
        calls-Stay c l (make_call kern x s) h safe v
          (ap (look kern c) (ap (λ (r : K × Flags). r.0) (make_call-wanted x s w)) ∙ e);
    succeeded = λ on. elim (Bool-cases (perform kern x.action s.0).1) [
      | inl ok ↦ ok
      | inr bad ↦ absurd (sym on ∙ calls-off l (make_call kern x s) x.opt (failed-off x s w bad))
    ];
  }

  later_call-Made :
      (c : Cell) (x y : Call) (s : K × Flags) (after : K) (flags : Flags)
      → touches y.action c ≡ false
      → (y.wanted ≡ true → SafeMtu y.action)
      → Made c x (make_call kern y s).0 after flags
      → Made c x s.0 after flags
  later_call-Made c x y s after flags h safe made = record {
    at = made.at;
    as_before = λ v e. made.as_before v (call-Stays c y s h safe v e);
    to_the_end = made.to_the_end;
    succeeded = made.succeeded;
  }

  pub sole-Made :
      (c : Cell) (x : Call) (l : List Call) (s : K × Flags)
      → sole c l ≡ some x
      → SafeCalls l
      → x.wanted ≡ true
      → let s1 = make_calls kern l s in Made c x s.0 s1.0 s1.1
  sole-Made c x [] s h safe w = ground arith
  sole-Made c x (y ∷ l) s h safe w = elim (Bool-cases (touches y.action c)) [
    | inl t ↦
        let (rest, same) = sole-here c x y l t h in
        subst
          (λ z.
            Made c z s.0 (make_calls kern l (make_call kern y s)).0
              (make_calls kern l (make_call kern y s)).1)
          same (make_call-Made c y l s rest safe.1 (ap (λ z. z.wanted) same ∙ w))
    | inr t ↦
        later_call-Made c x y s _ _ t safe.0
          (sole-Made c x l (make_call kern y s) (sole-there c x y l t h) safe.1 w)
  ]

  pub sole-Stays :
      (c : Cell) (x : Call) (l : List Call) (s : K × Flags)
      → sole c l ≡ some x
      → SafeCalls l
      → x.wanted ≡ false
      → Stays kern c s.0 (make_calls kern l s).0
  sole-Stays c x [] s h safe w v e = e
  sole-Stays c x (y ∷ l) s h safe w v e = elim (Bool-cases (touches y.action c)) [
    | inl t ↦
        let (rest, same) = sole-here c x y l t h in
        calls-Stay c l (make_call kern y s) rest safe.1 v
          (idle-Stays c y s (ap (λ z. z.wanted) same ∙ w) v e)
    | inr t ↦
        sole-Stays c x l (make_call kern y s) (sole-there c x y l t h) safe.1 w v
          (call-Stays c y s t safe.0 v e)
  ]
