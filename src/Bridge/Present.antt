-- ===== src/Bridge/Present.antt =====
-- bridge.c: the number of the present members of a bridge.
use netifd.Prelude.{
  ℕ, zero, suc, ◌<◌, ◌≡◌, refl, sym, ap, ◌∙◌, Bool, true, false, ◌||◌, ◌==◌, All, arith, update,
  subst, Bool-cases, inl, inr, ◌⊎◌,
}
use netifd.Prelude.Int.{pos, ◌+ℤ◌, ◌-ℤ◌}
use netifd.Settings.Defs.{Settings}
use netifd.Device.Listed.{has_id, also}
use netifd.Device.Store.{Hooks, topo_change}
use netifd.Device.Claim.{device_broadcast_event, device_claim, device_release}
use netifd.Device.Counting.{count, count-update}
use netifd.Device.Frame.{EnvLaws}
use netifd.Bridge.Types.{Member, Bridge, World}
use netifd.Bridge.Quiet.{Quiet}

abbrev pub is_present : Member → Bool
is_present x = x.present

-- n_present is the number of the present members, whose users are cells below `n`; they are in the
-- tree of the bridge, but for those that are `out`, which are being freed.
pub record Counted (n : ℕ) (out : ℕ → Bool) (b : Bridge) : Type 0 where
  pub counted : b.n_present ≡ pos (count is_present n b.member)
  pub bounded : All (λ (m : ℕ). m < n) b.members
  pub listed : (k : ℕ) → (b.member k).present ≡ true → (has_id k b.members || out k) ≡ true

abbrev pub Present : ℕ → World → Type 0
Present m s = (s.env.member m).present ≡ true

-- What is asked of the hooks: they keep the count, and what a bridge does to the device of a
-- member, or tells the users of its own device, does not take that member away meanwhile.
pub record BridgeLaws (n : ℕ) (h : Hooks Bridge) : Type 1 where
  pub env_laws : (out : ℕ → Bool) → EnvLaws (Counted n out) h
  pub up_keeps :
      (out : ℕ → Bool) (d : ℕ) (s : World)
      → Counted n out s.env
      → Counted n out (h.system_if_up d s).env
  pub down_keeps :
      (out : ℕ → Bool) (d : ℕ) (s : World)
      → Counted n out s.env
      → Counted n out (h.system_if_down d s).env
  pub apply_keeps :
      (out : ℕ → Bool) (d : ℕ) (x : Settings) (s : World)
      → Counted n out s.env
      → Counted n out (h.system_if_apply_settings d x s).env
  pub claim_leaves : (m : ℕ) (s : World) → Present m s → Present m (device_claim h m s).0
  pub release_leaves : (m : ℕ) (s : World) → Present m s → Present m (device_release h m s)
  pub event_leaves :
      (m d : ℕ) (s : World) → Present m s → Present m (device_broadcast_event h d topo_change s)

count_same :
    (n : ℕ) (f g : ℕ → Member)
    → ((m : ℕ) → (f m).present ≡ (g m).present)
    → count is_present n f ≡ count is_present n g
unfolding count
count_same zero f g e = refl
count_same (suc n) f g e = ground (arith, e n, count_same n f g e)

pub Quiet-Counted :
    (n : ℕ) (out : ℕ → Bool) (s v : World) → Quiet s v → Counted n out s.env → Counted n out v.env
Quiet-Counted n out s v q c = record {
  listed =
      λ k p. ap (λ l. has_id k l || out k) q.same_members ∙ c.listed k (sym (q.same_present k) ∙ p);
  counted =
      q.same_count
      ∙ c.counted
      ∙ ap pos (sym (count_same n v.env.member s.env.member q.same_present));
  bounded = subst (All (λ (m : ℕ). m < n)) (sym q.same_members) c.bounded;
}

pub Quiet-Present : (m : ℕ) (s v : World) → Quiet s v → Present m s → Present m v
Quiet-Present m s v q p = q.same_present m ∙ p

module _ (n : ℕ) (out : ℕ → Bool) where
  pub widen-Counted : (m : ℕ) (b : Bridge) → Counted n out b → Counted n (also m out) b
  widen-Counted m b c = record {
    counted = c.counted;
    bounded = c.bounded;
    listed = λ k e. ground (arith, c.listed k e);
  }

  -- A member that is being freed, and is not present, is no exception.
  pub narrow-Counted :
      (m : ℕ) (b : Bridge)
      → (b.member m).present ≡ false
      → Counted n (also m out) b
      → Counted n out b
  narrow-Counted m b off c = record {
    counted = c.counted;
    bounded = c.bounded;
    listed = λ k e. still k e (Bool-cases (k == m));
  }
    where
      still :
          (k : ℕ)
          → (b.member k).present ≡ true
          → ((k == m) ≡ true) ⊎ ((k == m) ≡ false)
          → (has_id k b.members || out k) ≡ true
      still k e (inl eq) =
          let same : k ≡ m = ground arith in
          absurd (ground (arith, sym e ∙ ap (λ i. (b.member i).present) same ∙ off))
      still k e (inr ne) = ground (arith, c.listed k e)

  pub drop-Counted :
      (m : ℕ) (x : Member) (b : Bridge)
      → m < n
      → (b.member m).present ≡ true
      → x.present ≡ false
      → Counted n (also m out) b
      → Counted n out (record b { member = update b.member m x; n_present = b.n_present -ℤ pos 1 })
  unfolding ◌-ℤ◌
  drop-Counted m x b lt p q c = record {
    counted = ground (arith, c.counted, p, q, count-update is_present n b.member m x lt);
    bounded = c.bounded;
    listed = λ k e. ground (arith, q, e, c.listed k);
  }

  pub add-Counted :
      (m : ℕ) (x : Member) (b : Bridge)
      → m < n
      → has_id m b.members ≡ true
      → (b.member m).present ≡ false
      → x.present ≡ true
      → Counted n out b
      → Counted n out (record b { member = update b.member m x; n_present = b.n_present +ℤ pos 1 })
  unfolding ◌+ℤ◌
  add-Counted m x b lt here p q c = record {
    counted = ground (arith, c.counted, p, q, count-update is_present n b.member m x lt);
    bounded = c.bounded;
    listed = λ k e. elim (Bool-cases (k == m)) [
      | inl eq ↦
          let same : k ≡ m = ground arith in ground (arith, ap (λ i. has_id i b.members) same, here)
      | inr ne ↦ ground (arith, e, ne, c.listed k)
    ];
  }
