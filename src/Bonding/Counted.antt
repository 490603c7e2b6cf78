-- ===== src/Bonding/Counted.antt =====
-- bonding.c: the number of the present ports of a bond, and what leaves it alone.
use netifd.Prelude.{
  ℕ, ◌<◌, ◌≡◌, sym, ap, ◌∙◌, List, [], ◌∷◌, Bool, true, false, not, ◌&&◌, ◌||◌, ◌==◌, Option, All,
  arith, update, if_keeps, match_keeps, Bool-cases, inl, inr, ◌⊎◌, if◌then◌else◌,
}
use netifd.Prelude.Int.{pos, ◌+ℤ◌, ◌-ℤ◌}
use netifd.Settings.Defs.{Settings}
use netifd.Device.Listed.{has_id, also}
use netifd.Device.Store.{Hooks}
use netifd.Device.Claim.{device_claim, device_release}
use netifd.Device.Counting.{count, count-update}
use netifd.Device.Frame.{EnvLaws}
use netifd.Bridge.Members.{is_none}
use netifd.Bonding.Types.{Port, Bond, World, each}
use netifd.Bonding.Ports.{consider, bonding_reset_primary}

abbrev pub is_present : Port → Bool
is_present x = x.present

-- n_present is the number of the present ports, whose users are cells below `n`; they are in the
-- tree of the bond, but for those that are `out`, which are being freed.
pub record Counted (n : ℕ) (out : ℕ → Bool) (b : Bond) : Type 0 where
  pub counted : b.n_present ≡ pos (count is_present n b.port)
  pub bounded : All (λ (m : ℕ). m < n) b.ports
  pub listed : (k : ℕ) → (b.port k).present ≡ true → (has_id k b.ports || out k) ≡ true

abbrev pub Present : ℕ → World → Type 0
Present m s = (s.env.port m).present ≡ true

-- What is asked of the hooks: they keep the count, and what a bond does to the device of a port does
-- not take that port away meanwhile.
pub record BondLaws (n : ℕ) (h : Hooks Bond) : Type 1 where
  pub env_laws : (out : ℕ → Bool) → EnvLaws (Counted n out) h
  pub up_keeps :
      (out : ℕ → Bool) (d : ℕ) (s : World)
      → Counted n out s.env
      → Counted n out (h.system_if_up d s).env
  pub down_keeps :
      (out : ℕ → Bool) (d : ℕ) (s : World)
      → Counted n out s.env
      → Counted n out (h.system_if_down d s).env
  pub apply_keeps :
      (out : ℕ → Bool) (d : ℕ) (x : Settings) (s : World)
      → Counted n out s.env
      → Counted n out (h.system_if_apply_settings d x s).env
  pub claim_leaves : (m : ℕ) (s : World) → Present m s → Present m (device_claim h m s).0
  pub release_leaves : (m : ℕ) (s : World) → Present m s → Present m (device_release h m s)

module _ (n : ℕ) (out : ℕ → Bool) where
  pub widen-Counted : (m : ℕ) (b : Bond) → Counted n out b → Counted n (also m out) b
  widen-Counted m b c = record {
    counted = c.counted;
    bounded = c.bounded;
    listed = λ k e. ground (arith, c.listed k e);
  }

  -- A port that is being freed, and is not present, is no exception.
  pub narrow-Counted :
      (m : ℕ) (b : Bond) → (b.port m).present ≡ false → Counted n (also m out) b → Counted n out b
  narrow-Counted m b off c = record {
    counted = c.counted;
    bounded = c.bounded;
    listed = λ k e. still k e (Bool-cases (k == m));
  }
    where
      still :
          (k : ℕ)
          → (b.port k).present ≡ true
          → ((k == m) ≡ true) ⊎ ((k == m) ≡ false)
          → (has_id k b.ports || out k) ≡ true
      still k e (inl eq) =
          let same : k ≡ m = ground arith in
          absurd (ground (arith, sym e ∙ ap (λ i. (b.port i).present) same ∙ off))
      still k e (inr ne) = ground (arith, c.listed k e)

  pub drop-Counted :
      (m : ℕ) (x : Port) (b : Bond)
      → m < n
      → (b.port m).present ≡ true
      → x.present ≡ false
      → Counted n (also m out) b
      → Counted n out (record b { port = update b.port m x; n_present = b.n_present -ℤ pos 1 })
  unfolding ◌-ℤ◌
  drop-Counted m x b lt p q c = record {
    counted = ground (arith, c.counted, p, q, count-update is_present n b.port m x lt);
    bounded = c.bounded;
    listed = λ k e. ground (arith, q, e, c.listed k);
  }

  pub add-Counted :
      (m : ℕ) (x : Port) (b : Bond)
      → m < n
      → has_id m b.ports ≡ true
      → (b.port m).present ≡ false
      → x.present ≡ true
      → Counted n out b
      → Counted n out (record b { port = update b.port m x; n_present = b.n_present +ℤ pos 1 })
  unfolding ◌+ℤ◌
  add-Counted m x b lt here p q c = record {
    counted = ground (arith, c.counted, p, q, count-update is_present n b.port m x lt);
    bounded = c.bounded;
    listed = λ k e. elim (Bool-cases (k == m)) [
      | inl eq ↦
          let same : k ≡ m = ground arith in ground (arith, ap (λ i. has_id i b.ports) same, here)
      | inr ne ↦ ground (arith, e, ne, c.listed k)
    ];
  }

  -- A port is changed, but not whether it is present.
  pub same-Counted :
      (m : ℕ) (x : Port) (b : Bond)
      → m < n
      → x.present ≡ (b.port m).present
      → Counted n out b
      → Counted n out (record b { port = update b.port m x })
  same-Counted m x b lt e c = record {
    counted = ground (arith, c.counted, e, count-update is_present n b.port m x lt);
    bounded = c.bounded;
    listed = λ k p. elim (Bool-cases (k == m)) [
      | inl eq ↦
          let same : k ≡ m = ground arith in
          c.listed k (ap (λ i. (b.port i).present) same ∙ sym e ∙ ground (arith, p, eq))
      | inr ne ↦ c.listed k (ground (arith, p, ne))
    ];
  }

module _ (n : ℕ) (out : ℕ → Bool) where
  abbrev P : World → Type 0
  P s = Counted n out s.env

  pub each_keeps :
      (f : ℕ → World → World)
      → ((m : ℕ) (s : World) → m < n → has_id m s.env.ports ≡ true → P s → P (f m s))
      → (l : List ℕ) (s : World) → All (λ m. m < n) l
      → P s
      → P (each f l s)
  each_keeps f k [] s a c = c
  each_keeps f k (m ∷ l) s (lt, a) c =
      each_keeps f k l (if has_id m s.env.ports then f m s else s) a
        (if_keeps P (has_id m s.env.ports) (λ e. k m s lt e c) (λ e. c))

  consider_keeps :
      (m : ℕ) (s : World) → m < n → has_id m s.env.ports ≡ true → P s → P (consider m s)
  consider_keeps m s lt here c =
      let c1 : Counted n out (record (s.env) { primary_port = Option.some m }) = record {
        counted = c.counted;
        bounded = c.bounded;
        listed = c.listed;
      } in
      if_keeps P (not (s.env.port m).present) (λ e. c)
        (λ e.
          if_keeps P (not (is_none s.env.primary_port) && not (s.env.port m).set_primary) (λ e. c)
            (λ e.
              if_keeps P s.env.has_macaddr (λ e. c1)
                (λ e. match_keeps P (s.usrs m).dev (λ e. c1) (λ d e. c1))))

  pub reset_primary_keeps : (s : World) → P s → P (bonding_reset_primary s)
  unfolding bonding_reset_primary
  reset_primary_keeps s c = each_keeps consider consider_keeps s.env.ports _ c.bounded (
      if_keeps P s.env.has_macaddr
        (λ e. record { counted = c.counted; bounded = c.bounded; listed = c.listed })
        (λ e. record { counted = c.counted; bounded = c.bounded; listed = c.listed }))
