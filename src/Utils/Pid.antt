-- ===== src/Utils/Pid.antt =====
-- utils.c: check_pid_path on Linux. `target` is what the link /proc/<pid>/exe points to. readlink
-- fills a buffer, here of the length of `exe`, and cuts off the rest.
use netifd.Prelude.{
  ℕ, zero, suc, ◌+◌, ◌≡◌, ◌≤◌, ◌↔◌, ◌≢◌, refl, sym, ap, ◌∙◌, [], ◌∷◌, ◌++◌, Bool, true, false, ◌&&◌,
  Option, none, some, ◌==◌, arith, length, if◌then◌else◌, Option-cases, inl, inr,
}
use netifd.Utils.Netmask.{Text}

abbrev pub take : ℕ → Text → Text
take zero s = []
take (suc n) [] = []
take (suc n) (x ∷ s) = x ∷ take n s

-- memcmp on whole texts.
abbrev pub same_bytes : Text → Text → Bool
same_bytes [] [] = true
same_bytes (x ∷ s) (y ∷ t) = let rest = same_bytes s t in x == y && rest
same_bytes _ _ = false

abbrev pub readlink : Option Text → ℕ → Option Text
readlink none size = none
readlink (some link) zero = none
readlink (some link) (suc n) = some (take (suc n) link)

-- `behind` says that the bytes behind `exe` in memory are " (deleted)".
unfoldable pub check_pid_path : (ℕ → Option Text) → Bool → ℕ → Text → Bool
check_pid_path target behind pid exe = elim (readlink (target pid) (length exe)) [
  | none ↦ false
  | some buf ↦
      if length buf == length exe
      then same_bytes exe buf
      else if length buf == length exe + 10
      then same_bytes exe (take (length exe) buf) && behind
      else false
]

length-take : (n : ℕ) (s : Text) → length (take n s) ≤ n
length-take zero s = omega arith
length-take (suc n) [] = omega arith
length-take (suc n) (x ∷ s) = omega (arith, length-take n s)

-- The two parts of a comparison that succeeds.
same_head :
    (x y : ℕ) (s t : Text) → same_bytes (x ∷ s) (y ∷ t) ≡ true → (x ≡ y) × (same_bytes s t ≡ true)
same_head x y s t h = ground arith

same_bytes-take :
    (s t : Text) → same_bytes s (take (length s) t) ≡ true → (rest : Text) × (t ≡ s ++ rest)
same_bytes-take [] t h = (t, refl)
same_bytes-take (x ∷ s) [] h = absurd (ground arith)
same_bytes-take (x ∷ s) (y ∷ t) h =
    let (same, tails) = same_head x y s (take (length s) t) h in
    let (rest, e) = same_bytes-take s t tails in (rest, cc (same, e))

take-append : (s rest : Text) → take (length s) (s ++ rest) ≡ s
take-append [] rest = refl
take-append (x ∷ s) rest = cc (take-append s rest)

same_bytes_refl : (s : Text) → same_bytes s s ≡ true
same_bytes_refl [] = refl
same_bytes_refl (x ∷ s) = ground (arith, same_bytes_refl s)

same_bytes-shorter : (s t : Text) → length t ≢ length s → same_bytes s t ≡ false
same_bytes-shorter [] [] h = absurd (h refl)
same_bytes-shorter [] (y ∷ t) h = refl
same_bytes-shorter (x ∷ s) [] h = refl
same_bytes-shorter (x ∷ s) (y ∷ t) h = ground (arith, same_bytes-shorter s t (λ e. h (ap suc e)))

-- The comparison of the cut link, whose length is never that of a deleted program.
checks-cut :
    (target : ℕ → Option Text) (behind : Bool) (pid c : ℕ) (exe link : Text)
    → target pid ≡ some link
    → check_pid_path target behind pid (c ∷ exe)
      ≡ same_bytes (c ∷ exe) (take (suc (length exe)) link)
unfolding check_pid_path
checks-cut target behind pid c exe link at =
    let n = suc (length exe) in
    let buf = take n link in
    let short = length-take n link in ground (arith, at, short, same_bytes-shorter (c ∷ exe) buf)

checks_missing :
    (target : ℕ → Option Text) (behind : Bool) (pid c : ℕ) (exe : Text)
    → target pid ≡ none
    → check_pid_path target behind pid (c ∷ exe) ≡ false
unfolding check_pid_path
checks_missing target behind pid c exe at = ground (arith, at)

-- On Linux, check_pid_path accepts a process exactly if the path of its program starts with the
-- path that is asked for, which is not empty; what stands behind that path in memory does not
-- matter.
pub check_pid_path_prefix :
    (target : ℕ → Option Text) (behind : Bool) (pid c : ℕ) (exe : Text)
    → (check_pid_path target behind pid (c ∷ exe) ≡ true)
      ↔ ((rest : Text) × (target pid ≡ some (c ∷ exe ++ rest)))
check_pid_path_prefix target behind pid c exe = (
  λ h. elim (Option-cases (target pid)) [
    | inl at ↦ absurd (ground (arith, checks_missing target behind pid c exe at))
    | inr (link, at) ↦
        let (rest, e) =
          same_bytes-take (c ∷ exe) link (sym (checks-cut target behind pid c exe link at) ∙ h) in
        (rest, at ∙ ap some e)
  ],
  λ (rest, at).
      checks-cut target behind pid c exe (c ∷ exe ++ rest) at
      ∙ ap (same_bytes (c ∷ exe)) (take-append (c ∷ exe) rest)
      ∙ same_bytes_refl (c ∷ exe),
)
