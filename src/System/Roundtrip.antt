-- ===== src/System/Roundtrip.antt =====
-- system-linux.c: one option of a device, written by system_if_apply_settings and read again.
use netifd.Prelude.{ℕ, List, Bool, true, not, some, ◌<◌, ◌≡◌, ◌%◌, ◌^◌, ap, sym, ◌∙◌, arith}
use netifd.Prelude.Int.{ℤ, pos}
use netifd.Settings.Defs.{Flags, DevOpt}
use netifd.Utils.Netmask.{Text}
use netifd.System.Text.{print_uint, print_int, to_int}
use netifd.System.Printed.{with_line_break}
use netifd.System.Kernel.{FilePath, Kernel}
use netifd.System.Setters.{Write}
use netifd.System.Apply.{Call, flag_text, set_option, make_calls}
use netifd.System.Get.{uint_of, int_of, bool_of, not_of}
use netifd.System.Cells.{Cell, file, Stays, KernelLaws}
use netifd.System.Sole.{SafeCalls, sole}
use netifd.System.Readback.{text_back, uint_of-read, int_of-read, bool_of-read, not_of-read}
use netifd.System.Agree.{Takes, NumberReady, FlagReady, IntReady}

to_int-small : (v : ℕ) → v < 10 ^ 9 → to_int v ≡ pos v
to_int-small v h = let e : v % 2 ^ 32 ≡ v = omega arith in ground (arith, e)

module _ {K : Type 0} {kern : Kernel K} {accepts : FilePath → Text → Bool}
    (laws : KernelLaws kern accepts) (l : List Call) (safe : SafeCalls l) (mask : Flags)
    (o : DevOpt) (on : mask o ≡ true) (k : K) (flags : Flags) (k2 : K)
    (stay : (c : Cell) → Stays kern c (make_calls kern l (k, flags)).0 k2) where
  abbrev written : FilePath → Text → Write
  written p t = record { path = p; text = t }

  text_kept :
      (p : FilePath) (t : Text)
      → sole (file p) l ≡ some (set_option mask o (written p t))
      → Takes kern accepts k p t
      → kern.read p k2 ≡ some (with_line_break t)
  text_kept p t h r =
      text_back kern laws l safe mask o on k flags k2 stay (written p t) r.0.0 h r.0.1 r.1

  pub number_back :
      (p : FilePath) (v old : ℕ)
      → sole (file p) l ≡ some (set_option mask o (written p (print_uint v)))
      → NumberReady kern accepts k p v
      → uint_of kern k2 p old ≡ v
  number_back p v old h r = uint_of-read kern k2 p old v (text_kept p (print_uint v) h r.0) r.1

  -- A number in an int.
  pub signed_back :
      (p : FilePath) (v old : ℕ)
      → sole (file p) l ≡ some (set_option mask o (written p (print_int (to_int v))))
      → NumberReady kern accepts k p v
      → uint_of kern k2 p old ≡ v
  unfolding print_int
  signed_back p v old h r =
      number_back p v old
        (h ∙ ap (λ z. some (set_option mask o (written p (print_int z)))) (to_int-small v r.1)) r

  pub flag_text_back :
      (p : FilePath) (v old : Bool)
      → sole (file p) l ≡ some (set_option mask o (written p (flag_text v)))
      → FlagReady kern accepts k p v
      → bool_of kern k2 p old ≡ v
  flag_text_back p v old h r = bool_of-read kern k2 p old v (text_kept p (flag_text v) h r)

  pub inverse_back :
      (p : FilePath) (v old : Bool)
      → sole (file p) l ≡ some (set_option mask o (written p (flag_text (not v))))
      → FlagReady kern accepts k p (not v)
      → not_of kern k2 p old ≡ v
  inverse_back p v old h r = not_of-read kern k2 p old v (text_kept p (flag_text (not v)) h r)

  pub int_back :
      (p : FilePath) (v old : ℤ)
      → sole (file p) l ≡ some (set_option mask o (written p (print_int v)))
      → IntReady kern accepts k p v
      → int_of kern k2 p old ≡ v
  unfolding print_int
  int_back p v old h r =
      let (n, e, ready) = r in
      let h1 = h ∙ ap (λ z. some (set_option mask o (written p (print_int z)))) e in
      int_of-read kern k2 p old n (text_kept p (print_uint n) h1 ready.0) ready.1 ∙ sym e
