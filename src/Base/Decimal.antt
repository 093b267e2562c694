-- ===== src/Base/Decimal.antt =====
-- Decimal numbers, as `printf` writes them.
use Prim.Native.Nat.{ℕ, zero, suc, ◌+◌, ◌-◌, ◌*◌, ◌/◌, ◌%◌, ◌^◌, ◌≤◌, ◌<◌}
use mathlib.Core.Path.{◌≡◌, refl}
use mathlib.Core.Bool.{◌&&◌}
use mathlib.Core.List.{[], ◌∷◌, ◌++◌}
use native.Mathlib.Omega.{arith}
use doarr.Base.Tests.{ltb, leb, if◌then◌else◌}
use doarr.Base.Lists.{length}
use doarr.Base.Text.{Bytes}

-- The digits that `printf` writes of a number that is not negative, in front of others; on fuel.
unfoldable pub digits : ℕ → ℕ → Bytes → Bytes
digits zero n acc = acc
digits (suc fuel) n acc =
    let more = digits fuel (n / 10) ((b'0' + n % 10) ∷ acc) in
    if ltb n 10 then (b'0' + n) ∷ acc else more

abbrev pub decimal : ℕ → Bytes
decimal n = digits (suc n) n []

-- The number that the digits at the start of a text spell, behind those of `v`.
unfoldable pub read_number : ℕ → Bytes → ℕ
read_number v [] = v
read_number v (c ∷ s) =
    let next = read_number (10 * v + (c - b'0')) s in if leb b'0' c && leb c b'9' then next else v

pub read_number-digits :
    (fuel n : ℕ) (acc : Bytes) → n < fuel → read_number 0 (digits fuel n acc) ≡ read_number n acc
unfolding read_number digits
read_number-digits zero n acc h = absurd (omega arith)
read_number-digits (suc fuel) n acc h =
    ground (arith, read_number-digits fuel (n / 10) ((b'0' + n % 10) ∷ acc))

pub digits-append : (fuel n : ℕ) (acc t : Bytes) → digits fuel n (acc ++ t) ≡ digits fuel n acc ++ t
unfolding digits
digits-append zero n acc t = refl
digits-append (suc fuel) n acc t =
    ground (arith, digits-append fuel (n / 10) ((b'0' + n % 10) ∷ acc) t)

pub length-digits :
    (k fuel n : ℕ) (acc : Bytes) → n < 10 * 10 ^ k → length (digits fuel n acc) ≤ suc k + length acc
unfolding digits
length-digits k zero n acc h = omega arith
length-digits zero (suc fuel) n acc h = ground arith
length-digits (suc k) (suc fuel) n acc h =
    ground (arith, length-digits k fuel (n / 10) ((b'0' + n % 10) ∷ acc))
